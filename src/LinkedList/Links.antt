-- ===== src/LinkedList/Links.antt =====
-- What a doubly linked list of mylib/linked_list.c looks like in memory.
use glu_ke.Base.{
  ℕ, ◌≡◌, ◌≢◌, refl, ap, Bool, true, false, ◌||◌, List, [], ◌∷◌, ◌++◌, arith, ◌==◌, inl, inr,
  Bool-cases, ==_iff,
}
use glu_ke.LinkedList.{Node, Memory, Info, write}

-- The address behind the list, and the one in front of its end.
abbrev pub first_or : List ℕ → ℕ → ℕ
first_or [] e = e
first_or (a ∷ xs) e = a

abbrev pub last_or : List ℕ → ℕ → ℕ
last_or [] b = b
last_or (a ∷ xs) b = last_or xs a

abbrev pub has : ℕ → List ℕ → Bool
has a [] = false
has a (x ∷ xs) = a == x || has a xs

-- No address comes twice.
abbrev pub Distinct : List ℕ → Type 0
Distinct [] = Unit {0}
Distinct (x ∷ xs) = (has x xs ≡ false) × Distinct xs

-- The nodes `xs` are linked to each other both ways, between `b` and `e`.
abbrev pub Links : Memory → ℕ → List ℕ → ℕ → Type 0
Links m b [] e = Unit {0}
Links m b (a ∷ xs) e = (a ≢ 0) × ((m a).prev ≡ b) × ((m a).next ≡ first_or xs e) × Links m a xs e

-- The list `s` holds the nodes `xs`, in their order.
pub record IsList (s : Info) (xs : List ℕ) : Type 0 where
  pub links : Links s.memory 0 xs 0
  pub head_first : s.head ≡ first_or xs 0
  pub tail_last : s.tail ≡ last_or xs 0
  pub distinct : Distinct xs

pub first_or-append : (xs ys : List ℕ) (e : ℕ) → first_or (xs ++ ys) e ≡ first_or xs (first_or ys e)
first_or-append [] ys e = refl
first_or-append (x ∷ xs) ys e = refl

pub last_or-append : (xs ys : List ℕ) (b : ℕ) → last_or (xs ++ ys) b ≡ last_or ys (last_or xs b)
last_or-append [] ys b = refl
last_or-append (x ∷ xs) ys b = last_or-append xs ys x

pub has-append : (a : ℕ) (xs ys : List ℕ) → has a (xs ++ ys) ≡ (has a xs || has a ys)
has-append a [] ys = refl
has-append a (x ∷ xs) ys = ground (arith, has-append a xs ys)

pub has-last : (x : ℕ) (xs : List ℕ) → has (last_or xs x) (x ∷ xs) ≡ true
has-last x [] = ground arith
has-last x (y ∷ ys) = ground (arith, has-last y ys)

pub has-apart : (a b : ℕ) (xs : List ℕ) → has a xs ≡ true → has b xs ≡ false → (b == a) ≡ false
has-apart a b xs there out = elim (Bool-cases (b == a)) [
  | inr other ↦ other
  | inl same ↦ let e : has b xs ≡ has a xs = ap (λ (x : ℕ). has x xs) ((==_iff b a).0 same) in cc
]

-- Every node of a linked list has an address.
pub has-ne_zero : (m : Memory) (b : ℕ) (xs : List ℕ) (e : ℕ) → Links m b xs e → has 0 xs ≡ false
has-ne_zero m b [] e l = refl
has-ne_zero m b (x ∷ xs) e l = ground (arith, has-ne_zero m x xs e l.3)

pub last-ne_zero :
    (m : Memory) (b x : ℕ) (xs : List ℕ) (e : ℕ) → Links m b (x ∷ xs) e → last_or xs x ≢ 0
last-ne_zero m b x [] e l = l.0
last-ne_zero m b x (y ∷ ys) e l = last-ne_zero m x y ys e l.3

pub Links-append :
    (m : Memory) (b : ℕ) (xs ys : List ℕ) (e : ℕ)
    → Links m b xs (first_or ys e)
    → Links m (last_or xs b) ys e
    → Links m b (xs ++ ys) e
Links-append m b [] ys e l k = k
Links-append m b (x ∷ xs) ys e l k =
    (l.0, l.1, rw (first_or-append xs ys e) (l.2), Links-append m x xs ys e l.3 k)

pub Links-split :
    (m : Memory) (b : ℕ) (xs ys : List ℕ) (e : ℕ)
    → Links m b (xs ++ ys) e
    → Links m b xs (first_or ys e) × Links m (last_or xs b) ys e
Links-split m b [] ys e l = (tt, l)
Links-split m b (x ∷ xs) ys e l =
    let r = Links-split m x xs ys e l.3 in
    ((l.0, l.1, rw (first_or-append xs ys e) at (l.2), r.0), r.1)

-- A change of a node outside leaves the links.
pub Links-write :
    (m : Memory) (b : ℕ) (xs : List ℕ) (e p : ℕ) (n : Node)
    → has p xs ≡ false
    → Links m b xs e
    → Links (write m p n) b xs e
unfolding write
Links-write m b [] e p n out l = tt
Links-write m b (x ∷ xs) e p n out l =
    (l.0, ground arith, ground arith, Links-write m x xs e p n (ground arith) l.3)

-- `p` does not come twice in `ys ++ p ∷ zs`.
pub Distinct-middle :
    (ys : List ℕ) (p : ℕ) (zs : List ℕ)
    → Distinct (ys ++ (p ∷ zs))
    → (has p ys ≡ false) × (has p zs ≡ false) × Distinct (ys ++ zs)
Distinct-middle [] p zs d = (refl, d.0, d.1)
Distinct-middle (y ∷ ys) p zs d =
    let r = Distinct-middle ys p zs d.1 in
    (
      ground (arith, has-append y ys (p ∷ zs), r.0),
      r.1,
      (ground (arith, has-append y ys (p ∷ zs), has-append y ys zs), r.2),
    )

pub Distinct-apart :
    (ys zs : List ℕ) (a : ℕ) → Distinct (ys ++ zs) → has a ys ≡ true → has a zs ≡ false
Distinct-apart [] zs a d h = cc
Distinct-apart (y ∷ ys) zs a d h = elim (Bool-cases (a == y)) [
  | inl same ↦ let e : a ≡ y = ground arith in rw e (ground (arith, has-append y ys zs, d.0))
  | inr other ↦ Distinct-apart ys zs a d.1 (ground arith)
]

pub Distinct-snoc :
    (xs : List ℕ) (n : ℕ) → Distinct xs → has n xs ≡ false → Distinct (xs ++ (n ∷ []))
Distinct-snoc [] n d h = (refl, tt)
Distinct-snoc (x ∷ xs) n d h =
    (ground (arith, has-append x xs (n ∷ [])), Distinct-snoc xs n d.1 (ground arith))

pub Distinct-front : (xs ys : List ℕ) → Distinct (xs ++ ys) → Distinct xs
Distinct-front [] ys d = tt
Distinct-front (x ∷ xs) ys d = (ground (arith, has-append x xs ys, d.0), Distinct-front xs ys d.1)

pub Distinct-back : (xs ys : List ℕ) → Distinct (xs ++ ys) → Distinct ys
Distinct-back [] ys d = d
Distinct-back (x ∷ xs) ys d = Distinct-back xs ys d.1
