-- ===== src/LinkedList/Change.antt =====
-- What the calls of mylib/linked_list.c that change a list do to its links.
use glu_ke.Base.{
  ℕ, ◌≡◌, ◌≢◌, refl, sym, ap, ◌∙◌, false, List, [], ◌∷◌, ◌++◌, arith, ◌==◌, if◌then◌else◌,
}
use glu_ke.LinkedList.{
  Node, Memory, Info, write, set_next, set_prev, unlink, ll_delete_node, ll_push_back,
}
use glu_ke.LinkedList.Links.{
  first_or, last_or, has, Distinct, Links, IsList, last_or-append, has-last, has-apart,
  last-ne_zero, Links-append, Links-split, Links-write, Distinct-middle, Distinct-apart,
  Distinct-snoc, Distinct-front, Distinct-back,
}

eq_false : (a b : ℕ) → a ≢ b → (a == b) ≡ false
eq_false a b h = ground arith

write-other : (m : Memory) (p q : ℕ) (n : Node) → (q == p) ≡ false → write m p n q ≡ m q
unfolding write
write-other m p q n h = rw h refl

-- The end of a list is linked to another address.
relink_next :
    (m : Memory) (b y : ℕ) (ys : List ℕ) (e e' : ℕ)
    → Links m b (y ∷ ys) e
    → Distinct (y ∷ ys)
    → Links (set_next m (last_or ys y) e') b (y ∷ ys) e'
unfolding write
relink_next m b y [] e e' l d = (l.0, ground arith, ground arith, tt)
relink_next m b y (z ∷ zs) e e' l d =
    let other = has-apart (last_or zs z) y (z ∷ zs) (has-last z zs) d.0 in
    (l.0, rw other (l.1), rw other (l.2), relink_next m y z zs e e' l.3 d.1)

-- The front of a list is linked to another address.
relink_prev :
    (m : Memory) (b b' z : ℕ) (zs : List ℕ) (e : ℕ)
    → Links m b (z ∷ zs) e
    → Distinct (z ∷ zs)
    → Links (set_prev m z b') b' (z ∷ zs) e
unfolding write
relink_prev m b b' z zs e l d = (l.0, ground arith, ground arith, Links-write m z zs e z _ d.0 l.3)

-- The memory `m'` after the first write of a deletion, of the node `p` between `ys` and `zs`.
record Cut (m : Memory) (ys : List ℕ) (p : ℕ) (zs : List ℕ) (m' : Memory) : Type 0 where
  front : Links m' 0 ys (first_or zs 0)
  back : Links m' p zs 0
  self : m' p ≡ m p

abbrev cut_front : Memory → ℕ → Memory
cut_front m p = if (m p).prev == 0 then m else set_next m (m p).prev (m p).next

cut_front-Cut :
    (m : Memory) (ys : List ℕ) (p : ℕ) (zs : List ℕ)
    → Links m 0 (ys ++ (p ∷ zs)) 0
    → Distinct (ys ++ (p ∷ zs))
    → Cut m ys p zs (cut_front m p)
cut_front-Cut m [] p zs l d = rw (l.1) (record { front = tt; back = l.3; self = refl })
cut_front-Cut m (y ∷ ys) p zs l d =
    let parts = Links-split m 0 (y ∷ ys) (p ∷ zs) 0 l in
    let apart = Distinct-middle (y ∷ ys) p zs d in
    let before = last_or ys y in
    let there = has-last y ys in
    let some_before : (before == 0) ≡ false = eq_false before 0 (last-ne_zero m 0 y ys p parts.0) in
    let other = has-apart before p (y ∷ ys) there apart.0 in
    rw (parts.1.1, parts.1.2, some_before)
      (record {
        front = relink_next m 0 y ys p (first_or zs 0) parts.0 (Distinct-front (y ∷ ys) (p ∷ zs) d);
        back =
            Links-write m p zs 0 before _ (Distinct-apart (y ∷ ys) zs before apart.2 there)
              parts.1.3;
        self = write-other m before p _ other;
      })

-- The memory after both.
record Unlinked (m : Memory) (ys : List ℕ) (p : ℕ) (zs : List ℕ) (m' : Memory) : Type 0 where
  links : Links m' 0 (ys ++ zs) 0
  self : m' p ≡ m p

back_write-Unlinked :
    (m m' : Memory) (ys : List ℕ) (p : ℕ) (zs : List ℕ)
    → (m p).prev ≡ last_or ys 0
    → (m p).next ≡ first_or zs 0
    → Distinct (ys ++ (p ∷ zs))
    → Cut m ys p zs m'
    → Unlinked m ys p zs (if (m' p).next == 0 then m' else set_prev m' (m' p).next (m' p).prev)
back_write-Unlinked m m' ys p [] pr ne d c =
    let e : (m' p).next ≡ 0 = ap (λ (n : Node). n.next) c.self ∙ ne in
    rw e (record { links = Links-append m' 0 ys [] 0 c.front tt; self = c.self })
back_write-Unlinked m m' ys p (z ∷ zs) pr ne d c =
    let en : (m' p).next ≡ z = ap (λ (n : Node). n.next) c.self ∙ ne in
    let ep : (m' p).prev ≡ last_or ys 0 = ap (λ (n : Node). n.prev) c.self ∙ pr in
    let apart = Distinct-middle ys p (z ∷ zs) d in
    let out = (Distinct-middle ys z zs apart.2).0 in
    let other : (p == z) ≡ false = ground (arith, apart.1) in
    rw (en, ep, eq_false z 0 (c.back.0))
      (record {
        links =
            Links-append _ 0 ys (z ∷ zs) 0 (Links-write m' 0 ys z z _ out c.front)
              (relink_prev m' p (last_or ys 0) z zs 0 c.back (Distinct-back ys (z ∷ zs) apart.2));
        self = write-other m' z p _ other ∙ c.self;
      })

unlink-Unlinked :
    (m : Memory) (ys : List ℕ) (p : ℕ) (zs : List ℕ)
    → Links m 0 (ys ++ (p ∷ zs)) 0
    → Distinct (ys ++ (p ∷ zs))
    → Unlinked m ys p zs (unlink m p)
unfolding unlink
unlink-Unlinked m ys p zs l d =
    let parts = Links-split m 0 ys (p ∷ zs) 0 l in
    back_write-Unlinked m (cut_front m p) ys p zs parts.1.1 parts.1.2 d
      (cut_front-Cut m ys p zs l d)

new_head :
    (ys : List ℕ) (p : ℕ) (zs : List ℕ) (h n : ℕ)
    → h ≡ first_or (ys ++ (p ∷ zs)) 0
    → n ≡ first_or zs 0
    → has p ys ≡ false
    → (if p == h then n else h) ≡ first_or (ys ++ zs) 0
new_head [] p zs h n eh en out = ground arith
new_head (y ∷ ys) p zs h n eh en out =
    let other : (p == y) ≡ false = ground arith in rw (eh, other) refl

new_tail :
    (ys : List ℕ) (p : ℕ) (zs : List ℕ) (t n : ℕ)
    → t ≡ last_or (ys ++ (p ∷ zs)) 0
    → n ≡ last_or ys 0
    → has p zs ≡ false
    → (if p == t then n else t) ≡ last_or (ys ++ zs) 0
new_tail ys p [] t n et en out =
    ground (arith, last_or-append ys (p ∷ []) 0, last_or-append ys [] 0)
new_tail ys p (z ∷ zs) t n et en out =
    let e : t ≡ last_or zs z = et ∙ last_or-append ys (p ∷ z ∷ zs) 0 in
    rw (e, has-apart (last_or zs z) p (z ∷ zs) (has-last z zs) out, last_or-append ys (z ∷ zs) 0)
      refl

-- Deleting a node takes it out of the list, from any place.
pub ll_delete_node-IsList :
    (s : Info) (ys : List ℕ) (p : ℕ) (zs : List ℕ)
    → IsList s (ys ++ (p ∷ zs))
    → IsList (ll_delete_node p s) (ys ++ zs)
unfolding ll_delete_node
ll_delete_node-IsList s ys p zs v =
    let u = unlink-Unlinked s.memory ys p zs v.links v.distinct in
    let parts = Links-split s.memory 0 ys (p ∷ zs) 0 v.links in
    let apart = Distinct-middle ys p zs v.distinct in
    record {
      links = u.links;
      head_first =
          new_head ys p zs s.head _ v.head_first (ap (λ (n : Node). n.next) u.self ∙ parts.1.2)
            apart.0;
      tail_last =
          new_tail ys p zs s.tail _ v.tail_last (ap (λ (n : Node). n.prev) u.self ∙ parts.1.1)
            apart.1;
      distinct = apart.2;
    }

-- A new node, at an address that no node of the list has, comes behind the others.
pub ll_push_back-IsList :
    (s : Info) (xs : List ℕ) (n : ℕ)
    → IsList s xs
    → n ≢ 0
    → has n xs ≡ false
    → ((ll_push_back n s).0 ≡ n) × IsList (ll_push_back n s).1 (xs ++ (n ∷ []))
unfolding ll_push_back
ll_push_back-IsList s [] n v some_node out =
    rw (eq_false n 0 some_node, v.tail_last)
      (
        refl,
        record {
          links = (some_node, ground arith, ground arith, tt);
          head_first = refl;
          tail_last = refl;
          distinct = (refl, tt);
        },
      )
ll_push_back-IsList s (x ∷ xs) n v some_node out =
    let some_tail = eq_false (last_or xs x) 0 (last-ne_zero s.memory 0 x xs 0 v.links) in
    let linked = relink_next s.memory 0 x xs 0 n v.links v.distinct in
    rw (eq_false n 0 some_node, v.tail_last, some_tail)
      (
        refl,
        record {
          links =
              Links-append _ 0 (x ∷ xs) (n ∷ []) 0 (Links-write _ 0 (x ∷ xs) n n _ out linked)
                (some_node, ground arith, ground arith, tt);
          head_first = v.head_first;
          tail_last = sym (last_or-append xs (n ∷ []) x);
          distinct = Distinct-snoc (x ∷ xs) n v.distinct out;
        },
      )
