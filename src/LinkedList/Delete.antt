-- ===== src/LinkedList/Delete.antt =====
-- The deletions of mylib/linked_list.c that first walk to the node.
use mathlib.Core.List.{append_assoc, append-nil}
use glu_ke.Base.{
  ℕ, zero, suc, ◌<◌, ◌≡◌, refl, ap, ◌∙◌, inl, inr, Bool, false, some, List, [], ◌∷◌, ◌++◌, arith,
  ◌==◌, ==_iff, if◌then◌else◌, length, length-append, Bool-cases,
}
use glu_ke.LinkedList.{
  Info, ll_first, find_and_delete, ll_delete_node, ll_delete, delete_round, delete_p, ll_delete_p,
  ll_pop_back,
}
use glu_ke.LinkedList.Links.{first_or, has, IsList, last_or-append, Links-split, Distinct-middle}
use glu_ke.LinkedList.Change.{ll_delete_node-IsList}

-- A list without the first node that is `p`.
pub remove : ℕ → List ℕ → List ℕ
remove p [] = []
remove p (x ∷ xs) = let rest = x ∷ remove p xs in if x == p then xs else rest

remove-middle :
    (ys : List ℕ) (p : ℕ) (zs : List ℕ) → has p ys ≡ false → remove p (ys ++ (p ∷ zs)) ≡ ys ++ zs
unfolding remove
remove-middle [] p zs out = ground arith
remove-middle (y ∷ ys) p zs out = ground (arith, remove-middle ys p zs)

-- The node in front of `zs` joins the ones that were walked over.
moved :
    (ys : List ℕ) (x : ℕ) (zs : List ℕ) {s : Info}
    → IsList s (ys ++ (x ∷ zs))
    → IsList s ((ys ++ (x ∷ [])) ++ zs)
moved ys x zs v = rw (append_assoc ys (x ∷ []) zs) v

moved_back :
    (ys : List ℕ) (x : ℕ) (zs : List ℕ) {s : Info}
    → IsList s ((ys ++ (x ∷ [])) ++ zs)
    → IsList s (ys ++ (x ∷ zs))
moved_back ys x zs v = rw (append_assoc ys (x ∷ []) zs) at v

find_and_delete-remove :
    (fuel p : ℕ) (ys zs : List ℕ) (s : Info)
    → IsList s (ys ++ zs)
    → length zs < fuel
    → (s' : Info) × (find_and_delete fuel p (first_or zs 0) s ≡ some s')
      × IsList s' (ys ++ remove p zs)
unfolding find_and_delete remove
find_and_delete-remove zero p ys zs s v h = absurd (omega arith)
find_and_delete-remove (suc fuel) p ys [] s v h = (s, refl, v)
find_and_delete-remove (suc fuel) p ys (x ∷ zs) s v h =
    let parts = Links-split s.memory 0 ys (x ∷ zs) 0 v.links in
    let some_node : (x == 0) ≡ false = ground (arith, parts.1.0) in
    elim (Bool-cases (x == p)) [
      | inl here ↦
          let e : x ≡ p = (==_iff x p).0 here in
          (
            ll_delete_node p s,
            rw (some_node, here) refl,
            rw here (rw e at (ll_delete_node-IsList s ys x zs v)),
          )
      | inr other ↦
          let ih =
            find_and_delete-remove fuel p (ys ++ (x ∷ [])) zs s (moved ys x zs v) (omega arith) in
          (
            ih.0,
            rw (some_node, other, parts.1.2) (ih.1),
            rw other (moved_back ys x (remove p zs) ih.2),
          )
    ]

-- With more fuel than the list has nodes, `ll_delete` takes the node out of the list, and leaves a
-- list without it as it was.
pub ll_delete-remove :
    (fuel p : ℕ) (xs : List ℕ) (s : Info)
    → IsList s xs
    → length xs < fuel
    → (s' : Info) × (ll_delete fuel p s ≡ some s') × IsList s' (remove p xs)
unfolding ll_delete
ll_delete-remove fuel p xs s v h =
    let r = find_and_delete-remove fuel p [] xs s v h in
    (r.0, ap (λ (h : ℕ). find_and_delete fuel p h s) v.head_first ∙ r.1, r.2)

module _ {S : Type 0} (f : ℕ → S → Bool × S) where
  -- The items that a callback does not pick, in order, and the callback's state behind them.
  unfoldable pub kept : List ℕ → S → List ℕ × S
  kept [] t = ([], t)
  kept (x ∷ xs) t =
      let (picked, t') = f x t in
      let (rest, t'') = kept xs t' in (if picked then rest else x ∷ rest, t'')

  delete_p-kept :
      (walk fuel : ℕ) (ys zs : List ℕ) (t : S) (s : Info)
      → IsList s (ys ++ zs)
      → length (ys ++ zs) < walk
      → length zs < fuel
      → (s' : Info) × (delete_p walk fuel f (first_or zs 0) t s ≡ some ((kept zs t).1, s'))
        × IsList s' (ys ++ (kept zs t).0)
  unfolding delete_p kept delete_round
  delete_p-kept walk zero ys zs t s v w h = absurd (omega arith)
  delete_p-kept walk (suc fuel) ys [] t s v w h = (s, refl, v)
  delete_p-kept walk (suc fuel) ys (x ∷ zs) t s v w h =
      let parts = Links-split s.memory 0 ys (x ∷ zs) 0 v.links in
      let some_item : (x == 0) ≡ false = ground (arith, parts.1.0) in
      elim (Bool-cases (f x t).0) [
        | inl picked ↦
            let d = ll_delete-remove walk x (ys ++ (x ∷ zs)) s v w in
            let out = (Distinct-middle ys x zs v.distinct).0 in
            let w' : length (ys ++ zs) < walk =
              omega (arith, length-append ys (x ∷ zs), length-append ys zs, w) in
            let ih =
              delete_p-kept walk fuel ys zs (f x t).1 d.0 (rw (remove-middle ys x zs out) at (d.2))
                w' (omega arith) in
            (ih.0, rw (some_item, picked, d.1, parts.1.2) (ih.1), rw picked (ih.2))
        | inr stays ↦
            let w' : length ((ys ++ (x ∷ [])) ++ zs) < walk = rw (append_assoc ys (x ∷ []) zs) w in
            let ih =
              delete_p-kept walk fuel (ys ++ (x ∷ [])) zs (f x t).1 s (moved ys x zs v) w'
                (omega arith) in
            (
              ih.0,
              rw (some_item, stays, parts.1.2) (ih.1),
              rw stays (moved_back ys x (kept zs (f x t).1).0 ih.2),
            )
      ]

  -- With more fuel than the list has nodes, `ll_delete_p` asks the callback about every item in
  -- order and takes exactly the items out of the list that it picks.
  pub ll_delete_p-kept :
      (fuel : ℕ) (xs : List ℕ) (t : S) (s : Info)
      → IsList s xs
      → length xs < fuel
      → (s' : Info) × (ll_delete_p fuel f t s ≡ some ((kept xs t).1, s')) × IsList s' (kept xs t).0
  unfolding ll_delete_p ll_first
  ll_delete_p-kept fuel xs t s v h =
      let r = delete_p-kept fuel fuel [] xs t s v h h in
      (r.0, ap (λ (a : ℕ). delete_p fuel fuel f a t s) v.head_first ∙ r.1, r.2)

-- `ll_pop_back` takes the last node out of a list that has one.
pub ll_pop_back-IsList :
    (xs : List ℕ) (p : ℕ) (s : Info)
    → IsList s (xs ++ (p ∷ []))
    → (s' : Info) × (ll_pop_back s ≡ some s') × IsList s' xs
unfolding ll_pop_back
ll_pop_back-IsList xs p s v =
    let e : s.tail ≡ p = v.tail_last ∙ last_or-append xs (p ∷ []) 0 in
    let parts = Links-split s.memory 0 xs (p ∷ []) 0 v.links in
    let some_node : (p == 0) ≡ false = ground (arith, parts.1.0) in
    (
      ll_delete_node p s,
      rw (e, some_node) refl,
      rw (append-nil xs) at (ll_delete_node-IsList s xs p [] v),
    )
