-- ===== src/LinkedList/Walk.antt =====
-- The walks of mylib/linked_list.c that leave the list as it is.
use glu_ke.Base.{
  ℕ, zero, suc, ◌<◌, ◌≡◌, refl, ap, ◌∙◌, inl, inr, false, some, List, [], ◌∷◌, ◌++◌, arith, ◌==◌,
  if◌then◌else◌, length, Bool-cases,
}
use glu_ke.Base.Int.{ℤ}
use glu_ke.LinkedList.{Info, ll_first, ll_next, ll_next_loop, is_above, is_below, map_p, ll_map}
use glu_ke.LinkedList.Links.{first_or, Links, IsList, Links-split}

-- What a search with a callback finds in a list of items, with the callback's state; 0 is no item.
module _ {S : Type 0} (f : ℕ → S → ℤ × S) where
  unfoldable pub found : List ℕ → S → ℕ × S
  found [] t = (0, t)
  found (x ∷ xs) t =
      let (r, t') = f x t in
      let rest = found xs t' in if is_above r then (x, t') else if is_below r then (0, t') else rest

  map_p-found :
      (fuel : ℕ) (s : Info) (b : ℕ) (xs : List ℕ) (t : S)
      → Links s.memory b xs 0
      → length xs < fuel
      → map_p fuel f (first_or xs 0) t s ≡ some (found xs t)
  unfolding map_p found ll_next
  map_p-found zero s b xs t l h = absurd (omega arith)
  map_p-found (suc fuel) s b [] t l h = refl
  map_p-found (suc fuel) s b (x ∷ xs) t l h =
      let some_item : (x == 0) ≡ false = ground (arith, l.0) in
      let ih = map_p-found fuel s x xs (f x t).1 l.3 (omega arith) in
      rw (some_item, l.2, ih)
        (elim (Bool-cases (is_above (f x t).0)) [
          | inl a ↦ rw a refl
          | inr na ↦ elim (Bool-cases (is_below (f x t).0)) [
            | inl b ↦ rw (na, b) refl
            | inr nb ↦ rw (na, nb) refl
          ]
        ])

  -- With more fuel than the list has nodes, `ll_map` returns the first item that the callback takes,
  -- or 0 where it stops before or takes none, and the state that the callback has then.
  pub ll_map-found :
      (fuel : ℕ) (s : Info) (xs : List ℕ) (t : S)
      → IsList s xs
      → length xs < fuel
      → ll_map fuel f t s ≡ some (found xs t)
  unfolding ll_map ll_first
  ll_map-found fuel s xs t v h =
      ap (λ (h : ℕ). map_p fuel f h t s) v.head_first ∙ map_p-found fuel s 0 xs t v.links h

-- `ll_next_loop` goes to the item behind, and from the last one to the first.
pub ll_next_loop-round :
    (s : Info) (ys : List ℕ) (p : ℕ) (zs : List ℕ)
    → IsList s (ys ++ (p ∷ zs))
    → ll_next_loop s p ≡ first_or zs (first_or (ys ++ (p ∷ zs)) 0)
unfolding ll_next_loop ll_next ll_first
ll_next_loop-round s ys p [] v =
    let parts = Links-split s.memory 0 ys (p ∷ []) 0 v.links in rw (parts.1.2) refl ∙ v.head_first
ll_next_loop-round s ys p (z ∷ zs) v =
    let parts = Links-split s.memory 0 ys (p ∷ z ∷ zs) 0 v.links in
    let some_next : (z == 0) ≡ false = ground (arith, parts.1.3.0) in rw (parts.1.2, some_next) refl
