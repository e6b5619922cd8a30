-- ===== src/Handle/Ids.antt =====
-- The ids of gluKe/handle.c: a new handle's id is no other handle's.
use glu_ke.Base.{
  ℕ, ◌+◌, ◌-◌, ◌^◌, ◌≤◌, ◌<◌, ◌≡◌, refl, true, false, some, List, [], ◌∷◌, ◌++◌, arith, ltb,
  if◌then◌else◌, length, get_or, All,
}
use glu_ke.Base.Find.{find_index}
use glu_ke.Base.Int.{ℤ, pos, negsuc, pos_part, eq_ℤ}
use glu_ke.Handle.{
  Handle, Handles, handle_at, max_id, new_handle_id, int_succ, handle_open, handle_by_id, no_handle,
}

-- All ids are positive and at most `m`.
abbrev pub IdsBelow : ℕ → List Handle → Type 0
IdsBelow m = All (λ h. (i : ℕ) × (h.id ≡ pos i) × (0 < i) × (i ≤ m))

-- No two handles have one id.
abbrev pub DistinctIds : List Handle → Type 0
DistinctIds [] = Unit {0}
DistinctIds (h ∷ hs) = All (λ g. eq_ℤ g.id h.id ≡ false) hs × DistinctIds hs

max_id-ge : (hs : List Handle) (m : ℕ) → m ≤ max_id hs m
unfolding max_id
max_id-ge [] m = omega arith
max_id-ge (h ∷ hs) m =
    ground (arith, max_id-ge hs (if ltb m (pos_part h.id) then pos_part h.id else m))

pub max_id-bound :
    (hs rest : List Handle) (m : ℕ) → All (λ h. pos_part h.id ≤ max_id (hs ++ rest) m) hs
unfolding max_id
max_id-bound [] rest m = tt
max_id-bound (h ∷ hs) rest m =
    let m' = if ltb m (pos_part h.id) then pos_part h.id else m in
    let le : pos_part h.id ≤ m' = ground arith in
    (omega (arith, le, max_id-ge (hs ++ rest) m'), max_id-bound hs rest m')

-- An id above the ids of a list is none of them.
pub ids_above :
    (hs : List Handle) (m : ℕ)
    → All (λ h. pos_part h.id ≤ m) hs
    → All (λ h. eq_ℤ h.id (pos (m + 1)) ≡ false) hs
ids_above [] m a = tt
ids_above (h ∷ hs) m a = (ground (arith, a.0), ids_above hs m a.1)

DistinctIds-append :
    (hs : List Handle) (h : Handle)
    → DistinctIds hs
    → All (λ g. eq_ℤ g.id h.id ≡ false) hs
    → DistinctIds (hs ++ (h ∷ []))
DistinctIds-append [] h d a = (tt, tt)
DistinctIds-append (g ∷ hs) h d a =
    (All-snoc hs d.0 (eq_ℤ-sym g.id h.id a.0), DistinctIds-append hs h d.1 a.1)
  where
    eq_ℤ-sym : (a b : ℤ) → eq_ℤ a b ≡ false → eq_ℤ b a ≡ false
    eq_ℤ-sym (pos a) (pos b) e = ground arith
    eq_ℤ-sym (pos a) (negsuc b) e = refl
    eq_ℤ-sym (negsuc a) (pos b) e = refl
    eq_ℤ-sym (negsuc a) (negsuc b) e = ground arith

    All-snoc :
        (xs : List Handle)
        → All (λ k. eq_ℤ k.id g.id ≡ false) xs
        → eq_ℤ h.id g.id ≡ false
        → All (λ k. eq_ℤ k.id g.id ≡ false) (xs ++ (h ∷ []))
    All-snoc [] b e = (e, tt)
    All-snoc (x ∷ xs) b e = (b.0, All-snoc xs b.1 e)

pub find_last :
    (hs : List Handle) (h : Handle) (hid : ℤ)
    → All (λ g. eq_ℤ g.id hid ≡ false) hs
    → eq_ℤ h.id hid ≡ true
    → handle_by_id hid (hs ++ (h ∷ [])) ≡ some (length hs)
unfolding handle_by_id find_index
find_last [] h hid a e = rw e refl
find_last (g ∷ hs) h hid a e = rw (a.0) (rw (find_last hs h hid a.1 e) refl)

pub get_last : (hs : List Handle) (h : Handle) → get_or (hs ++ (h ∷ [])) (length hs) no_handle ≡ h
get_last [] h = refl
get_last (g ∷ hs) h = get_last hs h

-- With memory for it `handle_open` appends one handle, whose id is positive and no other handle's,
-- and which belongs to the current task; the lookup by that id finds it. The new id must not leave
-- the range of an `int`.
pub handle_open-fresh :
    (junk : Handle) (cur : ℤ) (s : Handles)
    → DistinctIds s.handles
    → max_id (s.handles ++ (junk ∷ [])) 0 < 2 ^ 31 - 1
    → let (at_index, s') = handle_open (some junk) cur s in
      let h = handle_at s' (length s.handles) in
      (at_index ≡ some (length s.handles))
      × DistinctIds s'.handles
      × (s'.handles ≡ s.handles ++ (h ∷ []))
      × (0 < pos_part h.id)
      × (h.task_id ≡ cur)
      × (handle_by_id h.id s'.handles ≡ some (length s.handles))
unfolding handle_open new_handle_id
handle_open-fresh junk cur s d small =
    let m = max_id (s.handles ++ (junk ∷ [])) 0 in
    let fits : int_succ m ≡ pos (m + 1) = ground arith in
    let h : Handle = record junk { id = pos (m + 1); task_id = cur } in
    let apart = ids_above s.handles m (max_id-bound s.handles (junk ∷ []) 0) in
    let same : eq_ℤ (pos (m + 1)) (pos (m + 1)) ≡ true = ground arith in
    rw (fits, get_last s.handles h)
      (
        refl,
        DistinctIds-append s.handles h d apart,
        refl,
        omega arith,
        refl,
        find_last s.handles h (pos (m + 1)) apart same,
      )
