-- ===== src/Rgn/Run.antt =====
-- Histories of calls to the allocator of gluKe/rgn.c.
use glu_ke.Base.{ℕ, ◌≡◌, ◌≢◌, refl, inl, inr, List, [], ◌∷◌, none, Bool-cases, leb, arith, ap}
use glu_ke.Base.Find.{find_index}
use glu_ke.Base.Int.{ℤ, pos_part, ok_code}
use glu_ke.Rgn.{
  Allocation, Rgn, alloc_basic, rgn_alloc_t, rgn_alloc_base, rgn_free, rgn_free_task_memory,
  is_empty,
}
use glu_ke.Rgn.Pages.{held}
use glu_ke.Rgn.Invariant.{IsSound}
use glu_ke.Rgn.Alloc
use glu_ke.Rgn.Alloc.{Taken, alloc_basic-Outcome, count_pages_pos}
use glu_ke.Rgn.AllocBase
use glu_ke.Rgn.AllocBase.{rgn_alloc_base-BaseOutcome}
use glu_ke.Rgn.Free
use glu_ke.Rgn.Release.{rgn_free-Outcome, rgn_free-IsSound}
use glu_ke.Rgn.Task.{rgn_free_task_memory-Cleaned}

-- The calls of the rest of the kernel.
pub data Call : Type 0 where
  alloc : (nof_bytes task_id : ℤ) → Call
  alloc_base : (base : ℕ) (nof_bytes : ℤ) → Call
  free : (base : ℕ) → Call
  free_task : (task_id : ℤ) → Call

unfoldable pub step : Rgn → Call → Rgn
step s (alloc nof_bytes task_id) = (rgn_alloc_t nof_bytes task_id s).1
step s (alloc_base base nof_bytes) = (rgn_alloc_base base nof_bytes s).1
step s (free base) = (rgn_free base s).1
step s (free_task task_id) = (rgn_free_task_memory task_id s).1

unfoldable pub run : Rgn → List Call → Rgn
run s [] = s
run s (c ∷ cs) = run (step s c) cs

module _ {ram : ℕ} {s : Rgn} (v : IsSound ram s) where
  alloc_sound :
      {n : ℕ} {task_id : ℤ} {out : ℕ × Rgn} → Alloc.Outcome v n task_id out → IsSound ram out.1
  alloc_sound (Alloc.got base s' t w) = w
  alloc_sound (Alloc.too_large e) = v
  alloc_sound (Alloc.table_full e) = v

  base_sound : {base n : ℕ} {out : ℕ × Rgn} → AllocBase.BaseOutcome v base n out → IsSound ram out.1
  base_sound (AllocBase.got task_id s' t w) = w
  base_sound (AllocBase.outside e) = v
  base_sound (AllocBase.too_short i e h) = v
  base_sound (AllocBase.free_full e) = v
  base_sound (AllocBase.table_full e) = v

  pub alloc-IsSound : (nof_bytes task_id : ℤ) → IsSound ram (alloc_basic nof_bytes task_id s).1
  alloc-IsSound nof_bytes task_id = elim (alloc_basic-Outcome v nof_bytes task_id) [
    | inl (z, e) ↦ rw e v
    | inr o ↦ alloc_sound o
  ]

  pub alloc_base-IsSound :
      (base : ℕ) (nof_bytes : ℤ) → IsSound ram (rgn_alloc_base base nof_bytes s).1
  alloc_base-IsSound base nof_bytes = elim (rgn_alloc_base-BaseOutcome v base nof_bytes) [
    | inl (z, e) ↦ rw e v
    | inr o ↦ base_sound o
  ]

  round_trip :
      {n base : ℕ} {task_id : ℤ} {s' : Rgn}
      → Taken base n task_id s s'
      → IsSound ram s'
      → n ≢ 0
      → find_index is_empty s'.free_als ≢ none
      → ((rgn_free base s').0 ≡ ok_code)
        × ((p : ℕ) → held (rgn_free base s').1.free_als p ≡ held s.free_als p)
  round_trip {s'} t w ne room =
      let b = ap (λ (a : Allocation). a.base) t.in_slot in
      let m = ap (λ (a : Allocation). a.nof_pages) t.in_slot in
      rw (← b) (given_back (rgn_free-Outcome w t.slot t.slot_in (rw m ne)))
    where
      given_back :
          {out : ℤ × Rgn}
          → Free.Outcome w t.slot t.slot_in out
          → (out.0 ≡ ok_code) × ((p : ℕ) → held out.1.free_als p ≡ held s.free_als p)
      given_back (Free.freed s'' f x) =
          (refl, λ p. let g = f.now_free p in omega (arith, rw (t.in_slot) at g, t.left_free p))
      given_back (Free.no_entry x y) = absurd (room y)

  -- Freeing what was allocated gives the pages back: where an allocation returned an address and
  -- the free table has an unused entry, `rgn_free` at that address succeeds, and a page is free
  -- afterwards exactly as it was before the allocation.
  pub alloc_then_free :
      (nof_bytes task_id : ℤ)
      → (rgn_alloc_t nof_bytes task_id s).0 ≢ 0
      → find_index is_empty (rgn_alloc_t nof_bytes task_id s).1.free_als ≢ none
      → let (base, s') = rgn_alloc_t nof_bytes task_id s in
        ((rgn_free base s').0 ≡ ok_code)
        × ((p : ℕ) → held (rgn_free base s').1.free_als p ≡ held s.free_als p)
  unfolding rgn_alloc_t alloc_basic
  alloc_then_free nof_bytes task_id got room = elim (Bool-cases (leb (pos_part nof_bytes) 0)) [
    | inl z ↦ absurd (got (rw z))
    | inr nz ↦ elim (alloc_basic-Outcome v nof_bytes task_id) [
      | inl (z, e) ↦ absurd (got (ap (λ (r : ℕ × Rgn). r.0) e))
      | inr o ↦ after o got room (count_pages_pos (pos_part nof_bytes) (ground arith))
    ]
  ]
    where
      after :
          {n : ℕ} {out : ℕ × Rgn}
          → Alloc.Outcome v n task_id out
          → out.0 ≢ 0
          → find_index is_empty out.1.free_als ≢ none
          → n ≢ 0
          → ((rgn_free out.0 out.1).0 ≡ ok_code)
            × ((p : ℕ) → held (rgn_free out.0 out.1).1.free_als p ≡ held s.free_als p)
      after (Alloc.got base s' t w) ne r some_pages = round_trip t w some_pages r
      after (Alloc.too_large e) ne r some_pages = absurd (ne refl)
      after (Alloc.table_full e) ne r some_pages = absurd (ne refl)

  step-IsSound : (c : Call) → IsSound ram (step s c)
  unfolding step rgn_alloc_t
  step-IsSound (alloc nof_bytes task_id) = alloc-IsSound nof_bytes task_id
  step-IsSound (alloc_base base nof_bytes) = alloc_base-IsSound base nof_bytes
  step-IsSound (free base) = rgn_free-IsSound v base
  step-IsSound (free_task task_id) = (rgn_free_task_memory-Cleaned task_id s v).sound

-- Every history of allocations and frees keeps a sound allocator sound: each page of the memory
-- stays in exactly one free or reserved region.
pub run-IsSound : {ram : ℕ} {s : Rgn} (cs : List Call) → IsSound ram s → IsSound ram (run s cs)
unfolding run
run-IsSound [] v = v
run-IsSound {s} (c ∷ cs) v = run-IsSound {s = step s c} cs (step-IsSound v c)
