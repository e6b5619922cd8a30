-- ===== src/Rgn/Emptied.antt =====
-- A reserved entry that has lost its pages, and what st_free_index of gluKe/rgn.c keeps when the pages
-- go to the free table.
use glu_ke.Base.{
  ℕ, ◌+◌, ◌<◌, ◌≡◌, ◌≢◌, List, arith, length, set, All, length-set, get_or-set_ne, get_or-set_self,
  All-set, All-get_or, ap,
}
use native.Mathlib.Decide.{ℕ_discrete}
use glu_ke.Rgn.{Allocation, Rgn, max_nof_als, unused, at}
use glu_ke.Rgn.Pages.{covers, held, covers-zero, held-set}
use glu_ke.Rgn.Invariant.{InRange, FindsUsed, IsSound}

-- Entry `r` without its pages.
abbrev pub emptied : List Allocation → ℕ → List Allocation
emptied t r = set t r (record (at t r) { nof_pages = 0 })

-- `s'` is `s` after the pages of the reserved entry `r` have gone to the free table.
pub record Freed (r : ℕ) (s s' : Rgn) : Type 0 where
  pub now_free :
      (p : ℕ)
      → held s'.free_als p
        ≡ held s.free_als p + covers (at s.reserved_als r).base (at s.reserved_als r).nof_pages p
  pub entry : s'.reserved_als ≡ emptied s.reserved_als r

at-emptied-ne : (t : List Allocation) (r k : ℕ) → r ≢ k → at (emptied t r) k ≡ at t k
at-emptied-ne t r k ne = get_or-set_ne t r k _ unused ne

base-emptied :
    (t : List Allocation) (r k : ℕ) → r < length t → (at (emptied t r) k).base ≡ (at t k).base
base-emptied t r k h = elim (ℕ_discrete r k) [
  | yes e ↦ rw (← e) (
      ap (λ (a : Allocation). a.base)
        (get_or-set_self t r (record (at t r) { nof_pages = 0 }) unused h))
  | no ne ↦ ap (λ (a : Allocation). a.base) (at-emptied-ne t r k ne)
]

emptied-FindsUsed :
    (t : List Allocation) (r : ℕ) → r < length t → FindsUsed t → FindsUsed (emptied t r)
emptied-FindsUsed t r h f j k lt len ne same = elim (ℕ_discrete r k) [
  | yes e ↦ ne (
      rw (← e) (
        ap (λ (a : Allocation). a.nof_pages)
          (get_or-set_self t r (record (at t r) { nof_pages = 0 }) unused h)))
  | no d ↦
      f j k lt (omega (arith, length-set t r (record (at t r) { nof_pages = 0 })))
        (rw (← at-emptied-ne t r k d) ne) (rw (← base-emptied t r j h, ← base-emptied t r k h) same)
]

module _ {ram : ℕ} {s : Rgn} (v : IsSound ram s) (r : ℕ) (r_in : r < length s.reserved_als) where
  -- A free table with the pages of `r` added, beside the emptied entry, is sound.
  pub Freed-IsSound :
      (s' : Rgn)
      → Freed r s s'
      → length s'.free_als ≡ max_nof_als
      → All InRange s'.free_als
      → IsSound ram s'
  Freed-IsSound s' f len range = record {
    free_len = len;
    reserved_len = rw (f.entry) (
        omega (
          arith,
          length-set s.reserved_als r (record (at s.reserved_als r) { nof_pages = 0 }),
          v.reserved_len,
        ));
    free_range = range;
    reserved_range = rw (f.entry) (
        All-set InRange s.reserved_als r _ v.reserved_range (
          omega (
            arith,
            (All-get_or InRange s.reserved_als r unused v.reserved_range r_in).aligned,
            (All-get_or InRange s.reserved_als r unused v.reserved_range r_in).below,
          )));
    partition = λ p.
        let c = covers-zero (at s.reserved_als r).base p in
        let h = held-set s.reserved_als r p (record (at s.reserved_als r) { nof_pages = 0 }) r_in in
        rw (f.entry) (ground (arith, v.partition p, f.now_free p, h, c));
    finds_used = rw (f.entry) (emptied-FindsUsed s.reserved_als r r_in v.finds_used);
  }
