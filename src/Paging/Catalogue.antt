-- ===== src/Paging/Catalogue.antt =====
-- The pages that init_paging (gluKe/sys_utils.c) gets for its tables.
use glu_ke.Base.{ℕ, ◌+◌, ◌/◌, ◌%◌, ◌^◌, ◌≤◌, ◌≡◌, refl, ◌⊎◌, inl, inr, arith, All-get_or}
use glu_ke.Base.Int.{ℤ, pos}
use glu_ke.Rgn.{Rgn, rgn_alloc, alloc_basic, count_pages, to_page_size, unused}
use glu_ke.Rgn.Pages.{held, covers_iff_in}
use glu_ke.Rgn.Invariant.{IsSound, InRange}
use glu_ke.Rgn.Alloc.{Outcome, Taken, alloc_basic-Outcome, got, too_large, table_full}

-- Page `p` is in the table of reserved regions.
abbrev pub IsReserved : Rgn → ℕ → Type 0
IsReserved s p = 1 ≤ held s.reserved_als p

-- A page for a table, that nobody had before.
pub record NewPage (ram : ℕ) (s : Rgn) (base : ℕ) (s' : Rgn) : Type 0 where
  pub aligned : base % 0x1000 ≡ 0
  pub below : base + 0x1000 ≤ 2 ^ 31
  pub was_free : held s.reserved_als (base / 0x1000) ≡ 0
  pub now_reserved : IsReserved s' (base / 0x1000)
  pub kept : (p : ℕ) → held s.reserved_als p ≤ held s'.reserved_als p
  pub sound : IsSound ram s'

Taken-NewPage :
    (ram base : ℕ) (cur : ℤ) (s s' : Rgn)
    → IsSound ram s
    → Taken base 1 cur s s'
    → IsSound ram s'
    → NewPage ram s base s'
Taken-NewPage ram base cur s s' v t v' =
    let range = All-get_or InRange s'.reserved_als t.slot unused v'.reserved_range t.slot_in in
    let range' : InRange (record { base = base; nof_pages = 1; task_id = cur }) =
      rw (t.in_slot) at range in
    let p = base / 0x1000 in
    let free = t.was_free p (omega arith) (omega arith) in
    let one_of = v.partition p in
    let more = t.reserved p in
    let covered = covers_iff_in base 1 p (omega arith) (omega arith) in
    record {
      aligned = range'.aligned;
      below = range'.below;
      was_free = ground (arith, free, one_of);
      now_reserved = omega (arith, more, covered);
      kept = λ q. omega (arith, t.reserved q);
      sound = v';
    }

pub rgn_alloc-NewPage :
    (ram : ℕ) (cur : ℤ) (s : Rgn)
    → IsSound ram s
    → let out = rgn_alloc cur (pos 0x1000) s in (out.0 ≡ 0) ⊎ NewPage ram s out.0 out.1
unfolding rgn_alloc count_pages to_page_size
rgn_alloc-NewPage ram cur s v = elim (alloc_basic-Outcome v (pos 0x1000) cur) [
  | inl no_bytes ↦ absurd (omega (arith, no_bytes.0))
  | inr out ↦ of_outcome (alloc_basic (pos 0x1000) cur s) out
]
  where
    of_outcome : (out : ℕ × Rgn) → Outcome v 1 cur out → (out.0 ≡ 0) ⊎ NewPage ram s out.0 out.1
    of_outcome _ (got base s' t v') = inr (Taken-NewPage ram base cur s s' v t v')
    of_outcome _ (too_large e) = inl refl
    of_outcome _ (table_full e) = inl refl
