-- ===== src/Boot/Reserved.antt =====
-- The memory that is reserved behind alloc_memory_not_in_use (gluKe/entry32.c).
use glu_ke.Base.{
  ℕ, ◌+◌, ◌-◌, ◌/◌, ◌≤◌, ◌<◌, ◌≡◌, ◌≢◌, refl, ◌⊎◌, inl, inr, List, [], ◌∷◌, arith, ◌==◌, Bool-cases,
  All,
}
use glu_ke.Base.Int.{ℤ, pos, ok_code, fail_code}
use glu_ke.Rgn.{Rgn, rgn_alloc_base, count_pages, page_size}
use glu_ke.Rgn.Pages.{held, covers_iff_in}
use glu_ke.Rgn.Invariant.{IsSound}
use glu_ke.Rgn.AllocBase.{
  BaseOutcome, rgn_alloc_base-BaseOutcome, got, outside, too_short, free_full, table_full,
}
use glu_ke.Boot.{Region, alloc_regions, alloc_memory_not_in_use}

-- All pages of a region are reserved.
abbrev pub IsHeld : Rgn → Region → Type 0
IsHeld s r =
    (p : ℕ)
    → r.base / page_size ≤ p
    → p < r.base / page_size + count_pages r.bytes
    → 1 ≤ held s.reserved_als p

-- What every request at an address keeps.
pub record Kept (ram : ℕ) (s s' : Rgn) : Type 0 where
  pub sound : IsSound ram s'
  pub grows : (p : ℕ) → held s.reserved_als p ≤ held s'.reserved_als p

pub Kept-trans : {ram : ℕ} {s s' s'' : Rgn} → Kept ram s s' → Kept ram s' s'' → Kept ram s s''
Kept-trans a b = record { sound = b.sound; grows = λ p. omega (arith, a.grows p, b.grows p) }

IsHeld-Kept : {ram : ℕ} {s s' : Rgn} (r : Region) → Kept ram s s' → IsHeld s r → IsHeld s' r
IsHeld-Kept r k h = λ p lo hi. omega (arith, h p lo hi, k.grows p)

request :
    (ram base bytes : ℕ) (s : Rgn)
    → IsSound ram s
    → let out = rgn_alloc_base base (pos bytes) s in
      Kept ram s out.1 × (out.0 ≢ 0 → IsHeld out.1 (record { base = base; bytes = bytes }))
request ram base bytes s v = elim (rgn_alloc_base-BaseOutcome v base (pos bytes)) [
  | inl bad ↦ rw (bad.1) (same, λ h. absurd (h refl))
  | inr out ↦ of_outcome (rgn_alloc_base base (pos bytes) s) out
]
  where
    same : Kept ram s s
    same = record { sound = v; grows = λ p. omega arith }

    of_outcome :
        (out : ℕ × Rgn)
        → BaseOutcome v base (count_pages bytes) out
        → Kept ram s out.1 × (out.0 ≢ 0 → IsHeld out.1 (record { base = base; bytes = bytes }))
    of_outcome _ (got task_id s' t v') = (
      record { sound = v'; grows = λ p. omega (arith, t.reserved p) },
      λ h p lo hi. omega (arith, t.reserved p, covers_iff_in base (count_pages bytes) p lo hi),
    )
    of_outcome _ (outside e) = (same, λ h. absurd (h refl))
    of_outcome _ (too_short i e l) = (same, λ h. absurd (h refl))
    of_outcome _ (free_full e) = (same, λ h. absurd (h refl))
    of_outcome _ (table_full e) = (same, λ h. absurd (h refl))

-- The allocator stays sound and gives nothing back; where all requests for `rs` succeed they have
-- reserved it all.
pub record Reserves (ram : ℕ) (rs : List Region) (s : Rgn) (out : ℤ × Rgn) : Type 0 where
  pub kept : Kept ram s out.1
  pub outcome : (out.0 ≡ fail_code) ⊎ ((out.0 ≡ ok_code) × All (IsHeld out.1) rs)

alloc_regions-Reserves :
    (ram : ℕ) (rs : List Region) (s : Rgn) → IsSound ram s → Reserves ram rs s (alloc_regions rs s)
unfolding alloc_regions
alloc_regions-Reserves ram [] s v = record {
  kept = record { sound = v; grows = λ p. omega arith };
  outcome = inr (refl, tt);
}
alloc_regions-Reserves ram (r ∷ rs) s v =
    let one = request ram r.base r.bytes s v in
    let s' = (rgn_alloc_base r.base (pos r.bytes) s).1 in
    let rest = alloc_regions-Reserves ram rs s' one.0.sound in
    elim (Bool-cases ((rgn_alloc_base r.base (pos r.bytes) s).0 == 0)) [
      | inl refused ↦ rw (alloc_regions, refused) (record { kept = one.0; outcome = inl refl })
      | inr taken ↦
          rw (alloc_regions, taken)
            (record {
              kept = Kept-trans one.0 rest.kept;
              outcome = elim rest.outcome [
                | inl fails ↦ inl fails
                | inr done ↦ inr (done.0, (IsHeld-Kept r rest.kept (one.1 (ground arith)), done.1))
              ];
            })
    ]

pub Alls-Kept :
    {ram : ℕ} {s s' : Rgn} (rs : List Region)
    → Kept ram s s'
    → All (IsHeld s) rs
    → All (IsHeld s') rs
Alls-Kept [] k h = tt
Alls-Kept (r ∷ rs) k h = (IsHeld-Kept r k h.0, Alls-Kept rs k h.1)

-- Behind a start that succeeds, all pages of the reserved regions, of the kernel's code and of its
-- stack are reserved, so that the allocator hands out none of them, and the allocator is sound, as it
-- also is where the start fails.
pub alloc_memory_not_in_use-Reserves :
    (ram : ℕ) (rs : List Region) (entry kernel_bytes stack : ℕ) (s : Rgn)
    → IsSound ram s
    → Reserves ram
        (record { base = entry; bytes = kernel_bytes }
          ∷ record { base = entry - stack; bytes = stack }
          ∷ rs)
        s
        (alloc_memory_not_in_use rs entry kernel_bytes stack s)
unfolding alloc_memory_not_in_use
alloc_memory_not_in_use-Reserves ram rs entry kernel_bytes stack s v =
    let loop = alloc_regions-Reserves ram rs s v in
    let s0 = (alloc_regions rs s).1 in
    let code = request ram entry kernel_bytes s0 loop.kept.sound in
    let s1 = (rgn_alloc_base entry (pos kernel_bytes) s0).1 in
    let stack_region = request ram (entry - stack) stack s1 code.0.sound in
    let s2 = (rgn_alloc_base (entry - stack) (pos stack) s1).1 in
    let page = request ram 0 1 s2 stack_region.0.sound in
    let to_stack = Kept-trans (Kept-trans loop.kept code.0) stack_region.0 in
    elim loop.outcome [
      | inl fails ↦
          rw (alloc_memory_not_in_use, fails) (record { kept = loop.kept; outcome = inl refl })
      | inr done ↦ elim (Bool-cases ((rgn_alloc_base entry (pos kernel_bytes) s0).0 == 0)) [
        | inl refused ↦
            rw (alloc_memory_not_in_use, done.0, refused)
              (record { kept = Kept-trans loop.kept code.0; outcome = inl refl })
        | inr got_code ↦
            elim (Bool-cases ((rgn_alloc_base (entry - stack) (pos stack) s1).0 == 0)) [
              | inl refused ↦
                  rw (alloc_memory_not_in_use, done.0, got_code, refused)
                    (record { kept = to_stack; outcome = inl refl })
              | inr got_stack ↦
                  rw (alloc_memory_not_in_use, done.0, got_code, got_stack)
                    (record {
                      kept = Kept-trans to_stack page.0;
                      outcome = inr (
                        refl,
                        (
                          IsHeld-Kept _ (Kept-trans stack_region.0 page.0) (code.1 (ground arith)),
                          (
                            IsHeld-Kept _ page.0 (stack_region.1 (ground arith)),
                            Alls-Kept rs (Kept-trans (Kept-trans code.0 stack_region.0) page.0)
                                done.1,
                          ),
                        ),
                      );
                    })
            ]
      ]
    ]
