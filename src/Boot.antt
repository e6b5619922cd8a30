-- ===== src/Boot.antt =====
-- alloc_memory_not_in_use of gluKe/entry32.c, which takes the memory that is in use at the start out
-- of the hands of the allocator. The places and sizes of the kernel come from the build.
pub mod Ram
pub mod Reserved
pub mod Start
pub mod Keeps
pub mod Up
pub mod Finish
pub mod SameTasks
pub mod Running
pub mod Whole
pub mod FirstTick
mod Tests
mod TickTests
use glu_ke.Base.{ℕ, ◌-◌, Bool, List, [], ◌∷◌, ◌==◌, if◌then◌else◌}
use glu_ke.Base.Int.{ℤ, pos, negsuc, ok_code, fail_code}
use glu_ke.Rgn.{Rgn, rgn_alloc_base}

-- An element of reserved_regions; the one that ends the array is not in the list.
pub record Region : Type 0 where
  pub base : ℕ
  pub bytes : ℕ

-- The loop over the regions.
unfoldable pub alloc_regions : List Region → Rgn → ℤ × Rgn
alloc_regions [] s = (ok_code, s)
alloc_regions (r ∷ rs) s =
    let (base, s') = rgn_alloc_base r.base (pos r.bytes) s in
    let rest = alloc_regions rs s' in if base == 0 then (fail_code, s') else rest

-- The kernel's code is at `entry`, its stack of `stack` bytes in front of it. What the last request
-- returns is not looked at.
unfoldable pub alloc_memory_not_in_use : List Region → ℕ → ℕ → ℕ → Rgn → ℤ × Rgn
alloc_memory_not_in_use regions entry kernel_bytes stack s =
    let (code, s0) = alloc_regions regions s in
    let (code_base, s1) = rgn_alloc_base entry (pos kernel_bytes) s0 in
    let (stack_base, s2) = rgn_alloc_base (entry - stack) (pos stack) s1 in
    let (page, s3) = rgn_alloc_base 0 (pos 1) s2 in
    elim code [
      | negsuc n ↦ (fail_code, s0)
      | pos n ↦
          if code_base == 0
          then (fail_code, s1)
          else if stack_base == 0
          then (fail_code, s2)
          else (ok_code, s3)
    ]
