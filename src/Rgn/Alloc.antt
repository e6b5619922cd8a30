-- ===== src/Rgn/Alloc.antt =====
-- st_rgn_alloc_basic of gluKe/rgn.c: it moves pages from the free table to the reserved one.
use glu_ke.Base.{
  ℕ, ◌+◌, ◌-◌, ◌*◌, ◌/◌, ◌≤◌, ◌<◌, ◌≡◌, ◌≢◌, ◌⊎◌, inl, inr, none, some, List, arith, leb, length,
  set, All, length-set, get_or-set_ne, get_or-set_self, All-set, All-get_or, Bool-cases,
  Option-cases,
}
use native.Mathlib.Decide.{ℕ_discrete}
use glu_ke.Base.Find.{find_index, find_index-lt, find_index-holds, find_index-first}
use glu_ke.Base.Int.{ℤ, pos_part}
use glu_ke.Rgn.{
  Allocation, Rgn, page_size, max_nof_als, unused, at, word, is_empty, count_pages, to_page_size,
  reserve, alloc_basic, alloc_found,
}
use glu_ke.Rgn.Pages.{
  covers, held, covers-le-held, covers_first, covers-zero, covers-split, held-set, covers_iff_in,
}
use glu_ke.Rgn.Invariant.{InRange, FindsUsed, IsSound}

-- The first page of a used entry is held.
pub used-held :
    (t : List Allocation) (k : ℕ)
    → k < length t
    → (at t k).nof_pages ≢ 0
    → 1 ≤ held t ((at t k).base / page_size)
used-held t k h ne = omega (
  arith,
  covers-le-held t k ((at t k).base / page_size) h,
  covers_first (at t k).base (at t k).nof_pages (omega arith),
)

module _ {ram : ℕ} {s : Rgn} (v : IsSound ram s) where
  -- No page is free and reserved at once.
  pub not_both : (p : ℕ) → 1 ≤ held s.free_als p → 1 ≤ held s.reserved_als p → ⊥
  not_both p f r = ground (arith, v.partition p)

  -- Moving pages out of the free table into the first unused reserved entry is sound.
  module _ (free' : List Allocation) (j : ℕ) (a : Allocation) (slot : j < length s.reserved_als)
      (empty : (at s.reserved_als j).nof_pages ≡ 0)
      (first : (i : ℕ) → i < j → (at s.reserved_als i).nof_pages ≢ 0) (used : a.nof_pages ≢ 0)
      (moved : (p : ℕ) → held free' p + covers a.base a.nof_pages p ≡ held s.free_als p) where
    fresh_base :
        (k : ℕ)
        → k < length s.reserved_als
        → (at s.reserved_als k).nof_pages ≢ 0
        → (at s.reserved_als k).base ≢ a.base
    fresh_base k h ne e =
        not_both (a.base / page_size)
          (omega (arith, moved (a.base / page_size), covers_first a.base a.nof_pages (omega arith)))
          (rw (← e) (used-held s.reserved_als k h ne))

    move-FindsUsed : FindsUsed (set s.reserved_als j a)
    move-FindsUsed i k lt len ne same =
        let len' : k < length s.reserved_als = omega (arith, length-set s.reserved_als j a) in
        elim (ℕ_discrete k j) [
          | yes kj ↦
              let ij : j ≢ i = omega arith in
              fresh_base i (omega arith) (first i (omega arith)) (
                ground (
                  arith,
                  get_or-set_ne s.reserved_als j i a unused ij,
                  get_or-set_self s.reserved_als j a unused slot,
                ))
          | no kj ↦
              let jk : j ≢ k = λ e. kj (omega arith) in
              let old = get_or-set_ne s.reserved_als j k a unused jk in
              let ne' : (at s.reserved_als k).nof_pages ≢ 0 = rw (← old) ne in
              elim (ℕ_discrete i j) [
                | yes ij ↦
                    fresh_base k len' ne'
                      (ground (arith, old, get_or-set_self s.reserved_als j a unused slot))
                | no ij ↦ v.finds_used i k lt len' ne' (
                    ground (
                      arith,
                      old,
                      get_or-set_ne s.reserved_als j i a unused (λ e. ij (omega arith)),
                    ))
              ]
        ]

    pub move-IsSound :
        length free' ≡ max_nof_als
        → All InRange free'
        → InRange a
        → IsSound ram (record { free_als = free'; reserved_als = set s.reserved_als j a })
    move-IsSound len fr ar = record {
      free_len = len;
      reserved_len = omega (arith, length-set s.reserved_als j a, v.reserved_len);
      free_range = fr;
      reserved_range = All-set InRange s.reserved_als j a v.reserved_range ar;
      partition = λ p.
          let c : covers (at s.reserved_als j).base (at s.reserved_als j).nof_pages p ≡ 0 =
            rw empty (covers-zero _ p) in
          ground (arith, v.partition p, moved p, held-set s.reserved_als j p a slot, c);
      finds_used = move-FindsUsed;
    }

-- `s'` is `s` with the region of `n` pages from `base` on moved from the free table to the reserved
-- one, where it is an entry of task `task_id`. All its pages were free, and once.
pub record Taken (base n : ℕ) (task_id : ℤ) (s s' : Rgn) : Type 0 where
  pub was_free : (p : ℕ) → base / page_size ≤ p → p < base / page_size + n → held s.free_als p ≡ 1
  pub left_free : (p : ℕ) → held s'.free_als p + covers base n p ≡ held s.free_als p
  pub reserved : (p : ℕ) → held s'.reserved_als p ≡ held s.reserved_als p + covers base n p
  pub slot : ℕ
  pub in_slot : at s'.reserved_als slot ≡ record { base = base; nof_pages = n; task_id = task_id }
  pub slot_in : slot < length s'.reserved_als

abbrev pub IsUnusedSlot : List Allocation → ℕ → Type 0
IsUnusedSlot t j =
    (j < length t) × ((at t j).nof_pages ≡ 0) × ((i : ℕ) → i < j → (at t i).nof_pages ≢ 0)

pub slot_found : (t : List Allocation) (j : ℕ) → find_index is_empty t ≡ some j → IsUnusedSlot t j
slot_found t j e = (
  find_index-lt is_empty t j e,
  ground (arith, find_index-holds is_empty t unused j e),
  λ i h. ground (arith, find_index-first is_empty t unused j i e h),
)

pub count_pages_pos : (x : ℕ) → x ≢ 0 → count_pages x ≢ 0
unfolding count_pages to_page_size
count_pages_pos x h = ground arith

module _ {ram : ℕ} {s : Rgn} (v : IsSound ram s) where
  pub moved-Taken :
      (free' : List Allocation) (j : ℕ) (a : Allocation)
      → IsUnusedSlot s.reserved_als j
      → ((p : ℕ) → held free' p + covers a.base a.nof_pages p ≡ held s.free_als p)
      → Taken a.base a.nof_pages a.task_id s
          (record { free_als = free'; reserved_als = set s.reserved_als j a })
  moved-Taken free' j a un moved = record {
    was_free =
        λ p lo hi. ground (arith, v.partition p, moved p, covers_iff_in a.base a.nof_pages p lo hi);
    left_free = moved;
    reserved = λ p.
        let c : covers (at s.reserved_als j).base (at s.reserved_als j).nof_pages p ≡ 0 =
          rw (un.1) (covers-zero _ p) in
        omega (arith, held-set s.reserved_als j p a un.0, c);
    slot = j;
    in_slot = get_or-set_self s.reserved_als j a unused un.0;
    slot_in = omega (arith, length-set s.reserved_als j a, un.0);
  }

  module _ (n : ℕ) (task_id : ℤ) (i j : ℕ) (some_pages : n ≢ 0) (i_in : i < length s.free_als)
      (fits : n ≤ (at s.free_als i).nof_pages) (un : IsUnusedSlot s.reserved_als j) where
    abbrev left : Allocation
    left = record (at s.free_als i) {
      base = word ((at s.free_als i).base + n * page_size);
      nof_pages = (at s.free_als i).nof_pages - n;
    }

    abbrev taken : Allocation
    taken = record { base = (at s.free_als i).base; nof_pages = n; task_id = task_id }

    range : InRange (at s.free_als i)
    range = All-get_or InRange s.free_als i unused v.free_range i_in

    left-moved :
        (p : ℕ)
        → held (set s.free_als i left) p + covers taken.base taken.nof_pages p ≡ held s.free_als p
    left-moved p =
        let whole : n + ((at s.free_als i).nof_pages - n) ≡ (at s.free_als i).nof_pages =
          omega arith in
        let split =
          covers-split (at s.free_als i).base n ((at s.free_als i).nof_pages - n) p range.aligned
            (omega (arith, range.below)) in
        omega (arith, held-set s.free_als i p left i_in, rw whole at split)

    first_fit-IsSound : IsSound ram (reserve i j left taken s)
    unfolding reserve
    first_fit-IsSound =
        move-IsSound v (set s.free_als i left) j taken un.0 un.1 un.2 some_pages left-moved
          (omega (arith, length-set s.free_als i left, v.free_len))
          (All-set InRange s.free_als i left v.free_range
            (omega (arith, range.aligned, range.below)))
          (omega (arith, range.aligned, range.below))

    first_fit-Taken : Taken (at s.free_als i).base n task_id s (reserve i j left taken s)
    unfolding reserve
    first_fit-Taken = moved-Taken (set s.free_als i left) j taken un left-moved

  -- What an allocation of `n` pages returns: a region with its new owner, or no change, when no
  -- free region is large enough or the reserved table is full.
  pub data Outcome (n : ℕ) (task_id : ℤ) : ℕ × Rgn → Type 0 where
    got :
        (base : ℕ) (s' : Rgn)
        → Taken base n task_id s s'
        → IsSound ram s'
        → Outcome n task_id (base, s')
    too_large : find_index (λ a. leb n a.nof_pages) s.free_als ≡ none → Outcome n task_id (0, s)
    table_full : find_index is_empty s.reserved_als ≡ none → Outcome n task_id (0, s)

  alloc_found-Outcome :
      (n : ℕ) (task_id : ℤ) (i : ℕ)
      → n ≢ 0
      → find_index (λ a. leb n a.nof_pages) s.free_als ≡ some i
      → Outcome n task_id (alloc_found n task_id s i)
  unfolding alloc_found
  alloc_found-Outcome n task_id i ne e =
      let fits = find_index-holds (λ a. leb n a.nof_pages) s.free_als unused i e in
      let i_in = find_index-lt (λ a. leb n a.nof_pages) s.free_als i e in
      elim (Option-cases (find_index is_empty s.reserved_als)) [
        | inl full ↦ rw (full, alloc_found) (table_full full)
        | inr (j, found) ↦
            let un = slot_found s.reserved_als j found in
            rw (found, alloc_found)
              (got (at s.free_als i).base _
                (first_fit-Taken n task_id i j ne i_in (ground arith) un)
                (first_fit-IsSound n task_id i j ne i_in (ground arith) un))
      ]

  -- In a sound allocator a request for no bytes changes nothing, and any other gets free pages for
  -- its task or changes nothing; the allocator stays sound.
  pub alloc_basic-Outcome :
      (nof_bytes task_id : ℤ)
      → ((pos_part nof_bytes ≡ 0) × (alloc_basic nof_bytes task_id s ≡ (0, s)))
        ⊎ Outcome (count_pages (pos_part nof_bytes)) task_id (alloc_basic nof_bytes task_id s)
  unfolding alloc_basic
  alloc_basic-Outcome nof_bytes task_id =
      let n = count_pages (pos_part nof_bytes) in
      elim (Bool-cases (leb (pos_part nof_bytes) 0)) [
        | inl zero_bytes ↦ inl (ground arith, rw zero_bytes)
        | inr some_bytes ↦ rw some_bytes (
            inr (elim (Option-cases (find_index (λ a. leb n a.nof_pages) s.free_als)) [
              | inl none_fits ↦ rw none_fits (too_large none_fits)
              | inr (i, e) ↦ rw e (
                  alloc_found-Outcome n task_id i
                    (count_pages_pos (pos_part nof_bytes) (ground arith)) e)
            ]))
      ]
