-- ===== src/Rgn/AllocBase.antt =====
-- st_rgn_alloc_base_basic of gluKe/rgn.c: the pages at a given address, which may lie inside a free
-- region, so that a front and a tail of it stay free.
use glu_ke.Base.{
  ℕ, ◌+◌, ◌-◌, ◌*◌, ◌/◌, ◌%◌, ◌^◌, ◌≤◌, ◌<◌, ◌≡◌, ◌≢◌, ◌⊎◌, inl, inr, true, false, none, some,
  arith, ltb, leb, length, set, length-set, not, ◌||◌, get_or-set_ne, All-set, All-get_or,
  Bool-cases, Option-cases, ◌==◌,
}
use glu_ke.Base.Find.{find_index, find_index-lt, find_index-holds}
use glu_ke.Base.Int.{ℤ, pos_part}
use glu_ke.Rgn.{
  Allocation, Rgn, page_size, unused, at, word, is_empty, count_pages, reserve, rgn_alloc_base,
  alloc_base_in, take_base, add_tail, region_with,
}
use glu_ke.Rgn.Pages.{covers, held, covers-zero, covers-split, held-set}
use glu_ke.Rgn.Invariant.{InRange, IsSound}
use glu_ke.Rgn.Alloc.{Taken, IsUnusedSlot, slot_found, move-IsSound, moved-Taken, count_pages_pos}

module _ {ram : ℕ} {s : Rgn} (v : IsSound ram s) (base n : ℕ) (some_pages : n ≢ 0)
    (aligned : base % page_size ≡ 0) (i : ℕ) (i_in : i < length s.free_als)
    (lo : (at s.free_als i).base ≤ base) (dif tail : ℕ)
    (dif_eq : base ≡ (at s.free_als i).base + dif * page_size)
    (sizes : (at s.free_als i).nof_pages ≡ dif + (n + tail)) (j : ℕ)
    (un : IsUnusedSlot s.reserved_als j) where
  range : InRange (at s.free_als i)
  range = All-get_or InRange s.free_als i unused v.free_range i_in

  abbrev front : Allocation
  front = record (at s.free_als i) { nof_pages = dif }

  abbrev taken : Allocation
  taken = record (at s.reserved_als j) { base = base; nof_pages = n }

  abbrev behind : ℕ
  behind = word (base + n * page_size)

  -- The region is its front, the pages taken and its tail.
  three_parts :
      (p : ℕ)
      → covers (at s.free_als i).base (at s.free_als i).nof_pages p
        ≡ covers (at s.free_als i).base dif p + (covers base n p + covers behind tail p)
  three_parts p =
      let first =
        covers-split (at s.free_als i).base dif (n + tail) p range.aligned
          (omega (arith, range.below)) in
      let second = covers-split base n tail p aligned (omega (arith, range.below)) in
      let start : ((at s.free_als i).base + dif * page_size) % 2 ^ 32 ≡ base =
        omega (arith, range.below) in
      rw (sizes, first, start, second)

  front_range : InRange front
  front_range = omega (arith, range.aligned, range.below)

  taken_range : InRange taken
  taken_range = omega (arith, range.below)

  exact-moved :
      tail ≡ 0 → (p : ℕ) → held (set s.free_als i front) p + covers base n p ≡ held s.free_als p
  exact-moved e p =
      let c : covers behind tail p ≡ 0 = rw e (covers-zero behind p) in
      omega (arith, held-set s.free_als i p front i_in, three_parts p, c)

  module _ (k : ℕ) (k_in : k < length s.free_als) (k_empty : (at s.free_als k).nof_pages ≡ 0)
      (used : (at s.free_als i).nof_pages ≢ 0) where
    i_ne_k : i ≢ k
    i_ne_k e = used (rw e k_empty)

    k_same : at (set s.free_als i front) k ≡ at s.free_als k
    k_same = get_or-set_ne s.free_als i k front unused i_ne_k

    abbrev rest : Allocation
    rest = record (at (set s.free_als i front) k) { base = behind; nof_pages = tail }

    split-moved :
        (p : ℕ) → held (set (set s.free_als i front) k rest) p + covers base n p ≡ held s.free_als p
    split-moved p =
        let c : covers (at (set s.free_als i front) k).base
              (at (set s.free_als i front) k).nof_pages p
            ≡ 0 =
          rw (k_same, k_empty) (covers-zero _ p) in
        omega (
          arith,
          held-set s.free_als i p front i_in,
          held-set (set s.free_als i front) k p rest (omega (arith, length-set s.free_als i front)),
          three_parts p,
          c,
        )

    split-IsSound : IsSound ram (add_tail k behind tail (take_base base n s i j dif))
    unfolding add_tail take_base reserve
    split-IsSound =
        move-IsSound v (set (set s.free_als i front) k rest) j taken un.0 un.1 un.2 some_pages
          split-moved
          (omega (
            arith,
            length-set (set s.free_als i front) k rest,
            length-set s.free_als i front,
            v.free_len,
          ))
          (All-set InRange (set s.free_als i front) k rest
            (All-set InRange s.free_als i front v.free_range front_range)
            (omega (arith, range.below)))
          taken_range

    split-Taken :
        Taken base n
          (at s.reserved_als j).task_id
          s
          (add_tail k behind tail (take_base base n s i j dif))
    unfolding add_tail take_base reserve
    split-Taken = moved-Taken v (set (set s.free_als i front) k rest) j taken un split-moved

  exact-IsSound : tail ≡ 0 → IsSound ram (take_base base n s i j dif)
  unfolding take_base reserve
  exact-IsSound e =
      move-IsSound v (set s.free_als i front) j taken un.0 un.1 un.2 some_pages (exact-moved e)
        (omega (arith, length-set s.free_als i front, v.free_len))
        (All-set InRange s.free_als i front v.free_range front_range) taken_range

  exact-Taken : tail ≡ 0 → Taken base n (at s.reserved_als j).task_id s (take_base base n s i j dif)
  unfolding take_base reserve
  exact-Taken e = moved-Taken v (set s.free_als i front) j taken un (exact-moved e)

module _ {ram : ℕ} {s : Rgn} (v : IsSound ram s) (base n : ℕ) where
  -- What a request for `n` pages at `base` returns.
  pub data BaseOutcome : ℕ × Rgn → Type 0 where
    got :
        (task_id : ℤ) (s' : Rgn)
        → Taken base n task_id s s'
        → IsSound ram s'
        → BaseOutcome (base, s')
    outside : find_index (region_with base) s.free_als ≡ none → BaseOutcome (0, s)
    too_short :
        (i : ℕ)
        → find_index (region_with base) s.free_als ≡ some i
        → (at s.free_als i).base + (at s.free_als i).nof_pages * page_size < base + n * page_size
        → BaseOutcome (0, s)
    free_full : find_index is_empty s.free_als ≡ none → BaseOutcome (0, s)
    table_full : find_index is_empty s.reserved_als ≡ none → BaseOutcome (0, s)

  module _ (some_pages : n ≢ 0) (aligned : base % page_size ≡ 0) (i : ℕ)
      (i_in : i < length s.free_als) (in_region : region_with base (at s.free_als i) ≡ true) where
    abbrev dif : ℕ
    dif = (base - (at s.free_als i).base) / page_size

    abbrev tail : ℕ
    tail = (at s.free_als i).nof_pages - dif - n

    region : InRange (at s.free_als i)
    region = All-get_or InRange s.free_als i unused v.free_range i_in

    used : (at s.free_als i).nof_pages ≢ 0
    used = ground arith

    lo : (at s.free_als i).base ≤ base
    lo = ground arith

    dif_eq : base ≡ (at s.free_als i).base + dif * page_size
    dif_eq = omega (arith, lo, region.aligned)

    long_enough :
        ltb (at s.free_als i).nof_pages (dif + n) ≡ false
        → (at s.free_als i).nof_pages ≡ dif + (n + tail)
    long_enough h = ground arith

    alloc_base_in-long :
        ltb (at s.free_als i).nof_pages (dif + n) ≡ false → BaseOutcome (alloc_base_in base n s i)
    unfolding alloc_base_in
    alloc_base_in-long fits = elim (Option-cases (find_index is_empty s.reserved_als)) [
      | inl full ↦ elim (Bool-cases (ltb 0 tail)) [
        | inl t ↦ elim (Option-cases (find_index is_empty s.free_als)) [
          | inl none_free ↦ rw (fits, t, none_free, alloc_base_in) (free_full none_free)
          | inr (k, e) ↦ rw (fits, t, e, full, alloc_base_in) (table_full full)
        ]
        | inr t ↦ rw (fits, t, full, alloc_base_in) (table_full full)
      ]
      | inr (j, found) ↦
          let un = slot_found s.reserved_als j found in
          elim (Bool-cases (ltb 0 tail)) [
            | inl t ↦ elim (Option-cases (find_index is_empty s.free_als)) [
              | inl none_free ↦ rw (fits, t, none_free, alloc_base_in) (free_full none_free)
              | inr (k, e) ↦
                  let slot = slot_found s.free_als k e in
                  rw (fits, t, e, found, alloc_base_in)
                    (got _ _
                      (split-Taken v base n some_pages aligned i i_in lo dif tail dif_eq
                        (long_enough fits) j un k slot.0 slot.1 used)
                      (split-IsSound v base n some_pages aligned i i_in lo dif tail dif_eq
                        (long_enough fits) j un k slot.0 slot.1 used))
            ]
            | inr t ↦
                rw (fits, t, found, alloc_base_in)
                  (got _ _
                    (exact-Taken v base n some_pages aligned i i_in lo dif tail dif_eq
                      (long_enough fits) j un (ground arith))
                    (exact-IsSound v base n some_pages aligned i i_in lo dif tail dif_eq
                      (long_enough fits) j un (ground arith)))
          ]
    ]

    alloc_base_in-Outcome :
        find_index (region_with base) s.free_als ≡ some i → BaseOutcome (alloc_base_in base n s i)
    unfolding alloc_base_in
    alloc_base_in-Outcome e = elim (Bool-cases (ltb (at s.free_als i).nof_pages (dif + n))) [
      | inl short ↦ rw (short, alloc_base_in) (too_short i e (ground (arith, dif_eq, region.below)))
      | inr fits ↦ alloc_base_in-long fits
    ]

bad_request :
    (base : ℕ) (nof_bytes : ℤ)
    → (not (base % page_size == 0) || leb (pos_part nof_bytes) 0) ≡ true
    → (base % page_size ≢ 0) ⊎ (pos_part nof_bytes ≡ 0)
bad_request base nof_bytes h = ground arith

module _ {ram : ℕ} {s : Rgn} (v : IsSound ram s) where
  -- In a sound allocator a request at an address that is no page's, or for no bytes, changes
  -- nothing, and any other gets exactly the pages at that address or changes nothing; the allocator
  -- stays sound.
  pub rgn_alloc_base-BaseOutcome :
      (base : ℕ) (nof_bytes : ℤ)
      → (((base % page_size ≢ 0) ⊎ (pos_part nof_bytes ≡ 0))
          × (rgn_alloc_base base nof_bytes s ≡ (0, s)))
        ⊎ BaseOutcome v base (count_pages (pos_part nof_bytes)) (rgn_alloc_base base nof_bytes s)
  unfolding rgn_alloc_base
  rgn_alloc_base-BaseOutcome base nof_bytes =
      elim (Bool-cases (not (base % page_size == 0) || leb (pos_part nof_bytes) 0)) [
        | inl bad ↦ inl (bad_request base nof_bytes bad, rw bad)
        | inr good ↦ rw good (
            inr (elim (Option-cases (find_index (region_with base) s.free_als)) [
              | inl none_has ↦ rw none_has (outside none_has)
              | inr (i, e) ↦ rw e (
                  alloc_base_in-Outcome v base (count_pages (pos_part nof_bytes))
                    (count_pages_pos (pos_part nof_bytes) (ground arith)) (ground arith) i
                    (find_index-lt (region_with base) s.free_als i e)
                    (find_index-holds (region_with base) s.free_als unused i e) e)
            ]))
      ]
