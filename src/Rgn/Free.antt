-- ===== src/Rgn/Free.antt =====
-- st_free_index and rgn_free of gluKe/rgn.c: reserved pages go back to the free table, joined to the
-- free regions on both sides.
use glu_ke.Base.{
  ℕ, ◌+◌, ◌*◌, ◌%◌, ◌^◌, ◌<◌, ◌≡◌, ◌≢◌, refl, inl, inr, none, some, List, arith, length, set, All,
  length-set, get_or-set_ne, get_or-set_self, All-set, All-get_or, Option-cases, ap,
}
use glu_ke.Base.Find.{find_index, find_index-lt, find_index-holds}
use glu_ke.Base.Int.{ℤ, ok_code, fail_code}
use glu_ke.Rgn.{
  Allocation, Rgn, page_size, max_nof_als, unused, at, word, is_empty, free_index, merge_free,
  give_back, free_before, free_after, ends_at, starts_at,
}
use glu_ke.Rgn.Pages.{covers, held, covers-zero, covers-split, held-set}
use glu_ke.Rgn.Invariant.{InRange, IsSound}
use glu_ke.Rgn.Emptied.{emptied, Freed, Freed-IsSound}

module _ {ram : ℕ} {s : Rgn} (v : IsSound ram s) (r : ℕ) (r_in : r < length s.reserved_als) where
  abbrev base : ℕ
  base = (at s.reserved_als r).base

  abbrev n : ℕ
  n = (at s.reserved_als r).nof_pages

  freed_range : InRange (at s.reserved_als r)
  freed_range = All-get_or InRange s.reserved_als r unused v.reserved_range r_in

  -- The entry `i` of the free table `fr` ends where the reserved pages begin.
  module _ (fr : List Allocation) (len : length fr ≡ max_nof_als) (range : All InRange fr) (i : ℕ)
      (i_in : i < length fr) (joins : (at fr i).base + (at fr i).nof_pages * page_size ≡ base) where
    abbrev grown : ℕ → Allocation
    grown m = record (at fr i) { nof_pages = (at fr i).nof_pages + m }

    i_range : InRange (at fr i)
    i_range = All-get_or InRange fr i unused range i_in

    -- The grown entry holds the pages of the entry, those given back, and `m` behind them.
    grown-covers :
        (m p : ℕ)
        → covers (at fr i).base ((at fr i).nof_pages + (n + m)) p
          ≡ covers (at fr i).base (at fr i).nof_pages p
            + (covers base n p + covers (word (base + n * page_size)) m p)
    grown-covers m p =
        let first =
          covers-split (at fr i).base (at fr i).nof_pages (n + m) p i_range.aligned
            (omega (arith, i_range.below)) in
        let second =
          covers-split base n m p freed_range.aligned (omega (arith, freed_range.below)) in
        let start : ((at fr i).base + (at fr i).nof_pages * page_size) % 2 ^ 32 ≡ base =
          omega (arith, freed_range.below) in
        rw (first, start, second)

    abbrev joined : Rgn
    joined = record { free_als = fr; reserved_als = s.reserved_als }

    no_region_behind : (p : ℕ) → held (set fr i (grown n)) p ≡ held fr p + covers base n p
    no_region_behind p =
        let z : n + 0 ≡ n = omega arith in
        let g = grown-covers 0 p in
        omega (
          arith,
          held-set fr i p (grown n) i_in,
          rw z at g,
          covers-zero (word (base + n * page_size)) p,
        )

    module _ (k : ℕ) (e : find_index (starts_at (word (base + n * page_size))) fr ≡ some k) where
      k_in : k < length fr
      k_in = find_index-lt (starts_at (word (base + n * page_size))) fr k e

      k_starts : ((at fr k).nof_pages ≢ 0) × ((at fr k).base ≡ base + n * page_size)
      k_starts =
          let t = find_index-holds (starts_at (word (base + n * page_size))) fr unused k e in
          (ground arith, ground (arith, freed_range.below))

      k_ne_i : k ≢ i
      k_ne_i ki =
          let b : (at fr k).base ≡ (at fr i).base = rw ki in
          let m : (at fr k).nof_pages ≡ (at fr i).nof_pages = rw ki in
          k_starts.0 (omega (arith, k_starts.1))

      abbrev cut : List Allocation
      cut = emptied fr k

      i_cut : at cut i ≡ at fr i
      i_cut = get_or-set_ne fr k i _ unused k_ne_i

      region_behind :
          (p : ℕ)
          → held (set cut i (grown (n + (at fr k).nof_pages))) p ≡ held fr p + covers base n p
      region_behind p =
          let w : word (base + n * page_size) ≡ (at fr k).base =
            omega (arith, k_starts.1, freed_range.below) in
          let g = grown-covers (at fr k).nof_pages p in
          omega (
            arith,
            held-set cut i p (grown (n + (at fr k).nof_pages))
                (omega (arith, length-set fr k (record (at fr k) { nof_pages = 0 }))),
            held-set fr k p (record (at fr k) { nof_pages = 0 }) k_in,
            covers-zero (at fr k).base p,
            ap (λ (a : Allocation). covers a.base a.nof_pages p) i_cut,
            rw w at g,
          )

      region_behind_range : All InRange (set cut i (grown (n + (at fr k).nof_pages)))
      region_behind_range =
          let kr = All-get_or InRange fr k unused range k_in in
          All-set InRange cut i _
            (All-set InRange fr k _ range (omega (arith, kr.aligned, kr.below)))
            (omega (arith, i_range.aligned, kr.below, k_starts.1))

    back : ℕ → List Allocation → Rgn
    back m t = record {
      free_als = set t i (record (at t i) { nof_pages = (at t i).nof_pages + m });
      reserved_als = emptied s.reserved_als r;
    }

    behind-Freed :
        ((p : ℕ) → held fr p ≡ held s.free_als p)
        → (k : ℕ) → find_index (starts_at (word (base + n * page_size))) fr ≡ some k
        → Freed r s (back (n + (at fr k).nof_pages) (emptied fr k))
          × IsSound ram (back (n + (at fr k).nof_pages) (emptied fr k))
    unfolding back
    behind-Freed same k e =
        let f : Freed r s (back (n + (at fr k).nof_pages) (emptied fr k)) = record {
          now_free = λ p. rw (i_cut k e, ← same p) (region_behind k e p);
          entry = refl;
        } in
        (
          f,
          Freed-IsSound v r r_in _ f
              (omega (
                arith,
                length-set (cut k e) i (record (at (cut k e) i) {
                  nof_pages = (at (cut k e) i).nof_pages + (n + (at fr k).nof_pages);
                }),
                length-set fr k (record (at fr k) { nof_pages = 0 }),
                len,
              ))
              (rw (i_cut k e) (region_behind_range k e)),
        )

    alone-Freed :
        ((p : ℕ) → held fr p ≡ held s.free_als p)
        → find_index (starts_at (word (base + n * page_size))) fr ≡ none
        → Freed r s (back n fr) × IsSound ram (back n fr)
    unfolding back
    alone-Freed same e =
        let f : Freed r s (back n fr) = record {
          now_free = λ p. rw (← same p) (no_region_behind p);
          entry = refl;
        } in
        (
          f,
          Freed-IsSound v r r_in _ f (omega (arith, length-set fr i (grown n), len))
              (All-set InRange fr i _ range (omega (arith, i_range.aligned, freed_range.below))),
        )

    merge-Freed :
        ((p : ℕ) → held fr p ≡ held s.free_als p)
        → Freed r s (merge_free r i joined) × IsSound ram (merge_free r i joined)
    unfolding merge_free free_after give_back back
    merge-Freed same =
        elim (Option-cases (find_index (starts_at (word (base + n * page_size))) fr)) [
          | inl e ↦ rw (e, merge_free) (alone-Freed same e)
          | inr (k, e) ↦ rw (e, merge_free) (behind-Freed same k e)
        ]

  -- What st_free_index returns: the pages are free, or there is no free entry to put them in.
  pub data Outcome : ℤ × Rgn → Type 0 where
    freed : (s' : Rgn) → Freed r s s' → IsSound ram s' → Outcome (ok_code, s')
    no_entry :
        find_index (ends_at base) s.free_als ≡ none
        → find_index is_empty s.free_als ≡ none
        → Outcome (fail_code, s)

  ends-joins :
      (i : ℕ)
      → find_index (ends_at base) s.free_als ≡ some i
      → (at s.free_als i).base + (at s.free_als i).nof_pages * page_size ≡ base
  ends-joins i e =
      let ir =
        All-get_or InRange s.free_als i unused v.free_range
          (find_index-lt (ends_at base) s.free_als i e) in
      let t = find_index-holds (ends_at base) s.free_als unused i e in ground (arith, ir.below)

  module _ (i : ℕ) (e : find_index is_empty s.free_als ≡ some i) where
    abbrev marked : Allocation
    marked = record (at s.free_als i) { base = base }

    marked_self : at (set s.free_als i marked) i ≡ marked
    marked_self = get_or-set_self s.free_als i marked unused (find_index-lt is_empty s.free_als i e)

    marked_empty : (at s.free_als i).nof_pages ≡ 0
    marked_empty = ground (arith, find_index-holds is_empty s.free_als unused i e)

    marked_same : (p : ℕ) → held (set s.free_als i marked) p ≡ held s.free_als p
    marked_same p = omega (
      arith,
      held-set s.free_als i p marked (find_index-lt is_empty s.free_als i e),
      (let c : covers (at s.free_als i).base (at s.free_als i).nof_pages p ≡ 0 =
            rw marked_empty (covers-zero _ p) in
          c),
      (let c : covers base (at s.free_als i).nof_pages p ≡ 0 = rw marked_empty (covers-zero _ p) in
          c),
    )

    marked-Freed :
        let t = record s { free_als = set s.free_als i marked } in
        Freed r s (merge_free r i t) × IsSound ram (merge_free r i t)
    marked-Freed =
        merge-Freed (set s.free_als i marked)
          (omega (arith, length-set s.free_als i marked, v.free_len))
          (All-set InRange s.free_als i marked v.free_range
            (omega (arith, freed_range.aligned, freed_range.below, marked_empty)))
          i (omega (arith, length-set s.free_als i marked, find_index-lt is_empty s.free_als i e))
          (rw marked_self (omega (arith, marked_empty))) marked_same

  -- Freeing a reserved entry of a sound allocator gives exactly its pages back and empties the
  -- entry, or changes nothing when the free table has no room; the allocator stays sound.
  pub free_index-Outcome : Outcome (free_index r s)
  unfolding free_index free_before
  free_index-Outcome = elim (Option-cases (find_index (ends_at base) s.free_als)) [
    | inr (i, e) ↦
        let m =
          merge-Freed s.free_als v.free_len v.free_range i
            (find_index-lt (ends_at base) s.free_als i e) (ends-joins i e) (λ p. refl) in
        rw (e, free_index) (freed _ m.0 m.1)
    | inl none_ends ↦ elim (Option-cases (find_index is_empty s.free_als)) [
      | inl full ↦ rw (none_ends, full, free_index) (no_entry none_ends full)
      | inr (i, e) ↦ let m = marked-Freed i e in rw (none_ends, e, free_index) (freed _ m.0 m.1)
    ]
  ]
