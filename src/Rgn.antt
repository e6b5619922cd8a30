-- ===== src/Rgn.antt =====
-- gluKe/rgn.c: the page allocator. Two tables of `max_nof_als` entries list the free regions and
-- the reserved ones; an entry with no pages is unused. An address is a number, 0 is both the null
-- pointer and the address of page 0, as in the source. The critical sections are not modelled here:
-- each function is one step. A difference of pointers is an `int` in the source; it is taken to be
-- the difference of the numbers, which holds while all memory lies below 2 ^ 31.
mod Tables
pub mod Pages
pub mod Invariant
pub mod Alloc
pub mod AllocBase
pub mod Emptied
pub mod Free
pub mod Release
pub mod Task
pub mod Init
pub mod Run
mod Tests
unfoldable pub use Tables.*
use glu_ke.Base.{
  ℕ, zero, suc, ◌+◌, ◌-◌, ◌*◌, ◌/◌, ◌%◌, ◌^◌, Bool, true, false, not, ◌&&◌, ◌||◌, Option, none,
  some, List, ltb, leb, ◌==◌, if◌then◌else◌, get_or, set, replicate,
}
use glu_ke.Base.Find.{find_index}
use glu_ke.Base.Int.{ℤ, pos, negsuc, pos_part, eq_ℤ, ok_code, fail_code}

-- What the two allocating functions do once they have their entries: `i` in the free table becomes
-- `left`, and `j` in the reserved table becomes `taken`.
unfoldable pub reserve : ℕ → ℕ → Allocation → Allocation → Rgn → Rgn
reserve i j left taken s = record {
  free_als = set s.free_als i left;
  reserved_als = set s.reserved_als j taken;
}

unfoldable pub alloc_found : ℕ → ℤ → Rgn → ℕ → ℕ × Rgn
unfolding reserve
alloc_found n task_id s i =
    let a = at s.free_als i in
    elim (find_index is_empty s.reserved_als) [
      | none ↦ (0, s)
      | some j ↦ (
        a.base,
        reserve i j (record a { base = word (a.base + n * page_size); nof_pages = a.nof_pages - n })
            (record { base = a.base; nof_pages = n; task_id = task_id }) s,
      )
    ]

-- st_rgn_alloc_basic
unfoldable pub alloc_basic : ℤ → ℤ → Rgn → ℕ × Rgn
unfolding alloc_found
alloc_basic nof_bytes task_id s =
    let n = count_pages (pos_part nof_bytes) in
    if leb (pos_part nof_bytes) 0
    then (0, s)
    else elim (find_index (λ a. leb n a.nof_pages) s.free_als) [
      | none ↦ (0, s)
      | some i ↦ alloc_found n task_id s i
    ]

-- rgn_alloc, where `cur` is what `task_cur_id` returns, and rgn_alloc_t
unfoldable pub rgn_alloc : ℤ → ℤ → Rgn → ℕ × Rgn
rgn_alloc cur nof_bytes s = alloc_basic nof_bytes cur s

unfoldable pub rgn_alloc_t : ℤ → ℤ → Rgn → ℕ × Rgn
rgn_alloc_t nof_bytes task_id s = alloc_basic nof_bytes task_id s

-- The free region that `base` lies in.
abbrev pub region_with : ℕ → Allocation → Bool
region_with base a = not (a.nof_pages == 0) && leb a.base base && ltb base (end_of a)

-- The changes of st_rgn_alloc_base_basic: the region keeps `dif` pages, `k` is the entry for the
-- tail, if there is one. The entry taken keeps the task id that it had.
take_base : ℕ → ℕ → Rgn → ℕ → ℕ → ℕ → Rgn
unfolding reserve
take_base base n s i j dif =
    reserve i j (record (at s.free_als i) { nof_pages = dif })
      (record (at s.reserved_als j) { base = base; nof_pages = n }) s

add_tail : ℕ → ℕ → ℕ → Rgn → Rgn
add_tail k base pages s = record s {
  free_als = set s.free_als k (record (at s.free_als k) { base = base; nof_pages = pages });
}

alloc_base_in : ℕ → ℕ → Rgn → ℕ → ℕ × Rgn
unfolding add_tail take_base
alloc_base_in base n s i =
    let a = at s.free_als i in
    let dif = (base - a.base) / page_size in
    let tail = a.nof_pages - dif - n in
    if ltb a.nof_pages (dif + n)
    then (0, s)
    else if ltb 0 tail
    then elim (find_index is_empty s.free_als) [
      | none ↦ (0, s)
      | some k ↦ elim (find_index is_empty s.reserved_als) [
        | none ↦ (0, s)
        | some j ↦
            (base, add_tail k (word (base + n * page_size)) tail (take_base base n s i j dif))
      ]
    ]
    else elim (find_index is_empty s.reserved_als) [
      | none ↦ (0, s)
      | some j ↦ (base, take_base base n s i j dif)
    ]

-- st_rgn_alloc_base_basic and rgn_alloc_base
unfoldable pub rgn_alloc_base : ℕ → ℤ → Rgn → ℕ × Rgn
unfolding alloc_base_in
rgn_alloc_base base nof_bytes s =
    if not (base % page_size == 0) || leb (pos_part nof_bytes) 0
    then (0, s)
    else elim (find_index (region_with base) s.free_als) [
      | none ↦ (0, s)
      | some i ↦ alloc_base_in base (count_pages (pos_part nof_bytes)) s i
    ]

abbrev pub reserved_with_base : ℕ → Rgn → Option ℕ
reserved_with_base base s = find_index (λ a. a.base == base) s.reserved_als

-- st_free_before and st_free_after
abbrev pub ends_at : ℕ → Allocation → Bool
ends_at base a = not (a.nof_pages == 0) && end_of a == base

abbrev pub starts_at : ℕ → Allocation → Bool
starts_at base a = not (a.nof_pages == 0) && a.base == base

free_before : ℕ → Rgn → Option ℕ
free_before base s = find_index (ends_at base) s.free_als

free_after : ℕ → ℕ → Rgn → Option ℕ
free_after base n s = find_index (starts_at (word (base + n * page_size))) s.free_als

-- The end of st_free_index: the reserved pages go to the free entry `i`.
give_back : ℕ → ℕ → ℕ → Rgn → Rgn
give_back r i n s = record {
  free_als =
      set s.free_als i (record (at s.free_als i) { nof_pages = (at s.free_als i).nof_pages + n });
  reserved_als = set s.reserved_als r (record (at s.reserved_als r) { nof_pages = 0 });
}

-- st_free_index from the search for the free region behind
merge_free : ℕ → ℕ → Rgn → Rgn
unfolding free_after give_back
merge_free r i s =
    let n = (at s.reserved_als r).nof_pages in
    elim (free_after (at s.reserved_als r).base n s) [
      | none ↦ give_back r i n s
      | some k ↦
          give_back r i (n + (at s.free_als k).nof_pages)
            (record s { free_als = set s.free_als k (record (at s.free_als k) { nof_pages = 0 }) })
    ]

pub free_index : ℕ → Rgn → ℤ × Rgn
unfolding free_before merge_free
free_index r s =
    let base = (at s.reserved_als r).base in
    elim (free_before base s) [
      | some i ↦ (ok_code, merge_free r i s)
      | none ↦ elim (find_index is_empty s.free_als) [
        | none ↦ (fail_code, s)
        | some i ↦ (
          ok_code,
          merge_free r i
              (record s { free_als = set s.free_als i (record (at s.free_als i) { base = base }) }),
        )
      ]
    ]

pub rgn_free : ℕ → Rgn → ℤ × Rgn
rgn_free base s = elim (reserved_with_base base s) [
  | none ↦ (fail_code, s)
  | some r ↦ free_index r s
]

-- The loop of rgn_free_task_memory over the entries from `i` on, of which `n` are left.
pub is_of_task : ℤ → Allocation → Bool
is_of_task task_id a = not (a.nof_pages == 0) && eq_ℤ a.task_id task_id

pub free_task_step : ℤ → ℕ → ℤ × Rgn → ℤ × Rgn
unfolding is_of_task
free_task_step task_id i (ret, s) =
    if is_of_task task_id (at s.reserved_als i)
    then (let (e, s') = free_index i s in (if eq_ℤ e ok_code then ret else fail_code, s'))
    else (ret, s)

pub free_task_loop : ℤ → ℕ → ℕ → ℤ × Rgn → ℤ × Rgn
unfolding free_task_step
free_task_loop task_id zero i out = out
free_task_loop task_id (suc n) i out =
    free_task_loop task_id n (suc i) (free_task_step task_id i out)

pub rgn_free_task_memory : ℤ → Rgn → ℤ × Rgn
rgn_free_task_memory task_id s = free_task_loop task_id max_nof_als 0 (ok_code, s)

abbrev pub als_free_base : ℕ
als_free_base = 0x230000

abbrev pub als_reserved_base : ℕ
als_reserved_base = 0x250000

-- `sizeof(struct rgn_allocation)` is 12.
abbrev pub als_table_bytes : ℤ
als_table_bytes = pos 3600

-- The tables after `kmemset`, with all memory free.
pub blank : ℕ → Rgn
blank ram_size = record {
  free_als =
      set (replicate max_nof_als unused) 0
        (record unused { base = 0; nof_pages = ram_size / page_size });
  reserved_als = replicate max_nof_als unused;
}

unfoldable pub rgn_init : ℕ → Rgn
unfolding blank
rgn_init ram_size =
    (rgn_alloc_base als_reserved_base als_table_bytes
      (rgn_alloc_base als_free_base als_table_bytes (blank ram_size)).1).1
