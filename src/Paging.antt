-- ===== src/Paging.antt =====
-- init_paging of gluKe/sys_utils.c: the page catalogue and its tables. The memory is a function from
-- the address of a word to the word. An address is below 2 ^ 32; the registers that switch paging on
-- are not modelled.
pub mod Table
pub mod Catalogue
pub mod Rounds
pub mod Identity
mod Tests
use glu_ke.Base.{
  ℕ, zero, suc, ◌+◌, ◌-◌, ◌*◌, ◌/◌, ◌%◌, ◌^◌, Bool, true, false, Option, none, some, ltb, ◌==◌,
  if◌then◌else◌,
}
use glu_ke.Base.Int.{ℤ, pos, ok_code, fail_code}
use glu_ke.Rgn.{Rgn, rgn_alloc}

abbrev pub Memory : Type 0
Memory = ℕ → ℕ

unfoldable pub write_word : Memory → ℕ → ℕ → Memory
write_word m p v a = if a == p then v else m a

-- `PG_POINTER_GEN | x`, which sets the two lowest bits.
abbrev pub entry_of : ℕ → ℕ
entry_of x = x - x % 4 + 3

-- The loop over `j`, for `n` entries from `j` on: the next page and the memory.
unfoldable pub fill_table : ℕ → ℕ → ℕ → ℕ → ℕ → Memory → ℕ × Memory
unfolding write_word
fill_table zero j total_pages table pg m = (pg, m)
fill_table (suc n) j total_pages table pg m =
    let present = ltb j total_pages in
    fill_table n (j + 1) total_pages table (if present then (pg + 0x1000) % 2 ^ 32 else pg)
      (write_word m (table + 4 * j) (if present then entry_of pg else 0))

-- The variables of the loop over `i`, the allocator and the memory.
pub record Paging : Type 0 where
  pub total_pages : ℕ
  pub pg : ℕ
  pub rgn : Rgn
  pub memory : Memory

-- One round of it; `false` if there is no page for a table. `cur` is what task_cur_id returns.
unfoldable pub catalogue_entry : ℤ → ℕ → ℕ → ℕ → Paging → Bool × Paging
catalogue_entry cur nof_tables cat i s =
    let (table, rgn') = rgn_alloc cur (pos 0x1000) s.rgn in
    let (pg', m') =
      fill_table 1024 0 s.total_pages table s.pg
        (write_word s.memory (cat + 4 * i) (entry_of table)) in
    if ltb i nof_tables
    then (if table == 0 then (false, record s { rgn = rgn' }) else (
      true,
      record { total_pages = s.total_pages - 1024; pg = pg'; rgn = rgn'; memory = m' },
    ))
    else (true, record s { memory = write_word s.memory (cat + 4 * i) 0 })

-- The loop, for `n` entries from `i` on.
unfoldable pub fill_catalogue : ℤ → ℕ → ℕ → ℕ → ℕ → Paging → ℤ × Paging
fill_catalogue cur nof_tables cat zero i s = (ok_code, s)
fill_catalogue cur nof_tables cat (suc n) i s =
    let (done, s') = catalogue_entry cur nof_tables cat i s in
    elim done [ false ↦ (fail_code, s') | true ↦ fill_catalogue cur nof_tables cat n (i + 1) s' ]

-- The result is the code, the address of the catalogue, and what is left of the rest.
unfoldable pub init_paging : ℤ → ℕ → Rgn → Memory → ℤ × ℕ × Paging
init_paging cur ram_size rgn m =
    let total_pages = ram_size / 0x1000 in
    let (cat, rgn') = rgn_alloc cur (pos 0x1000) rgn in
    let s : Paging = record { total_pages = total_pages; pg = 0; rgn = rgn'; memory = m } in
    let (code, s') = fill_catalogue cur (total_pages / 1024) cat 1024 0 s in
    if cat == 0 then (fail_code, cat, s) else (code, cat, s')
