-- ===== src/Rgn/Tables.antt =====
-- The entries of the tables of gluKe/rgn.c, and pages (gluKe/defs.h).
use glu_ke.Base.{ℕ, ◌+◌, ◌-◌, ◌*◌, ◌/◌, ◌%◌, ◌^◌, Bool, List, ◌==◌, if◌then◌else◌, get_or}
use glu_ke.Base.Int.{ℤ, pos}

abbrev pub page_size : ℕ
page_size = 0x1000

abbrev pub max_nof_als : ℕ
max_nof_als = 300

-- `unsigned int` and pointers
abbrev pub word : ℕ → ℕ
word x = x % 2 ^ 32

-- TO_PAGE_SIZE and NOF_PAGES
unfoldable pub to_page_size : ℕ → ℕ
to_page_size x = if x % page_size == 0 then x else x + page_size - x % page_size

unfoldable pub count_pages : ℕ → ℕ
unfolding to_page_size
count_pages x = to_page_size x / page_size

pub record Allocation : Type 0 where
  pub base : ℕ
  pub nof_pages : ℕ
  pub task_id : ℤ

pub record Rgn : Type 0 where
  pub free_als : List Allocation
  pub reserved_als : List Allocation

-- A table cleared by `kmemset`.
abbrev pub unused : Allocation
unused = record { base = 0; nof_pages = 0; task_id = pos 0 }

abbrev pub at : List Allocation → ℕ → Allocation
at t i = get_or t i unused

-- The address behind an entry's last page.
abbrev pub end_of : Allocation → ℕ
end_of a = word (a.base + a.nof_pages * page_size)

abbrev pub is_empty : Allocation → Bool
is_empty a = a.nof_pages == 0
