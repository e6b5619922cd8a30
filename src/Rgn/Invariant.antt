-- ===== src/Rgn/Invariant.antt =====
-- What the tables of gluKe/rgn.c keep true.
use glu_ke.Base.{ℕ, ◌+◌, ◌*◌, ◌%◌, ◌^◌, ◌≤◌, ◌<◌, ◌≡◌, ◌≢◌, List, ltb, if◌then◌else◌, length, All}
use glu_ke.Rgn.{Allocation, Rgn, page_size, max_nof_als, at}
use glu_ke.Rgn.Pages.{held}

-- All memory lies below 2 ^ 31 and entries begin on a page.
abbrev pub address_limit : ℕ
address_limit = 2 ^ 31

pub record InRange (a : Allocation) : Type 0 where
  pub aligned : a.base % page_size ≡ 0
  pub below : a.base + a.nof_pages * page_size ≤ address_limit

-- No entry before a used one has its base, so a search by base finds the used one.
abbrev pub FindsUsed : List Allocation → Type 0
FindsUsed t =
    (j k : ℕ) → j < k → k < length t → (at t k).nof_pages ≢ 0 → (at t j).base ≢ (at t k).base

pub record IsSound (ram_pages : ℕ) (s : Rgn) : Type 0 where
  pub free_len : length s.free_als ≡ max_nof_als
  pub reserved_len : length s.reserved_als ≡ max_nof_als
  pub free_range : All InRange s.free_als
  pub reserved_range : All InRange s.reserved_als
  -- Each page of the memory stands in one entry of one table, and no other page in any.
  pub partition :
      (p : ℕ) → held s.free_als p + held s.reserved_als p ≡ (if ltb p ram_pages then 1 else 0)
  pub finds_used : FindsUsed s.reserved_als
