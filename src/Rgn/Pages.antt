-- ===== src/Rgn/Pages.antt =====
-- The pages that a table of gluKe/rgn.c holds, counted with multiplicity.
use glu_ke.Base.{
  ℕ, zero, suc, ◌+◌, ◌*◌, ◌/◌, ◌%◌, ◌^◌, ◌≤◌, ◌<◌, ◌≡◌, refl, ◌&&◌, List, [], ◌∷◌, arith, ltb, leb,
  if◌then◌else◌, length, set, replicate,
}
use glu_ke.Rgn.{Allocation, page_size, unused, at}

-- How often a region of `n` pages from `base` on holds page `p`.
pub covers : ℕ → ℕ → ℕ → ℕ
covers base n p = if leb (base / page_size) p && ltb p (base / page_size + n) then 1 else 0

-- How often a table holds page `p`.
pub held : List Allocation → ℕ → ℕ
held [] p = 0
held (a ∷ t) p = covers a.base a.nof_pages p + held t p

pub covers-zero : (b p : ℕ) → covers b 0 p ≡ 0
unfolding covers
covers-zero b p = ground arith

-- A region splits into a front and a tail, when its end does not pass the address space.
pub covers-split :
    (b n m p : ℕ)
    → b % page_size ≡ 0
    → b + n * page_size < 2 ^ 32
    → covers b (n + m) p ≡ covers b n p + covers ((b + n * page_size) % 2 ^ 32) m p
unfolding covers
covers-split b n m p al small = ground arith

pub covers_first : (b n : ℕ) → 0 < n → covers b n (b / page_size) ≡ 1
unfolding covers
covers_first b n h = ground arith

pub covers_iff_in : (b n p : ℕ) → b / page_size ≤ p → p < b / page_size + n → covers b n p ≡ 1
unfolding covers
covers_iff_in b n p lo hi = ground arith

-- An entry of a table is part of what the table holds.
pub covers-le-held :
    (t : List Allocation) (i p : ℕ)
    → i < length t
    → covers (at t i).base (at t i).nof_pages p ≤ held t p
unfolding held
covers-le-held [] i p h = absurd (omega arith)
covers-le-held (a ∷ t) zero p h = omega arith
covers-le-held (a ∷ t) (suc i) p h = omega (arith, covers-le-held t i p (omega arith))

-- Two entries are two parts of it.
pub covers-add-le :
    (t : List Allocation) (i j p : ℕ)
    → i < j
    → j < length t
    → covers (at t i).base (at t i).nof_pages p + covers (at t j).base (at t j).nof_pages p
      ≤ held t p
unfolding held
covers-add-le [] i j p h k = absurd (omega arith)
covers-add-le (a ∷ t) zero zero p h k = absurd (omega arith)
covers-add-le (a ∷ t) zero (suc j) p h k = omega (arith, covers-le-held t j p (omega arith))
covers-add-le (a ∷ t) (suc i) zero p h k = absurd (omega arith)
covers-add-le (a ∷ t) (suc i) (suc j) p h k =
    omega (arith, covers-add-le t i j p (omega arith) (omega arith))

-- A write replaces the pages of the old entry by those of the new one.
pub held-set :
    (t : List Allocation) (i p : ℕ) (a : Allocation)
    → i < length t
    → held (set t i a) p + covers (at t i).base (at t i).nof_pages p
      ≡ held t p + covers a.base a.nof_pages p
unfolding held
held-set [] i p a h = absurd (omega arith)
held-set (x ∷ t) zero p a h = omega arith
held-set (x ∷ t) (suc i) p a h = omega (arith, held-set t i p a (omega arith))

pub held-replicate : (n p : ℕ) → held (replicate n unused) p ≡ 0
unfolding held
held-replicate zero p = refl
held-replicate (suc n) p = omega (arith, held-replicate n p, covers-zero 0 p)

pub covers_all : (m p : ℕ) → covers 0 m p ≡ (if ltb p m then 1 else 0)
unfolding covers
covers_all m p = ground arith
