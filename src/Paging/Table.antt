-- ===== src/Paging/Table.antt =====
-- One page table of init_paging (gluKe/sys_utils.c).
use glu_ke.Base.{
  ℕ, zero, suc, ◌+◌, ◌-◌, ◌*◌, ◌%◌, ◌^◌, ◌≤◌, ◌<◌, ◌≡◌, refl, ◌∙◌, inl, inr, true, arith, ltb, ◌==◌,
  Bool-cases,
}
use glu_ke.Paging.{Memory, write_word, entry_of, fill_table}

-- What `n` entries from `j` on leave in memory, and what they write.
pub record Filled (n j table pg : ℕ) (m : Memory) (out : ℕ × Memory) : Type 0 where
  pub next : out.0 ≡ pg + n * 0x1000
  pub low : (a : ℕ) → a < table + 4 * j → out.1 a ≡ m a
  pub high : (a : ℕ) → table + 4 * (j + n) ≤ a → out.1 a ≡ m a
  pub entries : (x : ℕ) → j ≤ x → x < j + n → out.1 (table + 4 * x) ≡ pg + (x - j) * 0x1000 + 3

pub fill_table-Filled :
    (n j total table pg : ℕ) (m : Memory)
    → j + n ≤ total
    → pg % 0x1000 ≡ 0
    → pg + n * 0x1000 < 2 ^ 32
    → Filled n j table pg m (fill_table n j total table pg m)
unfolding fill_table write_word
fill_table-Filled zero j total table pg m room al small = record {
  next = omega arith;
  low = λ a h. refl;
  high = λ a h. refl;
  entries = λ x h h'. absurd (omega arith);
}
fill_table-Filled (suc n) j total table pg m room al small =
    let present : ltb j total ≡ true = ground arith in
    let pg' : (pg + 0x1000) % 2 ^ 32 ≡ pg + 0x1000 = omega arith in
    let m' = write_word m (table + 4 * j) (entry_of pg) in
    let r =
      fill_table-Filled n (j + 1) total table (pg + 0x1000) m' (omega arith) (omega arith)
        (omega arith) in
    rw (present, pg')
      (record {
        next = r.next ∙ omega arith;
        low = λ a h. r.low a (omega arith) ∙ ground arith;
        high = λ a h. r.high a (omega arith) ∙ ground arith;
        entries = λ x h h'. elim (Bool-cases (x == j)) [
          | inl same ↦
              let e : x ≡ j = ground arith in
              rw e (r.low (table + 4 * j) (omega arith) ∙ ground arith)
          | inr other ↦ r.entries x (ground arith) (omega arith) ∙ ground arith
        ];
      })
