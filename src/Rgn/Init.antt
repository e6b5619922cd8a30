-- ===== src/Rgn/Init.antt =====
-- rgn_init of gluKe/rgn.c: the tables at boot.
use glu_ke.Base.{
  ℕ, zero, suc, ◌*◌, ◌/◌, ◌≤◌, ◌<◌, ◌≡◌, refl, arith, ltb, if◌then◌else◌, set, replicate, All,
  length-set, length-replicate, All-set, All-replicate,
}
use glu_ke.Rgn.{
  Allocation, page_size, max_nof_als, unused, at, rgn_init, als_free_base, als_reserved_base,
  als_table_bytes,
}
use glu_ke.Rgn.Pages.{covers, held, covers-zero, held-set, covers_all, held-replicate}
use glu_ke.Rgn.Invariant.{address_limit, InRange, FindsUsed, IsSound}
use glu_ke.Rgn.Run.{alloc_base-IsSound}

at-replicate : (n k : ℕ) → at (replicate n unused) k ≡ unused
at-replicate zero k = refl
at-replicate (suc n) zero = refl
at-replicate (suc n) (suc k) = at-replicate n k

replicate-FindsUsed : (n : ℕ) → FindsUsed (replicate n unused)
replicate-FindsUsed n j k lt len used = absurd (used (rw at-replicate))

module _ (n m : ℕ) (some_entries : 0 < n) (small : m * page_size ≤ address_limit) where
  abbrev first : Allocation
  first = record unused { base = 0; nof_pages = m }

  blank_table-held :
      (p : ℕ) → held (set (replicate n unused) 0 first) p ≡ (if ltb p m then 1 else 0)
  blank_table-held p =
      let h = held-set (replicate n unused) 0 p first (omega (arith, length-replicate n unused)) in
      let u : covers (at (replicate n unused) 0).base (at (replicate n unused) 0).nof_pages p ≡ 0 =
        rw at-replicate (covers-zero 0 p) in
      omega (arith, h, u, covers_all m p, held-replicate n p)

  blank_table-range : All InRange (set (replicate n unused) 0 first)
  blank_table-range =
      All-set InRange (replicate n unused) 0 first (All-replicate InRange n unused (omega arith))
        (omega arith)

  blank_table-IsSound :
      n ≡ max_nof_als
      → IsSound m (record {
        free_als = set (replicate n unused) 0 first;
        reserved_als = replicate n unused;
      })
  blank_table-IsSound e = record {
    free_len = omega (arith, length-set (replicate n unused) 0 first, length-replicate n unused);
    reserved_len = omega (arith, length-replicate n unused);
    free_range = blank_table-range;
    reserved_range = All-replicate InRange n unused (omega arith);
    partition = λ p. ground (arith, blank_table-held p, held-replicate n p);
    finds_used = replicate-FindsUsed n;
  }

-- After `rgn_init` on a memory of at most 2 ^ 31 bytes every whole page of it is free or reserved,
-- in one region, and no other page is.
pub rgn_init-IsSound :
    (ram_size : ℕ) → ram_size ≤ address_limit → IsSound (ram_size / page_size) (rgn_init ram_size)
unfolding rgn_init
rgn_init-IsSound ram_size small =
    let blank_sound =
      blank_table-IsSound max_nof_als (ram_size / page_size) (omega arith) (omega arith) refl in
    alloc_base-IsSound (alloc_base-IsSound blank_sound als_free_base als_table_bytes)
      als_reserved_base als_table_bytes
