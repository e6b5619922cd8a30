-- ===== src/MemBlock/Init.antt =====
-- The sizes that mb_init of mylib/mem_block.c computes.
use native.Mathlib.Nat.{div-add-mod, mul-div_right, le-div_iff_mul-le, mul_comm, mul-le-mul_left}
use glu_ke.Base.{
  ℕ, ◌+◌, ◌-◌, ◌*◌, ◌/◌, ◌%◌, ◌^◌, ◌≢◌, ltb, true, ◌<◌, ◌≤◌, ◌≡◌, refl, ap, sym, ◌∙◌, ◌⊎◌, inl, inr,
  false, [], ◌∷◌, arith, ◌==◌, Bool-cases,
}
use glu_ke.Base.Int.{ℤ, pos}
use glu_ke.Rgn.{Rgn, word, to_page_size, rgn_alloc}
use glu_ke.MemBlock.{Block, cleared, init_size, mb_init}
use glu_ke.MemBlock.Slots.{used_at-none}
use glu_ke.MemBlock.Sound.{free_flags, count_used-cleared, length-replicate}
use glu_ke.MemBlock.Chain.{IsChain, used}

to_page_size-le : (n : ℕ) → n ≤ to_page_size n
unfolding to_page_size
to_page_size-le n = ground arith

to_page_size-lt : (n : ℕ) → to_page_size n < n + 0x1000
unfolding to_page_size
to_page_size-lt n = ground arith

-- The bytes that the items and the header need, in whole pages, less what no item fits in.
abbrev pub asked : ℕ → ℕ → ℕ
asked size n = let x = to_page_size (size * n + 24) in x - (x - 24) % size

-- The items fill the block, and there are as many as were asked for.
asked-fills :
    (size n : ℕ)
    → 0 < size
    → (asked size n ≡ 24 + size * ((asked size n - 24) / size))
      × (n ≤ (asked size n - 24) / size)
      × (asked size n < size * n + 24 + 0x1000)
asked-fills size n some_size =
    let x = to_page_size (size * n + 24) in
    let k = (x - 24) / size in
    let large : size * n + 24 ≤ x = to_page_size-le (size * n + 24) in
    let parts : size * k + (x - 24) % size ≡ x - 24 = div-add-mod (x - 24) size in
    let bytes : x - (x - 24) % size ≡ 24 + size * k = omega (arith, parts, large) in
    let rest : x - (x - 24) % size - 24 ≡ size * k = omega (arith, bytes) in
    let same : (x - (x - 24) % size - 24) / size ≡ k =
      ap (λ (y : ℕ). y / size) rest ∙ mul-div_right k some_size in
    let enough : n ≤ k = (le-div_iff_mul-le some_size).1 (omega (arith, large, mul_comm n size)) in
    let few = to_page_size-lt (size * n + 24) in (rw same bytes, rw same enough, omega (arith, few))

-- Below 2 ^ 31 nothing wraps.
init_size-asked :
    (size n : ℕ) → 0 < size → size * n + 24 + 0x1000 ≤ 2 ^ 31 → init_size size n ≡ asked size n
unfolding init_size
init_size-asked size n some_size small =
    let x = to_page_size (size * n + 24) in
    let large : size * n + 24 ≤ x = to_page_size-le (size * n + 24) in
    let few : x < size * n + 24 + 0x1000 = to_page_size-lt (size * n + 24) in
    let sum : word (size * n + 24) ≡ size * n + 24 = omega arith in
    let whole : word x ≡ x = omega (arith, few) in
    let less : word (x + 2 ^ 32 - 24) ≡ x - 24 = omega (arith, few, large) in
    let parts : size * ((x - 24) / size) + (x - 24) % size ≡ x - 24 = div-add-mod (x - 24) size in
    let out : word (x + 2 ^ 32 - (x - 24) % size) ≡ x - (x - 24) % size =
      omega (arith, few, large, parts) in
    rw (sum, whole, less, out) refl

-- For items of at least one byte, a block for at least one of them, and a size that stays a page below
-- 2 ^ 31, mb_init
-- asks the allocator for the whole pages that the items need, less what no item fits in, and changes
-- it by nothing else. Where it gets no memory, the list has no block. Where it gets memory, the list is
-- a chain of one block there, of that size, which its items fill, with room for as many as were asked
-- for, none of them in use.
pub mb_init-IsChain :
    (cur : ℤ) (isize n : ℕ) (s : Rgn)
    → 0 < isize
    → 0 < n
    → (isize + 4) * n + 24 + 0x1000 ≤ 2 ^ 31
    → let bytes = asked (isize + 4) n in
      let memory = rgn_alloc cur (pos bytes) s in
      let out = mb_init cur isize n s in
      (out.1 ≡ memory.1)
      × (((memory.0 ≡ 0) × (out.0 ≡ []))
          ⊎ ((memory.0 ≢ 0)
              × (b : Block) × (out.0 ≡ b ∷ [])
              × (b.base ≡ memory.0)
              × (b.block_size_bytes ≡ bytes)
              × (b.isize ≡ isize + 4)
              × (n ≤ b.max_items)
              × IsChain (b ∷ [])
              × ((q : ℕ) → used (b ∷ []) q ≡ false)))
unfolding mb_init cleared
mb_init-IsChain cur isize n s some_size some_item small =
    let size = isize + 4 in
    let bytes = asked size n in
    let base = (rgn_alloc cur (pos bytes) s).0 in
    let max = (bytes - 24) / size in
    let fills = asked-fills size n (omega arith) in
    let one : size * 1 ≤ size * n = mul-le-mul_left size (omega arith) in
    let word_size : word (isize + 4) ≡ size = omega (arith, one) in
    let same : init_size size n ≡ bytes = init_size-asked size n (omega arith) small in
    let is_int : ltb bytes (2 ^ 31) ≡ true = ground (arith, fills.2) in
    let behind : word (bytes + 2 ^ 32 - 24) ≡ bytes - 24 = omega (arith, fills.0, fills.2) in
    let b = cleared base size max bytes in
    elim (Bool-cases (base == 0)) [
      | inl out_of_memory ↦
          rw (mb_init, word_size, same, is_int, behind, out_of_memory)
            (refl, inl (ground arith, refl))
      | inr got ↦
          rw (mb_init, word_size, same, is_int, behind, got)
            (
              refl,
              inr (
                λ e. absurd (ground arith),
                b,
                refl,
                refl,
                refl,
                refl,
                fills.1,
                record {
                  blocks = (
                    record {
                      counted = ap pos (sym (count_used-cleared max));
                      flagged = length-replicate max;
                      filled = fills.0;
                      some_size = omega arith;
                      some_item = omega (arith, fills.1);
                    },
                    tt,
                  );
                  separate = (tt, tt);
                },
                λ q.
                    rw (used_at-none size (base + 24) (free_flags max) q (count_used-cleared max))
                      refl,
              ),
            )
    ]
