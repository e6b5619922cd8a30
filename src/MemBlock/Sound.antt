-- ===== src/MemBlock/Sound.antt =====
-- One block of mylib/mem_block.c: what is true of its numbers, and that each change keeps it.
use native.Mathlib.Nat.{mul-mod_left}
use glu_ke.Base.{
  ℕ, zero, suc, ◌+◌, ◌-◌, ◌*◌, ◌<◌, ◌≡◌, ◌≢◌, refl, ap, sym, ◌∙◌, Bool, true, false, not, ◌&&◌,
  ◌||◌, List, arith, ◌==◌, length, replicate, set, piece-end,
}
use glu_ke.Base.Int.{ℤ, pos, negsuc, ◌+ℤ◌}
use glu_ke.MemBlock.{
  Block, items_of, lt_ℤ, cleared, alloc_here, fresh_block, free_here, lies_in, is_item,
}
use glu_ke.MemBlock.Slots.{
  used_at, count_used, used_at-none, used_at-place, take_slot-Taken, clear_slot-Cleared,
}

-- The number of items in use is the one of the flags, and the items fill the block.
pub record IsBlock (b : Block) : Type 0 where
  pub counted : b.used_items ≡ pos (count_used b.flags)
  pub flagged : length b.flags ≡ b.max_items
  pub filled : b.block_size_bytes ≡ 24 + b.isize * b.max_items
  pub some_size : 4 < b.isize
  pub some_item : 0 < b.max_items

abbrev pub used_in : Block → ℕ → Bool
used_in b q = used_at b.isize (items_of b) b.flags q

-- Item `q` of block `b` was free and is the only one that is in use in `b'` and was not in `b`.
pub record Got (b : Block) (q : ℕ) (b' : Block) : Type 0 where
  pub some_address : q ≢ 0
  pub free : used_in b q ≡ false
  pub used : (r : ℕ) → used_in b' r ≡ (q == r || used_in b r)
  pub kept : IsBlock b'
  pub same_base : b'.base ≡ b.base
  pub same_size : b'.block_size_bytes ≡ b.block_size_bytes

pub alloc_here-Got :
    (b : Block)
    → IsBlock b
    → lt_ℤ b.used_items b.max_items ≡ true
    → Got b (alloc_here b).0 (alloc_here b).1
unfolding alloc_here
alloc_here-Got b v room =
    let size = v.some_size in
    let room' : lt_ℤ (pos (count_used b.flags)) b.max_items ≡ true =
      ap (λ (z : ℤ). lt_ℤ z b.max_items) (sym v.counted) ∙ room in
    let less : count_used b.flags < length b.flags = ground (arith, v.flagged) in
    let r = take_slot-Taken b.isize (items_of b) b.flags (omega arith) less in
    let t = r.2 in
    rw (alloc_here, t.found)
      (record {
        some_address = omega (arith, t.behind);
        free = t.free;
        used = t.used;
        kept = record {
          counted = ap (λ (z : ℤ). z +ℤ pos 1) v.counted ∙ ap pos (sym t.count);
          flagged = t.same_length ∙ v.flagged;
          filled = v.filled;
          some_size = v.some_size;
          some_item = v.some_item;
        };
        same_base = refl;
        same_size = refl;
      })

one_less : (n : ℕ) → pos (n + 1) +ℤ negsuc 0 ≡ pos n
one_less n = ground arith

pub record Given (b : Block) (q : ℕ) (b' : Block) : Type 0 where
  pub used : (r : ℕ) → used_in b' r ≡ (used_in b r && not (q == r))
  pub kept : IsBlock b'

pub free_here-Given :
    (b : Block) (q : ℕ) → IsBlock b → used_in b q ≡ true → Given b q (free_here q b)
unfolding free_here
free_here-Given b q v h =
    let size = v.some_size in
    let t = clear_slot-Cleared b.isize (items_of b) b.flags q (omega arith) h in
    record {
      used = t.used;
      kept = record {
        counted = ap (λ (z : ℤ). z +ℤ negsuc 0) (v.counted ∙ ap pos (sym t.count)) ∙ one_less _;
        flagged = t.same_length ∙ v.flagged;
        filled = v.filled;
        some_size = v.some_size;
        some_item = v.some_item;
      };
    }

abbrev pub free_flags : ℕ → List ℕ
free_flags n = replicate n 0

pub count_used-cleared : (n : ℕ) → count_used (free_flags n) ≡ 0
count_used-cleared zero = refl
count_used-cleared (suc n) = ground (arith, count_used-cleared n)

pub length-replicate : (n : ℕ) → length (free_flags n) ≡ n
length-replicate zero = refl
length-replicate (suc n) = ap suc (length-replicate n)

fresh_flags :
    (isize p n r : ℕ)
    → 0 < n
    → (count_used (set (free_flags n) 0 1) ≡ 1)
      × (length (set (free_flags n) 0 1) ≡ n)
      × (used_at isize p (set (free_flags n) 0 1) r ≡ (p + 4 == r))
fresh_flags isize p zero r h = absurd (omega arith)
fresh_flags isize p (suc n) r h = (
  omega (arith, count_used-cleared n),
  ap suc (length-replicate n),
  ground (arith, used_at-none isize (p + isize) (free_flags n) r (count_used-cleared n)),
)

-- A new block has its first item in use and no other.
pub fresh_block-IsBlock :
    (base : ℕ) (b : Block)
    → IsBlock b
    → IsBlock (fresh_block base b)
      × ((r : ℕ) → used_in (fresh_block base b) r ≡ (items_of (fresh_block base b) + 4 == r))
unfolding fresh_block cleared
fresh_block-IsBlock base b v =
    let some_item = v.some_item in
    let e = λ (r : ℕ). fresh_flags b.isize (base + 24) b.max_items r some_item in
    (
      record {
        counted = ap pos (sym (e 0).0);
        flagged = (e 0).1;
        filled = v.filled;
        some_size = v.some_size;
        some_item = some_item;
      },
      λ r. (e r).2,
    )

-- The address of an item in use passes the tests of mb_free.
pub used_in-place :
    (b : Block) (q : ℕ)
    → IsBlock b
    → used_in b q ≡ true
    → (lies_in q b ≡ true) × (is_item q b ≡ true) × (b.base < q) × (q < b.base + b.block_size_bytes)
used_in-place b q v h =
    let r = used_at-place b.isize (items_of b) b.flags q h in
    let within = piece-end b.isize r.0 b.max_items (omega (arith, r.1, v.flagged)) in
    let e : q ≡ b.base + 28 + r.0 * b.isize = omega (arith, r.2) in
    let last : q < b.base + b.block_size_bytes = omega (arith, e, within, v.filled, v.some_size) in
    let offset : q - 4 - items_of b ≡ r.0 * b.isize = omega (arith, e) in
    (
      ground (arith, e, last),
      rw (offset, mul-mod_left r.0 b.isize) (ground (arith, e)),
      omega (arith, e),
      last,
    )
