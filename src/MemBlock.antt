-- ===== src/MemBlock.antt =====
-- mylib/mem_block.c: blocks of items of one size. The blocks that `next_block` links are a list, the
-- first one in front; a block's memory is the `int` in front of each item, 0 for a free item. The
-- memory comes from gluKe/rgn.c. Behind mb_init, addresses and sizes stay below 2 ^ 31. The sections that the calls
-- enter they leave again.
pub mod Slots
pub mod Sound
pub mod Chain
pub mod Alloc
pub mod Free
pub mod Init
mod Tests
use glu_ke.Base.{
  ℕ, zero, suc, ◌+◌, ◌-◌, ◌*◌, ◌/◌, ◌%◌, ◌^◌, Bool, true, false, not, ◌&&◌, Option, none, some,
  List, [], ◌∷◌, ltb, leb, ◌==◌, if◌then◌else◌, replicate, set,
}
use glu_ke.Base.Int.{ℤ, pos, negsuc, ok_code, fail_code, eq_ℤ, ◌+ℤ◌, to_int}
use glu_ke.Rgn.{Rgn, word, to_page_size, rgn_alloc, rgn_free}

-- struct mem_block, at address `base`, with the flags of its items.
pub record Block : Type 0 where
  pub base : ℕ
  pub isize : ℕ
  pub used_items : ℤ
  pub max_items : ℕ
  pub block_size_bytes : ℕ
  pub flags : List ℕ

-- sizeof(struct mem_block) on the 32-bit machine.
abbrev pub header_size : ℕ
header_size = 24

-- `items`
abbrev pub items_of : Block → ℕ
items_of b = b.base + header_size

-- The size that mb_init asks for, as a word, with `isize` the size of an item and its flag. The
-- product of the two `int` wraps.
unfoldable pub init_size : ℕ → ℕ → ℕ
init_size isize items_in_block =
    let bytes = word (to_page_size (word (isize * items_in_block + header_size))) in
    word (bytes + 2 ^ 32 - word (bytes + 2 ^ 32 - header_size) % isize)

-- A block whose bytes have been cleared.
unfoldable pub cleared : ℕ → ℕ → ℕ → ℕ → Block
cleared base isize max_items bytes = record {
  base = base;
  isize = isize;
  used_items = pos 0;
  max_items = max_items;
  block_size_bytes = bytes;
  flags = replicate max_items 0;
}

-- The list has no block if there is no memory. The arguments are words.
pub mb_init : ℤ → ℕ → ℕ → Rgn → List Block × Rgn
unfolding init_size cleared
mb_init cur isize items_in_block s =
    let size = word (isize + 4) in
    let bytes = init_size size items_in_block in
    let (base, s') = rgn_alloc cur (to_int bytes) s in
    if base == 0
    then ([], s')
    else (cleared base size (word (bytes + 2 ^ 32 - header_size) / size) bytes ∷ [], s')

pub mb_destroy : List Block → Rgn → Rgn
mb_destroy [] s = s
mb_destroy (b ∷ bs) s = mb_destroy bs (rgn_free b.base s).1

-- The search for a free item from the one at `p` on; the address behind its flag and the flags.
unfoldable pub take_slot : ℕ → ℕ → List ℕ → Option (ℕ × List ℕ)
take_slot isize p [] = none
take_slot isize p (f ∷ fs) =
    let rest = take_slot isize (p + isize) fs in
    if f == 0
    then some (p + 4, 1 ∷ fs)
    else elim rest [ none ↦ none | some (q, fs') ↦ some (q, f ∷ fs') ]

abbrev pub lt_ℤ : ℤ → ℕ → Bool
lt_ℤ (pos a) n = ltb a n
lt_ℤ (negsuc a) n = true

-- The loop of mb_alloc in a block that has room; 0 where its flags say otherwise.
unfoldable pub alloc_here : Block → ℕ × Block
unfolding take_slot
alloc_here b = elim (take_slot b.isize (items_of b) b.flags) [
  | none ↦ (0, b)
  | some (q, fs) ↦ (q, record b { used_items = b.used_items +ℤ pos 1; flags = fs })
]

-- A new block of the kind of `b`, its first item in use.
unfoldable pub fresh_block : ℕ → Block → Block
unfolding cleared
fresh_block base b =
    let c = cleared base b.isize b.max_items b.block_size_bytes in
    record c { used_items = pos 1; flags = set c.flags 0 1 }

-- The loop of mb_alloc from block `b` on, with the blocks behind it.
unfoldable pub alloc_from : ℤ → Block → List Block → Rgn → ℕ × List Block × Rgn
unfolding alloc_here fresh_block
alloc_from cur b [] s =
    let (base, s') = rgn_alloc cur (pos b.block_size_bytes) s in
    let (q, b') = alloc_here b in
    if lt_ℤ b.used_items b.max_items
    then (q, b' ∷ [], s)
    else if base == 0
    then (0, b ∷ [], s')
    else (items_of (fresh_block base b) + 4, b ∷ fresh_block base b ∷ [], s')
alloc_from cur b (b2 ∷ bs) s =
    let (q, b') = alloc_here b in
    let rest = alloc_from cur b2 bs s in
    if lt_ℤ b.used_items b.max_items then (q, b' ∷ b2 ∷ bs, s) else (rest.0, b ∷ rest.1, rest.2)

pub mb_alloc : ℤ → List Block → Rgn → ℕ × List Block × Rgn
unfolding alloc_from
mb_alloc cur [] s = (0, [], s)
mb_alloc cur (b ∷ bs) s = alloc_from cur b bs s

-- The write of 0 to the flag in front of `q`.
unfoldable pub clear_slot : ℕ → ℕ → List ℕ → ℕ → List ℕ
clear_slot isize p [] q = []
clear_slot isize p (f ∷ fs) q = if p + 4 == q then 0 ∷ fs else f ∷ clear_slot isize (p + isize) fs q

abbrev pub lies_in : ℕ → Block → Bool
lies_in q b = ltb (items_of b) q && ltb q (b.base + b.block_size_bytes)

-- Below the first item the difference in the source is negative and above -4, no multiple of an
-- item's size.
abbrev pub is_item : ℕ → Block → Bool
is_item q b = leb (items_of b + 4) q && (q - 4 - items_of b) % b.isize == 0

unfoldable pub free_here : ℕ → Block → Block
unfolding clear_slot
free_here q b = record b {
  used_items = b.used_items +ℤ negsuc 0;
  flags = clear_slot b.isize (items_of b) b.flags q;
}

-- The loop of mb_free from a block on; `first` where there is no block in front.
unfoldable pub free_from : Bool → ℕ → List Block → Rgn → ℤ × List Block × Rgn
unfolding free_here
free_from first q [] s = (fail_code, [], s)
free_from first q (b ∷ bs) s =
    let b' = free_here q b in
    let rest = free_from false q bs s in
    if lies_in q b
    then (if is_item q b
        then (if eq_ℤ b'.used_items (pos 0) && not first
            then (ok_code, bs, (rgn_free b.base s).1)
            else (ok_code, b' ∷ bs, s))
        else (fail_code, b ∷ bs, s))
    else (rest.0, b ∷ rest.1, rest.2)

pub mb_free : ℕ → List Block → Rgn → ℤ × List Block × Rgn
unfolding free_from
mb_free q bs s = free_from true q bs s
