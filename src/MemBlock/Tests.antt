-- ===== src/MemBlock/Tests.antt =====
-- Blocks of three items, the first of them full (mylib/mem_block.c).
use glu_ke.Base.{ℕ, ◌≤◌, ◌≡◌, ◌≢◌, ◌⊎◌, refl, inr, false, [], ◌∷◌, All, arith}
use glu_ke.Base.Find.{find_index}
use glu_ke.Base.Int.{pos}
use glu_ke.Rgn.{Rgn, rgn_alloc, alloc_basic, alloc_found, count_pages, to_page_size, unused}
use glu_ke.MemBlock.{Block, init_size, mb_init, mb_alloc, mb_free}
use glu_ke.MemBlock.Chain.{IsChain, Away, used}
use glu_ke.MemBlock.Alloc.{Answer, new_base, mb_alloc-Answer}
use glu_ke.MemBlock.Free.{Shrunk, mb_free-Shrunk}
use glu_ke.MemBlock.Init.{asked, mb_init-IsChain}

abbrev full_block : Block
full_block = record {
  base = 0x1000;
  isize = 12;
  used_items = pos 3;
  max_items = 3;
  block_size_bytes = 60;
  flags = 1 ∷ 1 ∷ 1 ∷ [];
}

-- One free page, at 0x4000, and room for one entry.
abbrev one_page : Rgn
one_page = record {
  free_als = record { base = 0x4000; nof_pages = 1; task_id = pos 0 } ∷ [];
  reserved_als = unused ∷ [];
}

full_block-IsChain : IsChain (full_block ∷ [])
full_block-IsChain = record {
  blocks = (
    record {
      counted = refl;
      flagged = refl;
      filled = refl;
      some_size = omega arith;
      some_item = omega arith;
    },
    tt,
  );
  separate = (tt, tt);
}

page_at : new_base (pos 1) full_block [] one_page ≡ 0x4000
unfolding rgn_alloc alloc_basic alloc_found count_pages to_page_size find_index
page_at = refl

page_apart :
    new_base (pos 1) full_block [] one_page ≢ 0
    → All (Away (new_base (pos 1) full_block [] one_page) 60) (full_block ∷ [])
page_apart some_base = (inr (omega (arith, page_at)), tt)

mb_alloc-Answer_example :
    Answer
      (new_base (pos 1) full_block [] one_page)
      (full_block ∷ [])
      (mb_alloc (pos 1) (full_block ∷ []) one_page)
mb_alloc-Answer_example =
    mb_alloc-Answer (pos 1) full_block [] one_page full_block-IsChain page_apart

mb_free-Shrunk_example : Shrunk (full_block ∷ []) 0x1028 (mb_free 0x1028 (full_block ∷ []) one_page)
mb_free-Shrunk_example = mb_free-Shrunk 0x1028 (full_block ∷ []) one_page full_block-IsChain refl

mb_init-IsChain_example :
    let bytes = asked 12 50 in
    let memory = rgn_alloc (pos 1) (pos bytes) one_page in
    let out = mb_init (pos 1) 8 50 one_page in
    (out.1 ≡ memory.1)
    × (((memory.0 ≡ 0) × (out.0 ≡ []))
        ⊎ ((memory.0 ≢ 0)
            × (b : Block) × (out.0 ≡ b ∷ [])
            × (b.base ≡ memory.0)
            × (b.block_size_bytes ≡ bytes)
            × (b.isize ≡ 12)
            × (50 ≤ b.max_items)
            × IsChain (b ∷ [])
            × ((q : ℕ) → used (b ∷ []) q ≡ false)))
mb_init-IsChain_example =
    mb_init-IsChain (pos 1) 8 50 one_page (omega arith) (omega arith) (omega arith)

-- 65536 items of 65532 bytes, with their flags: the product wraps to 0, and the block has no room.
wraps : init_size 65536 65536 ≡ 24
unfolding init_size to_page_size
wraps = refl
