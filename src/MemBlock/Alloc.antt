-- ===== src/MemBlock/Alloc.antt =====
-- What mb_alloc of mylib/mem_block.c gives.
use glu_ke.Base.{
  ℕ, ◌+◌, ◌≡◌, ◌≢◌, refl, ap, ◌∙◌, ◌⊎◌, inl, inr, true, false, ◌||◌, List, [], ◌∷◌, arith, ◌==◌,
  All, Bool-cases, Option-cases,
}
use glu_ke.Base.Int.{ℤ, pos}
use glu_ke.Rgn.{Rgn, rgn_alloc}
use glu_ke.MemBlock.{
  Block, cleared, items_of, lt_ℤ, alloc_here, alloc_from, mb_alloc, fresh_block, take_slot,
}
use glu_ke.MemBlock.Sound.{used_in, alloc_here-Got, fresh_block-IsBlock}
use glu_ke.MemBlock.Chain.{Away, IsChain, used, used-apart, unused-apart}

-- The chain `bs'` has the item `q` in use besides the ones of `bs`.
pub record Grown (bs : List Block) (q : ℕ) (bs' : List Block) : Type 0 where
  pub some_address : q ≢ 0
  pub free : used bs q ≡ false
  pub more : (r : ℕ) → used bs' r ≡ (q == r || used bs r)
  pub kept : IsChain bs'

alloc_here-extent :
    (b : Block)
    → ((alloc_here b).1.base ≡ b.base) × ((alloc_here b).1.block_size_bytes ≡ b.block_size_bytes)
unfolding alloc_here
alloc_here-extent b = elim (Option-cases (take_slot b.isize (items_of b) b.flags)) [
  | inl e ↦ rw (alloc_here, e) (refl, refl)
  | inr e ↦ rw (alloc_here, e.1) (refl, refl)
]

Away-move :
    (base bytes : ℕ) (b b' : Block)
    → b'.base ≡ b.base
    → b'.block_size_bytes ≡ b.block_size_bytes
    → Away base bytes b
    → Away base bytes b'
Away-move base bytes b b' e e' a = rw (e, e') a

Aways-move :
    (b b' : Block) (bs : List Block)
    → b'.base ≡ b.base
    → b'.block_size_bytes ≡ b.block_size_bytes
    → All (Away b.base b.block_size_bytes) bs
    → All (Away b'.base b'.block_size_bytes) bs
Aways-move b b' bs e e' a = rw (e, e') a

-- The block found has a free item.
item_here-Grown :
    (b : Block) (bs : List Block)
    → IsChain (b ∷ bs)
    → lt_ℤ b.used_items b.max_items ≡ true
    → Grown (b ∷ bs) (alloc_here b).0 ((alloc_here b).1 ∷ bs)
item_here-Grown b bs v room =
    let g = alloc_here-Got b v.blocks.0 room in
    let q = (alloc_here b).0 in
    let aways = Aways-move b (alloc_here b).1 bs g.same_base g.same_size v.separate.0 in
    let there : used_in (alloc_here b).1 q ≡ true = g.used q ∙ ground arith in
    let apart = used-apart (alloc_here b).1 bs q g.kept v.blocks.1 aways there in
    record {
      some_address = g.some_address;
      free = rw (g.free, apart) refl;
      more = λ r. rw (g.used r) (ground arith);
      kept = record { blocks = (g.kept, v.blocks.1); separate = (aways, v.separate.1) };
    }

-- The answer and the chain that mb_alloc leaves: an item, or 0 and no change where the allocator
-- has given 0 for the new block.
abbrev pub Answer : ℕ → List Block → ℕ × List Block × Rgn → Type 0
Answer base bs out = ((out.0 ≡ 0) × (out.1 ≡ bs) × (base ≡ 0)) ⊎ Grown bs out.0 out.1

-- The block that mb_alloc would append, if `base` is the address that it gets.
abbrev pub last_of : Block → List Block → Block
last_of b [] = b
last_of b (b2 ∷ bs) = last_of b2 bs

abbrev pub new_base : ℤ → Block → List Block → Rgn → ℕ
new_base cur b bs s = (rgn_alloc cur (pos (last_of b bs).block_size_bytes) s).0

-- The bytes from `x` on keep away from the chain if they do from the old and the new blocks.
alloc_from-Away :
    (x n : ℕ) (cur : ℤ) (b : Block) (bs : List Block) (s : Rgn)
    → All (Away x n) (b ∷ bs)
    → (new_base cur b bs s ≢ 0 → Away x n (fresh_block (new_base cur b bs s) (last_of b bs)))
    → All (Away x n) (alloc_from cur b bs s).1
unfolding alloc_from
alloc_from-Away x n cur b [] s a f = elim (Bool-cases (lt_ℤ b.used_items b.max_items)) [
  | inl room ↦
      let e = alloc_here-extent b in
      rw (alloc_from, room) (Away-move x n b (alloc_here b).1 e.0 e.1 a.0, tt)
  | inr full ↦ elim (Bool-cases (new_base cur b [] s == 0)) [
    | inl out_of_memory ↦ rw (alloc_from, full, out_of_memory) a
    | inr got ↦ rw (alloc_from, full, got) (a.0, (f (ground arith), tt))
  ]
]
alloc_from-Away x n cur b (b2 ∷ bs) s a f = elim (Bool-cases (lt_ℤ b.used_items b.max_items)) [
  | inl room ↦
      let e = alloc_here-extent b in
      rw (alloc_from, room) (Away-move x n b (alloc_here b).1 e.0 e.1 a.0, a.1)
  | inr full ↦ rw (alloc_from, full) (a.0, alloc_from-Away x n cur b2 bs s a.1 f)
]

Away-flip :
    (base : ℕ) (b b' : Block)
    → Away base b'.block_size_bytes b
    → Away b.base b.block_size_bytes (fresh_block base b')
unfolding fresh_block cleared
Away-flip base b b' (inl before) = inr before
Away-flip base b b' (inr behind) = inl behind

new_block-Grown :
    (base : ℕ) (b : Block)
    → IsChain (b ∷ [])
    → Away base b.block_size_bytes b
    → Grown (b ∷ []) (items_of (fresh_block base b) + 4) (b ∷ fresh_block base b ∷ [])
unfolding fresh_block cleared
new_block-Grown base b v away =
    let c = fresh_block base b in
    let q = items_of c + 4 in
    let f = fresh_block-IsBlock base b v.blocks.0 in
    let there : used_in c q ≡ true = f.1 q ∙ ground arith in
    let aways : All (Away b.base b.block_size_bytes) (c ∷ []) = (Away-flip base b b away, tt) in
    let apart = unused-apart b (c ∷ []) q v.blocks.0 (f.0, tt) aways (rw there refl) in
    record {
      some_address = omega arith;
      free = rw apart refl;
      more = λ r. rw (f.1 r) (ground arith);
      kept = record { blocks = (v.blocks.0, (f.0, tt)); separate = (aways, (tt, tt)) };
    }

tail-Grown :
    (b : Block) (bs : List Block) (q : ℕ) (bs' : List Block)
    → IsChain (b ∷ bs)
    → All (Away b.base b.block_size_bytes) bs'
    → Grown bs q bs'
    → Grown (b ∷ bs) q (b ∷ bs')
tail-Grown b bs q bs' v away g =
    let apart = unused-apart b bs' q v.blocks.0 g.kept.blocks away (g.more q ∙ ground arith) in
    record {
      some_address = g.some_address;
      free = rw (apart, g.free) refl;
      more = λ r. rw (g.more r) (ground arith);
      kept = record { blocks = (v.blocks.0, g.kept.blocks); separate = (away, g.kept.separate) };
    }

alloc_from-Answer :
    (cur : ℤ) (b : Block) (bs : List Block) (s : Rgn)
    → IsChain (b ∷ bs)
    → (new_base cur b bs s ≢ 0
        → All (Away (new_base cur b bs s) (last_of b bs).block_size_bytes) (b ∷ bs))
    → Answer (new_base cur b bs s) (b ∷ bs) (alloc_from cur b bs s)
unfolding alloc_from
alloc_from-Answer cur b [] s v f = elim (Bool-cases (lt_ℤ b.used_items b.max_items)) [
  | inl room ↦ rw (alloc_from, room) (inr (item_here-Grown b [] v room))
  | inr full ↦ elim (Bool-cases (new_base cur b [] s == 0)) [
    | inl out_of_memory ↦ rw (alloc_from, full, out_of_memory) (inl (refl, refl, ground arith))
    | inr got ↦
        let away = f (ground arith) in
        rw (alloc_from, full, got) (inr (new_block-Grown (new_base cur b [] s) b v away.0))
  ]
]
alloc_from-Answer cur b (b2 ∷ bs) s v f = elim (Bool-cases (lt_ℤ b.used_items b.max_items)) [
  | inl room ↦ rw (alloc_from, room) (inr (item_here-Grown b (b2 ∷ bs) v room))
  | inr full ↦
      let tail : IsChain (b2 ∷ bs) = record { blocks = v.blocks.1; separate = v.separate.1 } in
      let away =
        alloc_from-Away b.base b.block_size_bytes cur b2 bs s v.separate.0
          (λ some_base. Away-flip _ b (last_of b2 bs) (f some_base).0) in
      elim (alloc_from-Answer cur b2 bs s tail (λ some_base. (f some_base).1)) [
        | inl none_got ↦
            rw (alloc_from, full)
              (inl (none_got.0, ap (λ (x : List Block). b ∷ x) none_got.1, none_got.2))
        | inr g ↦ rw (alloc_from, full) (inr (tail-Grown b (b2 ∷ bs) _ _ v away g))
      ]
]

-- On a chain whose counts fit its flags, mb_alloc returns the address of an item that was not in
-- use and is in use from now on, and no other item changes; or it returns 0 and changes no block, which happens
-- only if the allocator returns 0. A new block from the allocator must not overlap the old ones.
pub mb_alloc-Answer :
    (cur : ℤ) (b : Block) (bs : List Block) (s : Rgn)
    → IsChain (b ∷ bs)
    → (new_base cur b bs s ≢ 0
        → All (Away (new_base cur b bs s) (last_of b bs).block_size_bytes) (b ∷ bs))
    → Answer (new_base cur b bs s) (b ∷ bs) (mb_alloc cur (b ∷ bs) s)
unfolding mb_alloc
mb_alloc-Answer cur b bs s v f = alloc_from-Answer cur b bs s v f
