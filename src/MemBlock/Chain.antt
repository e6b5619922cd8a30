-- ===== src/MemBlock/Chain.antt =====
-- The list of blocks of mylib/mem_block.c: a set of items in use, which mb_alloc makes larger by one
-- and mb_free smaller by one.
use glu_ke.Base.{
  ℕ, ◌+◌, ◌<◌, ◌≤◌, ◌≡◌, refl, ◌⊎◌, inl, inr, Bool, true, false, ◌||◌, List, [], ◌∷◌, arith, All,
  Bool-cases,
}
use glu_ke.MemBlock.{Block}
use glu_ke.MemBlock.Sound.{IsBlock, used_in, used_in-place}

-- A block and the bytes from `base` on have no address in common.
abbrev pub Away : ℕ → ℕ → Block → Type 0
Away base bytes b = (base + bytes ≤ b.base) ⊎ (b.base + b.block_size_bytes ≤ base)

abbrev pub Separate : List Block → Type 0
Separate [] = Unit {0}
Separate (b ∷ bs) = All (Away b.base b.block_size_bytes) bs × Separate bs

pub record IsChain (bs : List Block) : Type 0 where
  pub blocks : All IsBlock bs
  pub separate : Separate bs

-- Whether `q` is the address of an item in use.
abbrev pub used : List Block → ℕ → Bool
used [] q = false
used (b ∷ bs) q = used_in b q || used bs q

Away-other :
    (base bytes : ℕ) (b : Block) (q : ℕ)
    → IsBlock b
    → Away base bytes b
    → used_in b q ≡ true
    → (q ≤ base) ⊎ (base + bytes ≤ q)
Away-other base bytes b q v (inl before) h =
    let p = used_in-place b q v h in inr (omega (arith, p.2, before))
Away-other base bytes b q v (inr behind) h =
    let p = used_in-place b q v h in inl (omega (arith, p.3, behind))

pub Away-unused :
    (base bytes : ℕ) (bs : List Block) (q : ℕ)
    → All IsBlock bs
    → All (Away base bytes) bs
    → base < q
    → q < base + bytes
    → used bs q ≡ false
Away-unused base bytes [] q v a h h' = refl
Away-unused base bytes (b ∷ bs) q v a h h' = elim (Bool-cases (used_in b q)) [
  | inr unused ↦ rw unused (Away-unused base bytes bs q v.1 a.1 h h')
  | inl here ↦ elim (Away-other base bytes b q v.0 a.0 here) [
    | inl low ↦ absurd (omega arith)
    | inr high ↦ absurd (omega arith)
  ]
]

-- An item in use in one block is in use in no other.
pub used-apart :
    (b : Block) (bs : List Block) (q : ℕ)
    → IsBlock b
    → All IsBlock bs
    → All (Away b.base b.block_size_bytes) bs
    → used_in b q ≡ true
    → used bs q ≡ false
used-apart b bs q v vs a h =
    let p = used_in-place b q v h in Away-unused b.base b.block_size_bytes bs q vs a p.2 p.3

pub unused-apart :
    (b : Block) (bs : List Block) (q : ℕ)
    → IsBlock b
    → All IsBlock bs
    → All (Away b.base b.block_size_bytes) bs
    → used bs q ≡ true
    → used_in b q ≡ false
unused-apart b bs q v vs a h = elim (Bool-cases (used_in b q)) [
  | inr unused ↦ unused
  | inl here ↦ absurd (let e = used-apart b bs q v vs a here in cc)
]
