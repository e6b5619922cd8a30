-- ===== src/MemBlock/Free.antt =====
-- What mb_free of mylib/mem_block.c takes back.
use glu_ke.Base.{
  ℕ, ◌≡◌, refl, ap, sym, ◌∙◌, inl, inr, Bool, true, false, not, ◌&&◌, ◌||◌, List, [], ◌∷◌, arith,
  ◌==◌, All, Bool-cases,
}
use glu_ke.Base.Int.{ℤ, pos, eq_ℤ, ok_code}
use glu_ke.Rgn.{Rgn}
use glu_ke.MemBlock.{Block, items_of, free_here, free_from, mb_free, lies_in, is_item}
use glu_ke.MemBlock.Slots.{count_used, used_at-none}
use glu_ke.MemBlock.Sound.{IsBlock, used_in, free_here-Given, used_in-place}
use glu_ke.MemBlock.Chain.{Away, IsChain, used, Away-unused, used-apart}

-- The chain `bs'` has the items of `bs` in use but `q`.
pub record Shrunk (bs : List Block) (q : ℕ) (out : ℤ × List Block × Rgn) : Type 0 where
  pub succeeds : out.0 ≡ ok_code
  pub less : (r : ℕ) → used out.1 r ≡ (used bs r && not (q == r))
  pub kept : IsChain out.1

free_from-Away :
    (x n : ℕ) (first : Bool) (q : ℕ) (bs : List Block) (s : Rgn)
    → All (Away x n) bs
    → All (Away x n) (free_from first q bs s).1
unfolding free_from free_here
free_from-Away x n first q [] s a = tt
free_from-Away x n first q (b ∷ bs) s a = elim (Bool-cases (lies_in q b)) [
  | inr outside ↦ rw (free_from, outside) (a.0, free_from-Away x n false q bs s a.1)
  | inl there ↦ elim (Bool-cases (is_item q b)) [
    | inr no_item ↦ rw (free_from, there, no_item) a
    | inl item ↦ elim (Bool-cases (eq_ℤ (free_here q b).used_items (pos 0) && not first)) [
      | inl empty ↦ rw (free_from, there, item, empty) (a.1)
      | inr busy ↦ rw (free_from, there, item, busy) (a.0, a.1)
    ]
  ]
]

-- A block without items in use.
empty_block :
    (b : Block) (r : ℕ) → IsBlock b → eq_ℤ b.used_items (pos 0) ≡ true → used_in b r ≡ false
empty_block b r v e =
    let e' : eq_ℤ (pos (count_used b.flags)) (pos 0) ≡ true =
      ap (λ (z : ℤ). eq_ℤ z (pos 0)) (sym v.counted) ∙ e in
    used_at-none b.isize (items_of b) b.flags r (ground arith)

always : (b : Bool) → b ≡ (b && true)
always true = refl
always false = refl

keep : (f : ℕ → Bool) (q r : ℕ) → f q ≡ false → f r ≡ (f r && not (q == r))
keep f q r out = elim (Bool-cases (q == r)) [
  | inl same ↦
      let e : q ≡ r = ground arith in let out' : f r ≡ false = rw (sym e) out in rw out' refl
  | inr other ↦ rw other (always (f r))
]

distribute : (u w n : Bool) → (u && n || w && n) ≡ ((u || w) && n)
distribute true w true = refl
distribute true true false = refl
distribute true false false = refl
distribute false w n = refl

spread : (u' w' u w n : Bool) → u' ≡ (u && n) → w' ≡ (w && n) → (u' || w') ≡ ((u || w) && n)
spread u' w' u w n e k = rw (e, k) (distribute u w n)

-- An item in use behind block `b` does not lie in it.
outside_first :
    (b : Block) (bs : List Block) (q : ℕ)
    → IsChain (b ∷ bs)
    → used bs q ≡ true
    → lies_in q b ≡ false
outside_first b bs q v h = elim (Bool-cases (lies_in q b)) [
  | inr outside ↦ outside
  | inl inside ↦
      let e =
        Away-unused b.base b.block_size_bytes bs q v.blocks.1 v.separate.0 (ground arith)
          (ground arith) in
      cc
]

-- The item `q` lies in the first of the blocks.
item_here-Shrunk :
    (first : Bool) (q : ℕ) (b : Block) (bs : List Block) (s : Rgn)
    → IsChain (b ∷ bs)
    → used_in b q ≡ true
    → Shrunk (b ∷ bs) q (free_from first q (b ∷ bs) s)
unfolding free_from free_here
item_here-Shrunk first q b bs s v h =
    let place = used_in-place b q v.blocks.0 h in
    let g = free_here-Given b q v.blocks.0 h in
    let apart = used-apart b bs q v.blocks.0 v.blocks.1 v.separate.0 h in
    elim (Bool-cases (eq_ℤ (free_here q b).used_items (pos 0) && not first)) [
      | inl empty ↦
          let gone = λ (r : ℕ). empty_block (free_here q b) r g.kept (ground arith) in
          rw (free_from, place.0, place.1, empty)
            (record {
              succeeds = refl;
              less = λ r.
                  spread false (used bs r) (used_in b r) (used bs r) (not (q == r))
                    (sym (gone r) ∙ g.used r) (keep (used bs) q r apart);
              kept = record { blocks = v.blocks.1; separate = v.separate.1 };
            })
      | inr busy ↦
          rw (free_from, place.0, place.1, busy)
            (record {
              succeeds = refl;
              less = λ r.
                  spread (used_in (free_here q b) r) (used bs r) (used_in b r) (used bs r)
                    (not (q == r)) (g.used r) (keep (used bs) q r apart);
              kept = record { blocks = (g.kept, v.blocks.1); separate = v.separate };
            })
    ]

free_from-Shrunk :
    (first : Bool) (q : ℕ) (bs : List Block) (s : Rgn)
    → IsChain bs
    → used bs q ≡ true
    → Shrunk bs q (free_from first q bs s)
unfolding free_from
free_from-Shrunk first q [] s v h = cc
free_from-Shrunk first q (b ∷ bs) s v h = elim (Bool-cases (used_in b q)) [
  | inl here ↦ item_here-Shrunk first q b bs s v here
  | inr not_here ↦
      let tail : IsChain bs = record { blocks = v.blocks.1; separate = v.separate.1 } in
      let there : used bs q ≡ true = rw not_here at h in
      let r = free_from-Shrunk false q bs s tail there in
      let away = free_from-Away b.base b.block_size_bytes false q bs s v.separate.0 in
      rw (free_from, outside_first b bs q v there)
        (record {
          succeeds = r.succeeds;
          less = λ x.
              spread (used_in b x) (used (free_from false q bs s).1 x) (used_in b x) (used bs x)
                (not (q == x)) (keep (used_in b) q x not_here) (r.less x);
          kept = record {
            blocks = (v.blocks.0, r.kept.blocks);
            separate = (away, r.kept.separate);
          };
        })
]

-- mb_free of an item in use succeeds, takes exactly this item out of use and keeps the counts.
pub mb_free-Shrunk :
    (q : ℕ) (bs : List Block) (s : Rgn)
    → IsChain bs
    → used bs q ≡ true
    → Shrunk bs q (mb_free q bs s)
unfolding mb_free
mb_free-Shrunk q bs s v h = free_from-Shrunk true q bs s v h
