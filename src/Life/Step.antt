-- ===== src/Life/Step.antt =====
-- One generation of mylib/life.c is one step of the game on the torus, and the loop plays it.
use glu_ke.Base.{
  ℕ, zero, suc, ◌+◌, ◌*◌, ◌<◌, ◌≤◌, ◌≡◌, refl, ◌∙◌, inl, inr, false, Option, none, some, List,
  arith, ◌==◌, if◌then◌else◌, Bool-cases, not,
}
use glu_ke.Base.Int.{ℤ, pos, eq_ℤ}
use glu_ke.Life.{Arena, write, count_loop, rule, rule_loop, generation, play, st_life}
use glu_ke.Life.Shapes.{LifeObject, mark_all, shape_of}
use glu_ke.Life.Torus.{
  Board, around, before, after, neighbours, lives, next_board, row_of-lt, before-lt, after-lt,
}
use glu_ke.Life.Count.{alive_in, count_loop-alive}

-- The second loop applies the rule to each cell and clears its count.
rule_loop-before :
    (n k i : ℕ) (a c : Arena)
    → i < k
    → ((rule_loop n k a c).0 i ≡ a i) × ((rule_loop n k a c).1 i ≡ c i)
unfolding rule_loop write
rule_loop-before zero k i a c h = (refl, refl)
rule_loop-before (suc n) k i a c h =
    let ih =
      rule_loop-before n (k + 1) i (write a k (rule (a k) (c k))) (write c k 0) (omega arith) in
    let other : (i == k) ≡ false = ground arith in (ih.0 ∙ rw other refl, ih.1 ∙ rw other refl)

rule_loop-at :
    (n k i : ℕ) (a c : Arena)
    → k ≤ i
    → i < k + n
    → ((rule_loop n k a c).0 i ≡ rule (a i) (c i)) × ((rule_loop n k a c).1 i ≡ 0)
unfolding rule_loop write
rule_loop-at zero k i a c h h' = absurd (omega arith)
rule_loop-at (suc n) k i a c h h' = elim (Bool-cases (i == k)) [
  | inl same ↦
      let e : i ≡ k = ground arith in
      let r =
        rule_loop-before n (k + 1) i (write a k (rule (a k) (c k))) (write c k 0) (omega arith) in
      (r.0 ∙ rw (same, e) refl, r.1 ∙ rw same refl)
  | inr other ↦
      let r =
        rule_loop-at n (k + 1) i (write a k (rule (a k) (c k))) (write c k 0) (ground arith)
          (omega arith) in
      (r.0 ∙ rw other refl, r.1)
]

rule-lives : (v n : ℕ) → not (rule v n == 0) ≡ lives (not (v == 0)) n
unfolding rule
rule-lives v n = ground arith

-- The arenas of the code show a board: the first has its living cells, the counts are clear.
pub record Shows (w h : ℕ) (s : Arena × Arena) (b : Board) : Type 0 where
  pub cells : (r c : ℕ) → r < h → c < w → not (s.0 (r * w + c) == 0) ≡ b r c
  pub clear : (r c : ℕ) → r < h → c < w → s.1 (r * w + c) ≡ 0

alive_in-neighbours :
    (w h : ℕ) (s : Arena × Arena) (b : Board) (r c : ℕ)
    → Shows w h s b
    → r < h
    → c < w
    → alive_in s.0 (around w h r c) ≡ neighbours w h b r c
unfolding neighbours
alive_in-neighbours w h s b r c v hr hc =
    let u = before-lt h r hr in
    let d = after-lt h r hr in
    let l = before-lt w c hc in
    let g = after-lt w c hc in
    rw
      (
        v.cells (before h r) (before w c) u l,
        v.cells (before h r) c u hc,
        v.cells (before h r) (after w c) u g,
        v.cells r (before w c) hr l,
        v.cells r (after w c) hr g,
        v.cells (after h r) (before w c) d l,
        v.cells (after h r) c d hc,
        v.cells (after h r) (after w c) d g,
      )
      (omega arith)

-- A generation of the code, its counts in bytes and its way around the edges, is a step of the
-- game: arenas that show a board show the next one afterwards, with the counts cleared again.
pub generation-Shows :
    (w h : ℕ) (s : Arena × Arena) (b : Board)
    → Shows w h s b
    → Shows w h (generation w h s) (next_board w h b)
unfolding generation next_board
generation-Shows w h s b v =
    let counted = count_loop w (w * h) s.0 (w * h) 0 0 s.1 in
    record {
      cells = λ r c hr hc.
          let i = row_of-lt w h r c hr hc in
          let at_cell =
            rule_loop-at (w * h) 0 (r * w + c) s.0 counted (omega arith) (omega (arith, i)) in
          let count =
            count_loop-alive w h s.0 r c s.1 hr hc (v.clear r c hr hc)
            ∙ alive_in-neighbours w h s b r c v hr hc in
          rw (at_cell.0, count, rule-lives, v.cells r c hr hc) refl;
      clear = λ r c hr hc.
          let i = row_of-lt w h r c hr hc in
          (rule_loop-at (w * h) 0 (r * w + c) s.0 counted (omega arith) (omega (arith, i))).1;
    }

-- A callback that sees a board and not the arena.
module _ {S : Type 0} (w h : ℕ) (see : Board → S → ℤ × S) where
  -- The game: the callback sees one board after the other until it returns a number that is not 0.
  unfoldable pub play_boards : ℕ → Board → S → Option S
  play_boards zero b t = none
  play_boards (suc fuel) b t =
      let (r, t') = see b t in
      let rest = play_boards fuel (next_board w h b) t' in if eq_ℤ r (pos 0) then rest else some t'

  module _ (callback : Arena → ℕ → ℕ → S → ℤ × S)
      (faithful : (s : Arena × Arena) (b : Board) (t : S)
        → Shows w h s b
        → callback s.0 w h t ≡ see b t) where
    play-boards :
        (fuel : ℕ) (s : Arena × Arena) (b : Board) (t : S)
        → Shows w h s b
        → play callback fuel w h s t ≡ play_boards fuel b t
    unfolding play play_boards
    play-boards zero s b t v = refl
    play-boards (suc fuel) s b t v =
        let ih =
          play-boards fuel (generation w h s) (next_board w h b) (see b t).1
            (generation-Shows w h s b v) in
        rw (faithful s b t v, ih) refl

    -- If the objects stay in the arena, then st_life is the game, from the board that they form on:
    -- what a callback is shown that reads the arena as a board, and when it ends, is the same.
    pub st_life-boards :
        (fuel : ℕ) (objects : List LifeObject) (t : S) (a : Arena)
        → mark_all (w * h) (shape_of w objects) (λ i. 0) ≡ some a
        → st_life callback fuel w h objects t ≡ play_boards fuel (λ r c. not (a (r * w + c) == 0)) t
    unfolding st_life
    st_life-boards fuel objects t a e =
        rw (st_life, e)
          (play-boards fuel (a, λ i. 0) _ t
            (record { cells = λ r c hr hc. refl; clear = λ r c hr hc. refl }))
