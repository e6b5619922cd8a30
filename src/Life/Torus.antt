-- ===== src/Life/Torus.antt =====
-- The torus of mylib/life.c: the eight cells around a cell, and that the code finds them.
use glu_ke.Base.{
  ℕ, zero, suc, ◌+◌, ◌-◌, ◌*◌, ◌<◌, ◌≡◌, refl, ap, inl, inr, Bool, List, [], ◌∷◌, arith, ◌==◌,
  if◌then◌else◌, Bool-cases, piece-end, ◌&&◌, ◌||◌,
}
use glu_ke.Life.{row_start, target}

-- The line in front of line `i` of `n`, and the one behind it, around the edge.
abbrev pub before : ℕ → ℕ → ℕ
before n i = if i == 0 then n - 1 else i - 1

abbrev pub after : ℕ → ℕ → ℕ
after n i = if i + 1 == n then 0 else i + 1

-- The cells around the one in row `r` and column `c`, from the upper left to the lower right.
abbrev pub around : ℕ → ℕ → ℕ → ℕ → List ℕ
around w h r c =
    (before h r * w + before w c)
    ∷ (before h r * w + c)
    ∷ (before h r * w + after w c)
    ∷ (r * w + before w c)
    ∷ (r * w + after w c)
    ∷ (after h r * w + before w c)
    ∷ (after h r * w + c)
    ∷ (after h r * w + after w c)
    ∷ []

pub row_above :
    (w h r c : ℕ) → r < h → c < w → row_start w (w * h) (r * w + c) 0 ≡ before h r * w + c
unfolding row_start
row_above w zero r c hr hc = absurd (omega arith)
row_above w (suc h) zero c hr hc = ground arith
row_above w (suc h) (suc r) c hr hc = ground (arith, piece-end w (suc r) (suc h) hr)

pub row_same : (w h r c : ℕ) → r < h → c < w → row_start w (w * h) (r * w + c) 1 ≡ r * w + c
unfolding row_start
row_same w h r c hr hc = ground (arith, piece-end w r h hr)

pub row_below :
    (w h r c : ℕ) → r < h → c < w → row_start w (w * h) (r * w + c) 2 ≡ after h r * w + c
unfolding row_start
row_below w h r c hr hc = elim (Bool-cases (r + 1 == h)) [
  | inl last ↦ let e : h ≡ r + 1 = ground arith in rw (e) (ground arith)
  | inr inner ↦ ground (arith, piece-end w r h hr, piece-end w (r + 1) h (ground arith))
]

pub column_left : (w R c : ℕ) → c < w → target w c (R * w + c) 0 ≡ R * w + before w c
unfolding target
column_left w R c hc = ground arith

pub column_same : (w R c : ℕ) → c < w → target w c (R * w + c) 1 ≡ R * w + c
unfolding target
column_same w R c hc = ground arith

pub column_right : (w R c : ℕ) → c < w → target w c (R * w + c) 2 ≡ R * w + after w c
unfolding target
column_right w R c hc = ground arith

-- A cell has one row and one column.
cell_row : (w r c r' c' : ℕ) → c < w → c' < w → r * w + c ≡ r' * w + c' → (r ≡ r') × (c ≡ c')
cell_row w zero c zero c' h h' e = (refl, omega arith)
cell_row w zero c (suc r') c' h h' e = absurd (omega arith)
cell_row w (suc r) c zero c' h h' e = absurd (omega arith)
cell_row w (suc r) c (suc r') c' h h' e =
    let ih = cell_row w r c r' c' h h' (omega arith) in (ap suc ih.0, ih.1)

pub row_of-lt : (w h r c : ℕ) → r < h → c < w → r * w + c < w * h
row_of-lt w h r c hr hc = omega (arith, piece-end w r h hr)

pub same_cell :
    (w r c r' c' : ℕ) → c < w → c' < w → (r * w + c == r' * w + c') ≡ ((r == r') && (c == c'))
same_cell w r c r' c' h h' = elim (Bool-cases (r * w + c == r' * w + c')) [
  | inl same ↦
      let e = cell_row w r c r' c' h h' (ground arith) in rw (same) (ground (arith, e.0, e.1))
  | inr other ↦ elim (Bool-cases (r == r')) [
    | inl same_row ↦
        let e : r ≡ r' = ground arith in
        rw (other, same_row) (ground (arith, ap (λ (x : ℕ). x * w) e))
    | inr other_row ↦ rw (other, other_row) refl
  ]
]

pub before-flip : (n i j : ℕ) → i < n → j < n → (before n i == j) ≡ (after n j == i)
before-flip n i j hi hj = ground arith

pub after-flip : (n i j : ℕ) → i < n → j < n → (after n i == j) ≡ (before n j == i)
after-flip n i j hi hj = ground arith

pub before-lt : (n i : ℕ) → i < n → before n i < n
before-lt n i h = ground arith

pub after-lt : (n i : ℕ) → i < n → after n i < n
after-lt n i h = ground arith

-- The game itself: a board tells for each row and column whether the cell lives.
abbrev pub Board : Type 0
Board = ℕ → ℕ → Bool

abbrev pub one_if : Bool → ℕ
one_if b = if b then 1 else 0

-- How many of the eight cells around live.
unfoldable pub neighbours : ℕ → ℕ → Board → ℕ → ℕ → ℕ
neighbours w h b r c =
    let up = before h r in
    let down = after h r in
    let left = before w c in
    let right = after w c in
    one_if (b up left)
    + one_if (b up c)
    + one_if (b up right)
    + one_if (b r left)
    + one_if (b r right)
    + one_if (b down left)
    + one_if (b down c)
    + one_if (b down right)

-- With three living neighbours a cell lives, with two it stays as it is, otherwise it dies.
abbrev pub lives : Bool → ℕ → Bool
lives alive n = n == 3 || (alive && n == 2)

unfoldable pub next_board : ℕ → ℕ → Board → Board
unfolding neighbours
next_board w h b r c = lives (b r c) (neighbours w h b r c)
