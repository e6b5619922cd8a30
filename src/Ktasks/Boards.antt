-- ===== src/Ktasks/Boards.antt =====
-- The task of gluKe/ktasks/ktask_life.c shows the generations of the game.
use mathlib.Core.Option
use mathlib.Core.Path.{fun_ext}
use glu_ke.Base.{
  ℕ, zero, suc, ◌+◌, ◌*◌, ◌<◌, ◌≡◌, refl, true, not, Option, none, some, List, [], ◌∷◌, ◌++◌, arith,
  ◌==◌, if◌then◌else◌,
}
use glu_ke.Base.Int.{ℤ, pos, ok_code, eq_ℤ}
use glu_ke.File.{Driver, Files, read, write, ioctl}
use glu_ke.Console.{term_ioctl_show, term_ioctl_mode_terminal, term_ioctl_mode_picture}
use glu_ke.Life.{Arena, life}
use glu_ke.Life.Shapes.{LifeObject, life_objects, shape_of, mark_all}
use glu_ke.Life.Drawing.{drawn, inside, mark_all-drawn}
use glu_ke.Life.Torus.{Board}
use glu_ke.Life.Step.{Shows, play_boards, st_life-boards}
use glu_ke.Ktasks.LifeTask.{pixel, draw_row, draw_rows, callback_life, start_life, sample_numbered}

-- The cell of a board as a pixel: yellow where it lives.
abbrev pub cell : Board → ℕ → ℕ → List ℕ
cell b r c = c ∷ r ∷ 0xdb ∷ (if b r c then 0x0e else 0x02) ∷ []

-- The pixels of `n` cells of row `r` from column `c` on, and of `n` rows of `w` cells from row `r` on.
unfoldable pub row_picture : Board → ℕ → ℕ → ℕ → List (List ℕ)
row_picture b r c zero = []
row_picture b r c (suc n) = cell b r c ∷ row_picture b r (c + 1) n

unfoldable pub picture : ℕ → Board → ℕ → ℕ → List (List ℕ)
unfolding row_picture
picture w b r zero = []
picture w b r (suc n) = row_picture b r 0 w ++ picture w b (r + 1) n

-- The samples of the task fit the screen.
Fits : Option (List LifeObject) → Type 0
Fits none = Unit {0}
Fits (some sample) = inside 2000 (shape_of 80 (life_objects 80 25 sample)) ≡ true

all_fit : (n : ℕ) → Fits (sample_numbered n)
unfolding Fits sample_numbered shape_of life_objects
all_fit zero = refl
all_fit (suc zero) = refl
all_fit (suc (suc zero)) = refl
all_fit (suc (suc (suc zero))) = refl
all_fit (suc (suc (suc (suc n)))) =
    let e : sample_numbered (suc (suc (suc (suc n)))) ≡ none = ground arith in rw e tt

samples_fit :
    (n : ℕ) (sample : List LifeObject)
    → sample_numbered n ≡ some sample
    → inside 2000 (shape_of 80 (life_objects 80 25 sample)) ≡ true
unfolding Fits
samples_fit n sample e = let f = all_fit n in rw e at f

-- The board of the cells that a sample draws.
abbrev pub first_board : List LifeObject → Board
first_board sample r c = drawn (r * 80 + c) (shape_of 80 (life_objects 80 25 sample))

module _ {D : Type 0} (ds : List (Driver D)) (term : ℤ) where
  -- Writes to the terminal, one after another.
  unfoldable pub write_all : List (List ℕ) → Files D → Files D
  write_all [] files = files
  write_all (t ∷ texts) files = write_all texts (write ds term t files).1

  write_all-append :
      (xs ys : List (List ℕ)) (files : Files D)
      → write_all (xs ++ ys) files ≡ write_all ys (write_all xs files)
  unfolding write_all
  write_all-append [] ys files = refl
  write_all-append (x ∷ xs) ys files = write_all-append xs ys (write ds term x files).1

  -- A board on the screen of 80 x 25 cells, unless there is a key.
  unfoldable pub show_board : Board → Files D → ℤ × Files D
  show_board b files =
      let (code, key, f0) = read ds term 1 files in
      if eq_ℤ code ok_code
      then (ok_code, (ioctl ds term term_ioctl_show 0 (write_all (picture 80 b 0 25) f0)).1)
      else (pos 1, f0)

  module _ (w h : ℕ) (s : Arena × Arena) (b : Board) (shows : Shows w h s b) where
    pixel-cell : (x y k : ℕ) → y < h → x < w → k ≡ y * w + x → pixel x y (s.0 k) ≡ cell b y x
    unfolding pixel
    pixel-cell x y k hy hx hk = rw (hk, ← shows.cells y x hy hx) (ground arith)

    draw_row-picture :
        (n x y k : ℕ) (files : Files D)
        → y < h
        → x + n ≡ w
        → k ≡ y * w + x
        → draw_row ds term n x y k s.0 files ≡ write_all (row_picture b y x n) files
    unfolding draw_row row_picture write_all
    draw_row-picture zero x y k files hy hx hk = refl
    draw_row-picture (suc n) x y k files hy hx hk = rw (pixel-cell x y k hy (omega arith) hk) (
        draw_row-picture n (x + 1) y (k + 1) (write ds term (cell b y x) files).1 hy (omega arith)
          (omega arith))

    draw_rows-picture :
        (n y k : ℕ) (files : Files D)
        → y + n ≡ h
        → k ≡ y * w
        → draw_rows ds term w n y k s.0 files ≡ write_all (picture w b y n) files
    unfolding draw_rows picture write_all
    draw_rows-picture zero y k files hy hk = refl
    draw_rows-picture (suc n) y k files hy hk =
        let row = draw_row-picture w 0 y k files (omega arith) (omega arith) (omega arith) in
        let next : k + w ≡ (y + 1) * w = omega arith in
        rw (row, write_all-append (row_picture b y 0 w) (picture w b (y + 1) n) files)
          (draw_rows-picture n (y + 1) (k + w) (write_all (row_picture b y 0 w) files) (omega arith)
            next)

  -- The callback sees a board and not the arena.
  callback_life-show_board :
      (s : Arena × Arena) (b : Board) (files : Files D)
      → Shows 80 25 s b
      → callback_life ds term s.0 80 25 files ≡ show_board b files
  unfolding callback_life show_board
  callback_life-show_board s b files v =
      let f0 = (read ds term 1 files).2 in
      rw (draw_rows-picture 80 25 s b v 25 0 0 f0 (omega arith) (omega arith)) refl

  life-play_boards :
      (sample : List LifeObject) (fuel : ℕ) (files : Files D) (a : Arena)
      → mark_all 2000 (shape_of 80 (life_objects 80 25 sample)) (λ i. 0) ≡ some a
      → life (callback_life ds term) fuel 80 25 sample files
        ≡ play_boards 80 25 show_board fuel (λ r c. not (a (r * 80 + c) == 0)) files
  unfolding life
  life-play_boards sample fuel files a marked =
      st_life-boards 80 25 show_board (callback_life ds term) callback_life-show_board fuel
        (life_objects 80 25 sample) files a marked

  -- Sample `n` of the task is shown as the game: the terminal gets, in picture mode, the board of the
  -- cells that the sample draws and then one generation after the other, as long as no key is read,
  -- and goes back to terminal mode; this also tells when the game is over.
  pub start_life-boards :
      (fuel n : ℕ) (sample : List LifeObject) (files : Files D)
      → sample_numbered n ≡ some sample
      → start_life ds term fuel n files
        ≡ Option.map
            (λ (f : Files D). (ok_code, (ioctl ds term term_ioctl_mode_terminal 0 f).1))
            (play_boards 80 25 show_board fuel
              (first_board sample)
              (ioctl ds term term_ioctl_mode_picture 0 files).1)
  unfolding start_life
  start_life-boards fuel n sample files e =
      let f0 = (ioctl ds term term_ioctl_mode_picture 0 files).1 in
      let m =
        mark_all-drawn 2000 (shape_of 80 (life_objects 80 25 sample)) (λ i. 0)
          (samples_fit n sample e) in
      let board : (λ r c. not (m.0 (r * 80 + c) == 0)) ≡ first_board sample =
        fun_ext (λ r. fun_ext (λ c. rw (m.2 (r * 80 + c)) (ground arith))) in
      let game = life-play_boards sample fuel f0 m.0 m.1 in rw (start_life, e, game, board) refl
