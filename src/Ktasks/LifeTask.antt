-- ===== src/Ktasks/LifeTask.antt =====
-- gluKe/ktasks/ktask_life.c: the game of life on a terminal. `ds` are the drivers and `term` is the
-- handle of the terminal.
use glu_ke.Base.{
  ℕ, zero, suc, ◌+◌, not, ◌||◌, Option, none, some, List, [], ◌∷◌, ltb, ◌==◌, if◌then◌else◌,
}
use glu_ke.Base.Int.{ℤ, pos, ok_code, fail_code, eq_ℤ, is_negative, to_int}
use glu_ke.Utils.{stoi}
use glu_ke.Mutex.{str_eq}
use glu_ke.File.{Driver, Files, read, write, ioctl}
use glu_ke.Console.{
  write_string, term_ioctl_show, term_ioctl_mode_terminal, term_ioctl_mode_picture,
}
use glu_ke.Work.{text_in}
use glu_ke.Life.{Arena, life}
use glu_ke.Life.Shapes.{
  LifeObject, LifeType, sample_r_pentomino_type, sample_gliders_type, sample_oscillators_type,
  sample_queen_bee_type,
}
use glu_ke.Ktasks.Reverse.{cut_last, e_word, exit_word}

-- `pixel` for the cell in column `x` of row `y`.
unfoldable pub pixel : ℕ → ℕ → ℕ → List ℕ
pixel x y v = x ∷ y ∷ 0xdb ∷ (if v == 0 then 0x02 else 0x0e) ∷ []

-- The arrays LIFE_SAMPLE_ without the element that ends them.
abbrev pub sample_of : LifeType → List LifeObject
sample_of t = record { type = t; x = pos 0; y = pos 0 } ∷ []

-- The switch of start_life.
unfoldable pub sample_numbered : ℕ → Option (List LifeObject)
sample_numbered n =
    if n == 0
    then some (sample_of sample_r_pentomino_type)
    else if n == 1
    then some (sample_of sample_gliders_type)
    else if n == 2
    then some (sample_of sample_oscillators_type)
    else if n == 3
    then some (sample_of sample_queen_bee_type)
    else none

-- What a line makes the task do.
pub data Round (D : Type 0) : Type 0 where
  kills_itself : Round D
  goes_on : Files D → Round D

module _ {D : Type 0} (ds : List (Driver D)) (term : ℤ) where
  -- The loop over `x`, for the `n` columns that are left.
  unfoldable pub draw_row : ℕ → ℕ → ℕ → ℕ → Arena → Files D → Files D
  unfolding pixel
  draw_row zero x y k arena files = files
  draw_row (suc n) x y k arena files =
      draw_row n (x + 1) y (k + 1) arena (write ds term (pixel x y (arena k)) files).1

  -- The loop over `y` with rows of `w` cells, for the `n` rows that are left.
  unfoldable pub draw_rows : ℕ → ℕ → ℕ → ℕ → Arena → Files D → Files D
  unfolding draw_row
  draw_rows w zero y k arena files = files
  draw_rows w (suc n) y k arena files =
      draw_rows w n (y + 1) (k + w) arena (draw_row w 0 y k arena files)

  -- A key, or a failure of the read, ends the game. The sizes are not looked at.
  unfoldable pub callback_life : Arena → ℕ → ℕ → Files D → ℤ × Files D
  callback_life arena size_w size_h files =
      let (code, key, f0) = read ds term 1 files in
      let f1 = draw_rows 80 25 0 0 arena f0 in
      if eq_ℤ code ok_code then (ok_code, (ioctl ds term term_ioctl_show 0 f1).1) else (pos 1, f0)

  -- `none` where the game is not over after `fuel` generations.
  unfoldable pub start_life : ℕ → ℕ → Files D → Option (ℤ × Files D)
  unfolding sample_numbered
  start_life fuel sample_number files = elim (sample_numbered sample_number) [
    | none ↦ some (fail_code, files)
    | some sample ↦
        let f0 = (ioctl ds term term_ioctl_mode_picture 0 files).1 in
        elim (life callback_life fuel 80 25 sample f0) [
          | none ↦ none
          | some f1 ↦ some (ok_code, (ioctl ds term term_ioctl_mode_terminal 0 f1).1)
        ]
  ]

  -- A line that read_line has left in `cmd`; `old` is what sample_number held before. The arguments
  -- `unknown` and `failed` are the texts of the two messages.
  unfoldable pub life_round : ℕ → List ℕ → List ℕ → ℕ → List ℕ → Files D → Option (Round D)
  unfolding cut_last text_in start_life
  life_round fuel unknown failed old cmd files =
      let word = text_in (cut_last cmd).1 in
      let (code, n) = stoi (some word) old in
      let is_number = eq_ℤ code ok_code in
      if str_eq word exit_word || str_eq word e_word
      then some kills_itself
      else if not is_number || is_negative (to_int n) || ltb 3 n
      then some (goes_on ((write_string ds term unknown files).1))
      else elim (start_life fuel n files) [
        | none ↦ none
        | some (code', f) ↦
            some (goes_on (if eq_ℤ code' ok_code then f else (write_string ds term failed f).1))
      ]
