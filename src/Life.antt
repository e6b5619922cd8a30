-- ===== src/Life.antt =====
-- mylib/life.c: the game of life on a torus of size_w times size_h cells. An arena is a function
-- from the index of a cell to its byte. The sizes are so small that no `int` overflows, as on the
-- 80 x 25 cells of gluKe/ktasks/ktask_life.c, and the allocations of the two arenas succeed.
pub mod Shapes
pub mod Drawing
pub mod Torus
pub mod Around
pub mod Count
pub mod Step
mod Tests
use glu_ke.Base.{
  ℕ, zero, suc, ◌+◌, ◌-◌, ◌*◌, ◌%◌, ◌^◌, ◌&&◌, Option, none, some, List, [], ◌∷◌, ltb, leb, ◌==◌,
  if◌then◌else◌,
}
use glu_ke.Base.Int.{ℤ, pos, negsuc, eq_ℤ}
use glu_ke.Life.Shapes.{LifeObject, mark_all, shape_of, life_objects}

abbrev pub Arena : Type 0
Arena = ℕ → ℕ

unfoldable pub write : Arena → ℕ → ℕ → Arena
write a k v i = if i == k then v else a i

-- The start of the row `y - 1` rows below the one of `k`, around the edge: `rq`, with `q` of the
-- source kept as `k + y * w`, which is `w` more.
unfoldable pub row_start : ℕ → ℕ → ℕ → ℕ → ℕ
row_start w wh k y =
    let q = k + y * w in
    if ltb q w then wh + q - w else if leb (wh + w) q then q - w - wh else q - w

-- The cell `x - 1` columns to the right, around the edge: `rq + rx`.
unfoldable pub target : ℕ → ℕ → ℕ → ℕ → ℕ
target w line_counter rq x =
    if line_counter == 0 && x == 0
    then rq + (w - 1)
    else if line_counter == w - 1 && x == 2
    then rq - (w - 1)
    else rq + x - 1

-- `count_arena[t]++` on a char.
unfoldable pub count_up : ℕ → Arena → Arena
unfolding write
count_up t c = write c t ((c t + 1) % 2 ^ 8)

-- The loop over `x` in the source's order, from -1 to 1.
unfoldable pub count_row : ℕ → ℕ → ℕ → ℕ → Arena → Arena
unfolding count_up target
count_row w line_counter rq y c =
    let c0 = count_up (target w line_counter rq 0) c in
    let c1 = if y == 1 then c0 else count_up (target w line_counter rq 1) c0 in
    count_up (target w line_counter rq 2) c1

-- The loop over `y` for a cell that is alive.
unfoldable pub count_cell : ℕ → ℕ → ℕ → ℕ → Arena → Arena
unfolding count_row row_start
count_cell w wh k line_counter c =
    let c0 = count_row w line_counter (row_start w wh k 0) 0 c in
    let c1 = count_row w line_counter (row_start w wh k 1) 1 c0 in
    count_row w line_counter (row_start w wh k 2) 2 c1

unfoldable pub next_column : ℕ → ℕ → ℕ
next_column w line_counter = if line_counter + 1 == w then 0 else line_counter + 1

-- The first loop of a generation, for the `n` cells from `k` on.
unfoldable pub count_loop : ℕ → ℕ → Arena → ℕ → ℕ → ℕ → Arena → Arena
unfolding count_cell next_column
count_loop w wh a zero k line_counter c = c
count_loop w wh a (suc n) k line_counter c =
    count_loop w wh a n (k + 1) (next_column w line_counter)
      (if a k == 0 then c else count_cell w wh k line_counter c)

-- What becomes of a cell. A count above 127 is a negative char, for which the cell dies too.
unfoldable pub rule : ℕ → ℕ → ℕ
rule v n = if ltb n 2 then 0 else if ltb 3 n then 0 else if n == 3 then 1 else v

-- The second loop, which also clears the counts.
unfoldable pub rule_loop : ℕ → ℕ → Arena → Arena → Arena × Arena
unfolding rule write
rule_loop zero k a c = (a, c)
rule_loop (suc n) k a c = rule_loop n (k + 1) (write a k (rule (a k) (c k))) (write c k 0)

-- One round of the loop of st_life, with both arenas.
unfoldable pub generation : ℕ → ℕ → Arena × Arena → Arena × Arena
unfolding count_loop rule_loop
generation w h (a, c) = rule_loop (w * h) 0 a (count_loop w (w * h) a (w * h) 0 0 c)

module _ {S : Type 0} (callback : Arena → ℕ → ℕ → S → ℤ × S) where
  -- The loop until the callback returns a number that is not 0; `none` when the fuel is gone.
  unfoldable pub play : ℕ → ℕ → ℕ → Arena × Arena → S → Option S
  unfolding generation
  play zero w h s t = none
  play (suc fuel) w h s t =
      let (r, t') = callback s.0 w h t in
      let rest = play fuel w h (generation w h s) t' in if eq_ℤ r (pos 0) then rest else some t'

  -- The objects are drawn on a cleared arena; `none` also for one that leaves it.
  unfoldable pub st_life : ℕ → ℕ → ℕ → List LifeObject → S → Option S
  unfolding play
  st_life fuel w h objects t = elim (mark_all (w * h) (shape_of w objects) (λ i. 0)) [
    | none ↦ none
    | some a ↦ play fuel w h (a, λ i. 0) t
  ]

  unfoldable pub life : ℕ → ℕ → ℕ → List LifeObject → S → Option S
  unfolding st_life
  life fuel w h objects t = st_life fuel w h (life_objects w h objects) t
