-- ===== src/Life/Tests.antt =====
-- A small arena with an R pentomino (mylib/life.c).
use glu_ke.Base.{
  ℕ, ◌+◌, ◌*◌, ◌≡◌, refl, true, not, some, List, [], ◌∷◌, map, ◌==◌, if◌then◌else◌, arith,
}
use glu_ke.Base.Int.{ℤ, pos}
use glu_ke.Life.{Arena, generation, st_life}
use glu_ke.Life.Shapes.{
  LifeObject, pent_r_type, mark_all, shape_of, life_objects, sample_gliders_type,
  sample_oscillators_type, sample_queen_bee_type, sample_r_pentomino_type,
}
use glu_ke.Life.Drawing.{drawn, inside, mark_all-drawn}
use glu_ke.Life.Torus.{Board, next_board}
use glu_ke.Life.Step.{Shows, generation-Shows}

abbrev pentomino : LifeObject
pentomino = record { type = pent_r_type; x = pos 1; y = pos 1 }

abbrev spots_5 : List ℤ
spots_5 = map pos (1 ∷ 2 ∷ 5 ∷ 6 ∷ 11 ∷ [])

shape_5 : shape_of 5 (pentomino ∷ []) ≡ spots_5
unfolding shape_of
shape_5 = refl

-- The samples fit the screen of 80 x 25 cells.
samples_fit :
    map
      (λ o. inside 2000 (shape_of 80 (life_objects 80 25 (o ∷ []))))
      (record { type = sample_r_pentomino_type; x = pos 0; y = pos 0 }
        ∷ record { type = sample_gliders_type; x = pos 0; y = pos 0 }
        ∷ record { type = sample_oscillators_type; x = pos 0; y = pos 0 }
        ∷ record { type = sample_queen_bee_type; x = pos 0; y = pos 0 }
        ∷ [])
    ≡ true ∷ true ∷ true ∷ true ∷ []
unfolding shape_of life_objects
samples_fit = refl

abbrev arena_5 : Arena
arena_5 j =
    if j == 11
    then 1
    else if j == 6
    then 1
    else if j == 5
    then 1
    else if j == 2
    then 1
    else if j == 1
    then 1
    else 0

mark_all-drawn_example :
    (a' : ℕ → ℕ) × (mark_all 25 spots_5 (λ i. 0) ≡ some a')
    × ((j : ℕ) → a' j ≡ (if drawn j spots_5 then 1 else 0))
mark_all-drawn_example = mark_all-drawn 25 spots_5 (λ i. 0) refl

abbrev board_5 : Board
board_5 r c = not (arena_5 (r * 5 + c) == 0)

shown : Shows 5 5 (arena_5, λ i. 0) board_5
shown = record { cells = λ r c hr hc. refl; clear = λ r c hr hc. refl }

generation-Shows_example : Shows 5 5 (generation 5 5 (arena_5, λ i. 0)) (next_board 5 5 board_5)
generation-Shows_example = generation-Shows 5 5 (arena_5, λ i. 0) board_5 shown

-- The cell in the middle of the pentomino dies, the one in the upper left corner is born.
one_round : let a = (generation 5 5 (arena_5, λ i. 0)).0 in (a 6 ≡ 0) × (a 0 ≡ 1)
unfolding generation
one_round = (refl, refl)

-- A callback that counts its calls until the middle cell is dead.
abbrev see_middle : Board → ℕ → ℤ × ℕ
see_middle b t = (if b 1 1 then pos 0 else pos 1, t + 1)

abbrev call_middle : Arena → ℕ → ℕ → ℕ → ℤ × ℕ
call_middle a w h t = (if not (a 6 == 0) then pos 0 else pos 1, t + 1)

call_middle-see :
    (s : Arena × Arena) (b : Board) (t : ℕ) → Shows 5 5 s b → call_middle s.0 5 5 t ≡ see_middle b t
call_middle-see s b t v = rw (v.cells 1 1 (omega arith) (omega arith)) refl

marked : mark_all 25 (shape_of 5 (pentomino ∷ [])) (λ i. 0) ≡ some arena_5
unfolding mark_all shape_of
marked = refl

two_calls : st_life call_middle 3 5 5 (pentomino ∷ []) 0 ≡ some 2
unfolding st_life mark_all shape_of
two_calls = refl
