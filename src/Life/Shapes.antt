-- ===== src/Life/Shapes.antt =====
-- The objects of mylib/life.c: the cells that each draws, and the samples made of them.
use glu_ke.Base.{
  ℕ, ◌/◌, Bool, true, false, Option, none, some, List, [], ◌∷◌, ◌++◌, map, ltb, ◌==◌, if◌then◌else◌,
}
use glu_ke.Base.Int.{ℤ, pos, negsuc, minus, scale, ◌+ℤ◌}

-- LIFE_OBJECT_TYPE_ of life.h; `unknown` ends an array in C and is not an element here.
pub data LifeType : Type 0 where
  boat_type : LifeType
  pent_r_type : LifeType
  line_osc_type : LifeType
  tumbler_type : LifeType
  glider_type : LifeType
  fish_type : LifeType
  queen_bee_type : LifeType
  queen_bee_osc_type : LifeType
  sample_r_pentomino_type : LifeType
  sample_gliders_type : LifeType
  sample_oscillators_type : LifeType
  sample_queen_bee_type : LifeType

-- struct life_object
pub record LifeObject : Type 0 where
  pub type : LifeType
  pub x : ℤ
  pub y : ℤ

-- The indices `y * w + x + dx` of a row of cells.
unfoldable pub spots : ℕ → ℤ → ℤ → List ℤ → List ℤ
spots w x y [] = []
spots w x y (dx ∷ dxs) = (scale y w +ℤ (x +ℤ dx)) ∷ spots w x y dxs

unfoldable pub pent_r : ℕ → ℤ → ℤ → List ℤ
unfolding spots
pent_r w x y =
    spots w x (y +ℤ negsuc 0) (map pos (0 ∷ 1 ∷ []))
    ++ spots w x (y +ℤ pos 0) (negsuc 0 ∷ pos 0 ∷ [])
    ++ spots w x (y +ℤ pos 1) (map pos (0 ∷ []))

unfoldable pub boat : ℕ → ℤ → ℤ → List ℤ
unfolding spots
boat w x y =
    spots w x (y +ℤ pos 0) (negsuc 0 ∷ pos 0 ∷ [])
    ++ spots w x (y +ℤ pos 1) (negsuc 0 ∷ pos 1 ∷ [])
    ++ spots w x (y +ℤ pos 2) (map pos (0 ∷ []))

unfoldable pub glider : ℕ → ℤ → ℤ → List ℤ
unfolding spots
glider w x y =
    spots w x (y +ℤ pos 0) (map pos (1 ∷ []))
    ++ spots w x (y +ℤ pos 1) (map pos (2 ∷ []))
    ++ spots w x (y +ℤ pos 2) (map pos (0 ∷ 1 ∷ 2 ∷ []))

unfoldable pub tumbler : ℕ → ℤ → ℤ → List ℤ
unfolding spots
tumbler w x y =
    spots w x (y +ℤ pos 0) (map pos (1 ∷ 2 ∷ 4 ∷ 5 ∷ []))
    ++ spots w x (y +ℤ pos 1) (map pos (1 ∷ 2 ∷ 4 ∷ 5 ∷ []))
    ++ spots w x (y +ℤ pos 2) (map pos (2 ∷ 4 ∷ []))
    ++ spots w x (y +ℤ pos 3) (map pos (0 ∷ 2 ∷ 4 ∷ 6 ∷ []))
    ++ spots w x (y +ℤ pos 4) (map pos (0 ∷ 2 ∷ 4 ∷ 6 ∷ []))
    ++ spots w x (y +ℤ pos 5) (map pos (0 ∷ 1 ∷ 5 ∷ 6 ∷ []))

unfoldable pub line_osc : ℕ → ℤ → ℤ → List ℤ
unfolding spots
line_osc w x y =
    spots w x (y +ℤ pos 0) (map pos (0 ∷ 3 ∷ 5 ∷ 6 ∷ 8 ∷ 11 ∷ []))
    ++ spots w x (y +ℤ pos 1) (map pos (0 ∷ 1 ∷ 2 ∷ 3 ∷ 5 ∷ 6 ∷ 8 ∷ 9 ∷ 10 ∷ 11 ∷ []))
    ++ spots w x (y +ℤ pos 2) (map pos (0 ∷ 3 ∷ 5 ∷ 6 ∷ 8 ∷ 11 ∷ []))

-- What `osc` adds to the queen bee.
unfoldable pub bee_queen_blocks : ℕ → ℤ → ℤ → List ℤ
unfolding spots
bee_queen_blocks w x y =
    spots w x (y +ℤ pos 3) (negsuc 5 ∷ negsuc 4 ∷ [])
    ++ spots w x (y +ℤ pos 4) (negsuc 5 ∷ negsuc 4 ∷ [])
    ++ spots w x (y +ℤ pos 3) (map pos (14 ∷ 15 ∷ []))
    ++ spots w x (y +ℤ pos 4) (map pos (14 ∷ 15 ∷ []))

unfoldable pub bee_queen : ℕ → ℤ → ℤ → Bool → List ℤ
unfolding spots bee_queen_blocks
bee_queen w x y osc =
    spots w x (y +ℤ pos 0) (map pos (3 ∷ 5 ∷ []))
    ++ spots w x (y +ℤ pos 1) (map pos (1 ∷ 5 ∷ []))
    ++ spots w x (y +ℤ pos 2) (map pos (1 ∷ []))
    ++ spots w x (y +ℤ pos 3) (map pos (0 ∷ 5 ∷ []))
    ++ spots w x (y +ℤ pos 4) (map pos (1 ∷ []))
    ++ spots w x (y +ℤ pos 5) (map pos (1 ∷ 5 ∷ []))
    ++ spots w x (y +ℤ pos 6) (map pos (3 ∷ 5 ∷ []))
    ++ (if osc then bee_queen_blocks w x y else [])

-- The switch in the loop over the objects; the other types draw nothing.
unfoldable pub draw : ℕ → LifeType → ℤ → ℤ → List ℤ
unfolding pent_r boat glider tumbler line_osc bee_queen
draw w boat_type x y = boat w x y
draw w pent_r_type x y = pent_r w x y
draw w tumbler_type x y = tumbler w x y
draw w line_osc_type x y = line_osc w x y
draw w glider_type x y = glider w x y
draw w queen_bee_type x y = bee_queen w x y false
draw w queen_bee_osc_type x y = bee_queen w x y true
draw w fish_type x y = []
draw w sample_r_pentomino_type x y = []
draw w sample_gliders_type x y = []
draw w sample_oscillators_type x y = []
draw w sample_queen_bee_type x y = []

-- The writes of all objects, in their order.
unfoldable pub shape_of : ℕ → List LifeObject → List ℤ
unfolding draw
shape_of w [] = []
shape_of w (o ∷ os) = draw w o.type o.x o.y ++ shape_of w os

-- The writes of 1 to an arena of `size` cells; `none` if one of them is outside.
unfoldable pub mark_all : ℕ → List ℤ → (ℕ → ℕ) → Option (ℕ → ℕ)
mark_all size [] a = some a
mark_all size (negsuc i ∷ is) a = none
mark_all size (pos i ∷ is) a =
    let rest = mark_all size is (λ j. if j == i then 1 else a j) in
    if ltb i size then rest else none

abbrev glider_at : ℕ → LifeObject
glider_at x = record { type = glider_type; x = pos x; y = pos 10 }

-- The gliders of the sample, one in every fifth column.
unfoldable pub gliders : List LifeObject
gliders =
    map glider_at (0 ∷ 5 ∷ 10 ∷ 15 ∷ 20 ∷ 25 ∷ 30 ∷ 35 ∷ 40 ∷ 45 ∷ 50 ∷ 55 ∷ 60 ∷ 65 ∷ 70 ∷ 75 ∷ [])

-- The objects that `life` makes for the type of the first one.
unfoldable pub sample : ℕ → ℕ → LifeType → List LifeObject → List LifeObject
unfolding gliders
sample w h sample_r_pentomino_type os =
    record { type = pent_r_type; x = minus (w / 2) 1; y = minus (h / 2) 1 } ∷ []
sample w h sample_gliders_type os = gliders
sample w h sample_oscillators_type os =
    record { type = queen_bee_osc_type; x = pos 12; y = minus (h / 2) 2 }
    ∷ record { type = line_osc_type; x = pos 40; y = pos (h / 2) }
    ∷ record { type = tumbler_type; x = pos 65; y = minus (h / 2) 2 }
    ∷ []
sample w h sample_queen_bee_type os =
    record { type = queen_bee_type; x = pos (w / 2); y = minus (h / 2) 2 } ∷ []
sample w h boat_type os = os
sample w h pent_r_type os = os
sample w h line_osc_type os = os
sample w h tumbler_type os = os
sample w h glider_type os = os
sample w h fish_type os = os
sample w h queen_bee_type os = os
sample w h queen_bee_osc_type os = os

-- The switch of `life`.
unfoldable pub life_objects : ℕ → ℕ → List LifeObject → List LifeObject
unfolding sample
life_objects w h [] = []
life_objects w h (o ∷ os) = sample w h o.type (o ∷ os)
