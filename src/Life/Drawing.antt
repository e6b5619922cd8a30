-- ===== src/Life/Drawing.antt =====
-- What the writes of the objects of mylib/life.c leave in the arena.
use glu_ke.Base.{
  ℕ, ◌≡◌, ◌∙◌, refl, arith, Bool, true, false, ◌&&◌, ◌||◌, none, some, List, [], ◌∷◌, ltb, ◌==◌,
  if◌then◌else◌,
}
use glu_ke.Base.Int.{ℤ, pos, negsuc, eq_ℤ}
use glu_ke.Life.Shapes.{mark_all}

-- Whether index `j` is among the listed ones.
abbrev pub drawn : ℕ → List ℤ → Bool
drawn j [] = false
drawn j (i ∷ is) = eq_ℤ (pos j) i || drawn j is

-- Every index is one of an arena of `size` cells.
abbrev pub inside : ℕ → List ℤ → Bool
inside size [] = true
inside size (negsuc i ∷ is) = false
inside size (pos i ∷ is) = ltb i size && inside size is

-- Writes inside the arena come through, and then the listed cells are 1 and the others as before.
pub mark_all-drawn :
    (size : ℕ) (is : List ℤ) (a : ℕ → ℕ)
    → inside size is ≡ true
    → (a' : ℕ → ℕ) × (mark_all size is a ≡ some a')
      × ((j : ℕ) → a' j ≡ (if drawn j is then 1 else a j))
unfolding mark_all
mark_all-drawn size [] a fits = (a, refl, λ j. refl)
mark_all-drawn size (negsuc i ∷ is) a fits = cc
mark_all-drawn size (pos i ∷ is) a fits =
    let here : ltb i size ≡ true = ground arith in
    let ih = mark_all-drawn size is (λ j. if j == i then 1 else a j) (ground arith) in
    (ih.0, rw here (ih.1), λ j. ih.2 j ∙ ground arith)

-- A write outside of it does not.
pub mark_all-outside :
    (size : ℕ) (is : List ℤ) (a : ℕ → ℕ) → inside size is ≡ false → mark_all size is a ≡ none
unfolding mark_all
mark_all-outside size [] a out = cc
mark_all-outside size (negsuc i ∷ is) a out = refl
mark_all-outside size (pos i ∷ is) a out =
    ground (arith, mark_all-outside size is (λ j. if j == i then 1 else a j))
