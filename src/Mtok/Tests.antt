-- ===== src/Mtok/Tests.antt =====
-- Calls of `mtok` (mylib/mtok.c) on ` ab|c` with blanks and bars as separators; a bar is a token.
use glu_ke.Base.{
  ℕ, ◌≡◌, ◌≢◌, ◌⊎◌, inl, inr, refl, Option, none, some, List, [], ◌∷◌, arith, take, get_or,
  replicate,
}
use glu_ke.Base.Int.{pos}
use glu_ke.Mtok.{mtok, is_sep, contains}
use glu_ke.Mtok.Words.{mtok_word}

abbrev bars : Option (List ℕ)
bars = some (124 ∷ [])

abbrev blanks : Option (List ℕ)
blanks = some (32 ∷ [])

abbrev room : List ℕ
room = replicate 8 0

given : (bars ≢ none) ⊎ (blanks ≢ none)
given = inl (λ e. cc)

mtok_word_example :
    let r = mtok (some (32 ∷ 97 ∷ 98 ∷ 124 ∷ 99 ∷ [])) 0 room 8 bars blanks in
    (r.code ≡ pos 0)
    × (r.cur_pos ≡ 3)
    × (take 2 r.buf ≡ 97 ∷ 98 ∷ [])
    × (get_or r.buf 2 1 ≡ 0)
    × (r.buf_size ≡ 8)
unfolding is_sep contains
mtok_word_example =
    mtok_word bars blanks given 8 (omega arith) room [] (32 ∷ []) (refl, tt) 97 (98 ∷ [])
      (124 ∷ 99 ∷ []) ((refl, refl), ((refl, refl), tt)) (inr refl) (omega arith) (omega arith)
