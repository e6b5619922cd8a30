-- ===== src/Printf.antt =====
-- Formatted output of gluKe/utils.c: kstrcat, st_printf and its callers. A string is the list of its
-- codes up to the NUL; the buffer of ksprintf is large enough. `vargs` has the words behind the
-- format, `string_at` the string at an address.
pub mod Pieces
mod Tests
use glu_ke.Base.{
  ℕ, zero, suc, ◌+◌, Bool, Option, none, some, List, [], ◌∷◌, ◌++◌, ◌==◌, if◌then◌else◌, length,
}
use glu_ke.Base.Int.{ℤ, ok_code, fail_code}
use glu_ke.Utils.{itos_ud, itos_ux}

-- The copy loop starts behind the last code of `dest`.
unfoldable pub kstrcat : List ℕ → List ℕ → List ℕ
kstrcat [] src = src
kstrcat (c ∷ dest) src = c ∷ kstrcat dest src

-- `for(;format[i] && format[i]!='%';i++)`: what the loop passes and where it stops.
unfoldable pub span_text : List ℕ → List ℕ × List ℕ
span_text [] = ([], [])
span_text (c ∷ cs) =
    let (text, rest) = span_text cs in if c == b'%' then ([], c ∷ cs) else (c ∷ text, rest)

-- The text of the conversion whose letter is the first of the list.
unfoldable pub conversion : (ℕ → List ℕ) → ℕ → List ℕ → Option (List ℕ)
conversion string_at arg [] = none
conversion string_at arg (c ∷ cs) =
    if c == b'u'
    then some (itos_ud arg)
    else if c == b'x'
    then some (itos_ux arg)
    else if c == b's'
    then some (string_at arg)
    else none

-- `i+=2`, from behind the percent sign on.
abbrev pub behind_letter : List ℕ → List ℕ
behind_letter [] = []
behind_letter (c ∷ cs) = cs

-- `emit` is `kstrcat` to the string or a write to the file, with the state W of either.
module _ {W : Type 0} (emit : W → List ℕ → W) where
  -- The end of a round: the plain text up to the next percent sign.
  unfoldable pub emit_text : W → List ℕ → W × List ℕ
  emit_text w format =
      let (text, rest) = span_text format in
      if length text == 0 then (w, rest) else (emit w text, rest)

  -- The loop from a place in the format on, `none` when the fuel is gone.
  unfoldable pub printf_loop : (ℕ → ℕ) → (ℕ → List ℕ) → ℕ → List ℕ → ℕ → W → Option (ℤ × W)
  printf_loop vargs string_at zero format varg_index w = none
  printf_loop vargs string_at (suc fuel) [] varg_index w = some (ok_code, w)
  printf_loop vargs string_at (suc fuel) (c ∷ cs) varg_index w =
      if c == b'%'
      then elim (conversion string_at (vargs varg_index) cs) [
        | none ↦ some (fail_code, w)
        | some text ↦
            let (w', rest) = emit_text (emit w text) (behind_letter cs) in
            printf_loop vargs string_at fuel rest (varg_index + 1) w'
      ]
      else (let (w', rest) = emit_text w (c ∷ cs) in
          printf_loop vargs string_at fuel rest varg_index w')

  unfoldable pub st_printf : (ℕ → ℕ) → (ℕ → List ℕ) → List ℕ → W → Option (ℤ × W)
  st_printf vargs string_at format w = printf_loop vargs string_at (length format + 1) format 0 w

-- The string is empty at first.
unfoldable pub ksprintf : (ℕ → ℕ) → (ℕ → List ℕ) → List ℕ → Option (ℤ × List ℕ)
ksprintf vargs string_at format = st_printf kstrcat vargs string_at format []

-- `write` is a write to the file `fl`. The write to the null pointer `s` is not modelled.
unfoldable pub kfprintf :
    {W : Type 0} (write : W → List ℕ → W) → (ℕ → ℕ) → (ℕ → List ℕ) → List ℕ → W → Option (ℤ × W)
kfprintf write vargs string_at format w = st_printf write vargs string_at format w
