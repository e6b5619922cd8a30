-- ===== src/Printf/Tests.antt =====
-- A format with a number and a text (gluKe/utils.c).
use glu_ke.Base.{ℕ, ◌+◌, ◌≡◌, ◌++◌, refl, some, none, List, [], ◌∷◌, arith}
use glu_ke.Base.Int.{ok_code}
use glu_ke.Utils.{itos_ud, itos_digits}
use glu_ke.Printf.{kstrcat, st_printf, ksprintf, printf_loop, emit_text, span_text, conversion}
use glu_ke.Printf.Pieces.{
  Piece, plain, unsigned, string, format_of, end_of, code_of, printed, st_printf-printed,
}

-- "n=%u %s"
abbrev pieces : List Piece
pieces = plain b'n' (b'=' ∷ []) ∷ unsigned ∷ plain 32 [] ∷ string ∷ []

abbrev args : ℕ → ℕ
args i = 10 + i

abbrev stored : ℕ → List ℕ
stored address = b'o' ∷ b'k' ∷ []

st_printf-printed_example :
    st_printf kstrcat args stored (format_of pieces ++ end_of none) []
    ≡ some (code_of none, printed kstrcat args stored pieces 0 [])
st_printf-printed_example =
    st_printf-printed kstrcat args stored pieces none []
      (((λ e. omega arith), ((λ e. omega arith), tt)), tt, (((λ e. omega arith), tt), tt, tt)) tt

shown :
    ksprintf args stored (b'n' ∷ b'=' ∷ b'%' ∷ b'u' ∷ 32 ∷ b'%' ∷ b's' ∷ [])
    ≡ some (ok_code, b'n' ∷ b'=' ∷ b'1' ∷ b'0' ∷ 32 ∷ b'o' ∷ b'k' ∷ [])
unfolding ksprintf st_printf printf_loop emit_text span_text conversion kstrcat itos_ud itos_digits
shown = refl
