-- ===== src/Printf/Pieces.antt =====
-- What formatted output (gluKe/utils.c) prints for a format made of pieces.
use mathlib.Core.List.{append_assoc}
use glu_ke.Base.{
  ℕ, zero, suc, ◌+◌, ◌<◌, ◌≤◌, ◌≡◌, ◌≢◌, refl, false, Option, none, some, List, [], ◌∷◌, ◌++◌,
  arith, ◌==◌, length, length-append,
}
use glu_ke.Base.Int.{ℤ, ok_code, fail_code}
use glu_ke.Utils.{itos_ud, itos_ux}
use glu_ke.Printf.{span_text, conversion, emit_text, printf_loop, st_printf}

-- A text without percent signs that is not empty, and the three conversions.
pub data Piece : Type 0 where
  plain : (c : ℕ) (w : List ℕ) → Piece
  unsigned : Piece
  hexadecimal : Piece
  string : Piece

abbrev pub codes : Piece → List ℕ
codes (plain c w) = c ∷ w
codes unsigned = b'%' ∷ b'u' ∷ []
codes hexadecimal = b'%' ∷ b'x' ∷ []
codes string = b'%' ∷ b's' ∷ []

abbrev pub format_of : List Piece → List ℕ
format_of [] = []
format_of (p ∷ ps) = codes p ++ format_of ps

abbrev pub NoPercent : List ℕ → Type 0
NoPercent [] = Unit {0}
NoPercent (c ∷ cs) = (c ≢ b'%') × NoPercent cs

abbrev pub NotPlain : List Piece → Type 0
NotPlain [] = Unit {0}
NotPlain (plain c w ∷ ps) = ⊥
NotPlain (unsigned ∷ ps) = Unit {0}
NotPlain (hexadecimal ∷ ps) = Unit {0}
NotPlain (string ∷ ps) = Unit {0}

-- The texts have no percent signs and no text stands next to another.
abbrev pub IsFormat : List Piece → Type 0
IsFormat [] = Unit {0}
IsFormat (plain c w ∷ ps) = NoPercent (c ∷ w) × NotPlain ps × IsFormat ps
IsFormat (unsigned ∷ ps) = IsFormat ps
IsFormat (hexadecimal ∷ ps) = IsFormat ps
IsFormat (string ∷ ps) = IsFormat ps

-- A format ends, or breaks off at a percent sign with a letter that is no conversion.
abbrev pub end_of : Option (List ℕ) → List ℕ
end_of none = []
end_of (some bad) = b'%' ∷ bad

abbrev pub code_of : Option (List ℕ) → ℤ
code_of none = ok_code
code_of (some bad) = fail_code

abbrev pub IsBad : Option (List ℕ) → Type 0
IsBad none = Unit {0}
IsBad (some []) = Unit {0}
IsBad (some (c ∷ cs)) = (c ≢ b'u') × (c ≢ b'x') × (c ≢ b's')

span_text-plain :
    (w : List ℕ) (ps : List Piece) (e : Option (List ℕ))
    → NoPercent w
    → NotPlain ps
    → span_text (w ++ (format_of ps ++ end_of e)) ≡ (w, format_of ps ++ end_of e)
unfolding span_text
span_text-plain [] [] none h n = refl
span_text-plain [] [] (some bad) h n = refl
span_text-plain [] (plain c w ∷ ps) e h n = absurd n
span_text-plain [] (unsigned ∷ ps) e h n = refl
span_text-plain [] (hexadecimal ∷ ps) e h n = refl
span_text-plain [] (string ∷ ps) e h n = refl
span_text-plain (c ∷ w) ps e h n =
    let other : (c == b'%') ≡ false = ground (arith, h.0) in
    rw (span_text-plain w ps e h.1 n, other) refl

module _ {W : Type 0} (emit : W → List ℕ → W) (vargs : ℕ → ℕ) (string_at : ℕ → List ℕ) where
  -- What the pieces print, from argument `i` on.
  pub printed : List Piece → ℕ → W → W
  printed [] i w = w
  printed (plain c t ∷ ps) i w = printed ps i (emit w (c ∷ t))
  printed (unsigned ∷ ps) i w = printed ps (i + 1) (emit w (itos_ud (vargs i)))
  printed (hexadecimal ∷ ps) i w = printed ps (i + 1) (emit w (itos_ux (vargs i)))
  printed (string ∷ ps) i w = printed ps (i + 1) (emit w (string_at (vargs i)))

  emit_text-plain :
      (c : ℕ) (t : List ℕ) (ps : List Piece) (e : Option (List ℕ)) (w : W)
      → NoPercent (c ∷ t)
      → NotPlain ps
      → emit_text emit w (format_of (plain c t ∷ ps) ++ end_of e)
        ≡ (emit w (c ∷ t), format_of ps ++ end_of e)
  unfolding emit_text
  emit_text-plain c t ps e w h n =
      let some_text : (length (c ∷ t) == 0) ≡ false = ground arith in
      rw
        (
          append_assoc (c ∷ t) (format_of ps) (end_of e),
          emit_text,
          span_text-plain (c ∷ t) ps e h n,
          some_text,
        )
        refl

  emit_text-none :
      (ps : List Piece) (e : Option (List ℕ)) (w : W)
      → NotPlain ps
      → emit_text emit w (format_of ps ++ end_of e) ≡ (w, format_of ps ++ end_of e)
  unfolding emit_text
  emit_text-none ps e w n = rw (emit_text, span_text-plain [] ps e tt n) refl

  -- The statement about the loop with `fuel` rounds.
  abbrev Prints : ℕ → Type 0
  Prints fuel =
      (ps : List Piece) (e : Option (List ℕ)) (i : ℕ) (w : W)
      → IsFormat ps
      → IsBad e
      → length ps < fuel
      → printf_loop emit vargs string_at fuel (format_of ps ++ end_of e) i w
        ≡ some (code_of e, printed ps i w)

  -- The end of a round with a conversion, and the rounds behind it.
  rounds_behind :
      (fuel : ℕ)
      → Prints fuel
      → (ps : List Piece) (e : Option (List ℕ)) (i : ℕ) (w : W) → IsFormat ps
      → IsBad e
      → length ps < fuel
      → (let (w', rest) = emit_text emit w (format_of ps ++ end_of e) in
          printf_loop emit vargs string_at fuel rest i w')
        ≡ some (code_of e, printed ps i w)
  unfolding printed
  rounds_behind fuel ih [] e i w f b l = rw (emit_text-none [] e w tt) (ih [] e i w f b l)
  rounds_behind fuel ih (plain c t ∷ ps) e i w f b l =
      rw (emit_text-plain c t ps e w f.0 f.1) (ih ps e i (emit w (c ∷ t)) f.2 b (omega arith))
  rounds_behind fuel ih (unsigned ∷ ps) e i w f b l =
      rw (emit_text-none (unsigned ∷ ps) e w tt) (ih (unsigned ∷ ps) e i w f b l)
  rounds_behind fuel ih (hexadecimal ∷ ps) e i w f b l =
      rw (emit_text-none (hexadecimal ∷ ps) e w tt) (ih (hexadecimal ∷ ps) e i w f b l)
  rounds_behind fuel ih (string ∷ ps) e i w f b l =
      rw (emit_text-none (string ∷ ps) e w tt) (ih (string ∷ ps) e i w f b l)

  conversion-IsBad :
      (arg : ℕ) (bad : List ℕ) → IsBad (some bad) → conversion string_at arg bad ≡ none
  unfolding conversion
  conversion-IsBad arg [] b = refl
  conversion-IsBad arg (c ∷ cs) b = ground (arith, b.0, b.1, b.2)

  printf_loop-printed : (fuel : ℕ) → Prints fuel
  unfolding printf_loop printed conversion
  printf_loop-printed zero ps e i w f b l = absurd (omega arith)
  printf_loop-printed (suc fuel) [] none i w f b l = refl
  printf_loop-printed (suc fuel) [] (some bad) i w f b l =
      rw (printf_loop, conversion-IsBad (vargs i) bad b) refl
  printf_loop-printed (suc fuel) (plain c t ∷ ps) e i w f b l =
      let other : (c == b'%') ≡ false = ground (arith, f.0.0) in
      rw (printf_loop, other, emit_text-plain c t ps e w f.0 f.1)
        (printf_loop-printed fuel ps e i (emit w (c ∷ t)) f.2 b (omega arith))
  printf_loop-printed (suc fuel) (unsigned ∷ ps) e i w f b l =
      rounds_behind fuel (printf_loop-printed fuel) ps e (i + 1) (emit w (itos_ud (vargs i))) f b
        (omega arith)
  printf_loop-printed (suc fuel) (hexadecimal ∷ ps) e i w f b l =
      rounds_behind fuel (printf_loop-printed fuel) ps e (i + 1) (emit w (itos_ux (vargs i))) f b
        (omega arith)
  printf_loop-printed (suc fuel) (string ∷ ps) e i w f b l =
      rounds_behind fuel (printf_loop-printed fuel) ps e (i + 1) (emit w (string_at (vargs i))) f b
        (omega arith)

  format-long :
      (ps : List Piece) (e : Option (List ℕ)) → length ps ≤ length (format_of ps ++ end_of e)
  format-long [] e = omega arith
  format-long (plain c t ∷ ps) e = omega (
    arith,
    format-long ps e,
    length-append t (format_of ps),
    length-append (t ++ format_of ps) (end_of e),
    length-append (format_of ps) (end_of e),
  )
  format-long (unsigned ∷ ps) e = omega (arith, format-long ps e)
  format-long (hexadecimal ∷ ps) e = omega (arith, format-long ps e)
  format-long (string ∷ ps) e = omega (arith, format-long ps e)

  -- Formatted output ends. It prints the pieces one by one and in order, each conversion with the
  -- next argument, and succeeds; or it fails at the first percent sign with a letter that it does not
  -- know, behind everything that stands in front.
  pub st_printf-printed :
      (ps : List Piece) (e : Option (List ℕ)) (w : W)
      → IsFormat ps
      → IsBad e
      → st_printf emit vargs string_at (format_of ps ++ end_of e) w
        ≡ some (code_of e, printed ps 0 w)
  unfolding st_printf
  st_printf-printed ps e w f b =
      printf_loop-printed (length (format_of ps ++ end_of e) + 1) ps e 0 w f b
        (omega (arith, format-long ps e))
