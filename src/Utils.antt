-- ===== src/Utils.antt =====
-- gluKe/utils.c: numbers as text. A string is the list of its character codes up to the NUL; a
-- local buffer that is filled from the front is the list of what it holds. An `int` is its 32-bit
-- pattern, a number below 2 ^ 32.
pub mod Digits
pub mod RoundTrip
mod Tests
use mathlib.Core.List.{reverse}
use glu_ke.Base.{
  ℕ, zero, suc, ◌+◌, ◌-◌, ◌*◌, ◌/◌, ◌%◌, ◌^◌, Bool, true, false, not, ◌&&◌, ◌||◌, Option, none,
  some, List, [], ◌∷◌, ◌++◌, ltb, leb, ◌==◌, if◌then◌else◌, length, replicate, drop,
}
use glu_ke.Base.Int.{ℤ, eq_ℤ, ok_code, fail_code}

abbrev pub itos_bsize : ℕ
itos_bsize = 30

-- `x < 0` and `x > 0 ? x : -x` for an `int`
abbrev pub is_negative : ℕ → Bool
is_negative x = leb (2 ^ 31) x

abbrev pub magnitude : ℕ → ℕ
magnitude x = if is_negative x then (2 ^ 32 - x) % 2 ^ 32 else x

abbrev pub digit_char : ℕ → ℕ
digit_char i = if ltb i 10 then i + b'0' else i - 0x0a + b'A'

-- The do-while loop of `itos`, which puts the last digit first. A number has at most 32 digits.
unfoldable pub itos_digits : ℕ → ℕ → ℕ → List ℕ
itos_digits zero base x = []
itos_digits (suc fuel) base x =
    let rest = itos_digits fuel base (x / base) in
    digit_char (x % base) ∷ (if x / base == 0 then [] else rest)

abbrev pub max_digits : ℕ
max_digits = 32

abbrev shows_base : ℕ → Bool → Bool
shows_base base show_base = base == 0x10 && show_base

unfoldable pub itos : ℕ → Bool → ℕ → Bool → ℕ → List ℕ
itos x sign base show_base min_width =
    let digits = itos_digits max_digits base (magnitude x) in
    let prefix = if shows_base base show_base then b'x' ∷ b'0' ∷ [] else [] in
    let minus = if sign && is_negative x then b'-' ∷ [] else [] in
    let padding = replicate (min_width - (length digits + length prefix + length minus)) b'0' in
    reverse (digits ++ (padding ++ (prefix ++ minus)))

unfoldable pub itos_ud : ℕ → List ℕ
unfolding itos
itos_ud x = itos x false 10 true 0

unfoldable pub itos_ux : ℕ → List ℕ
unfolding itos
itos_ux x = itos x false 0x10 true 0

-- The argument `width` is not used.
pub itos_ux_nobase_width : ℕ → ℕ → List ℕ
unfolding itos
itos_ux_nobase_width x width = itos x false 0x10 false 2

-- The base of a number and where its digits begin: the `switch` of `stoi` on the length.
pub stoi_base : List ℕ → ℕ × ℕ
stoi_base [] = (10, 0)
stoi_base (a ∷ []) = (10, 0)
stoi_base (a ∷ b ∷ []) = if a == b'0' then (8, 1) else (10, 0)
stoi_base (a ∷ b ∷ c ∷ r) =
    if a == b'0' then (if b == b'x' || b == b'X' then (0x10, 2) else (8, 1)) else (10, 0)

abbrev pub digit_value : ℕ → Option ℕ
digit_value c =
    if leb b'0' c && leb c b'9'
    then some (c - b'0')
    else if leb b'A' c && leb c b'F'
    then some (c - (b'A' - 10))
    else if leb b'a' c && leb c b'f'
    then some (c - (b'a' - 10))
    else none

-- The loop of `stoi`, over the characters from the last one on.
pub stoi_loop : ℕ → List ℕ → ℕ → ℕ → ℤ × ℕ
stoi_loop base [] result mul = (ok_code, result)
stoi_loop base (c ∷ cs) result mul = elim (digit_value c) [
  | none ↦ (fail_code, result)
  | some dig ↦
      if leb base dig
      then (fail_code, result)
      else stoi_loop base cs ((result + dig * mul) % 2 ^ 32) ((mul * base) % 2 ^ 32)
]

-- `old` is what `*result` holds before the call; `none` is a null pointer to the text.
unfoldable pub stoi : Option (List ℕ) → ℕ → ℤ × ℕ
unfolding stoi_base stoi_loop
stoi none old = (fail_code, old)
stoi (some []) old = (fail_code, 0)
stoi (some (c ∷ s)) old =
    let (base, first) = stoi_base (c ∷ s) in stoi_loop base (reverse (drop first (c ∷ s))) 0 1

negated : ℤ × ℕ → ℤ × ℕ
negated (code, value) = (code, (2 ^ 32 - value) % 2 ^ 32)

pub stois : Option (List ℕ) → ℕ → ℤ × ℕ
unfolding stoi negated
stois none old = (fail_code, old)
stois (some []) old = stoi (some []) old
stois (some (c ∷ s)) old =
    if c == b'-'
    then (let (code, value) = stoi (some s) old in
        if eq_ℤ code ok_code then negated (code, value) else (code, value))
    else stoi (some (c ∷ s)) old
