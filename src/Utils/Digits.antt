-- ===== src/Utils/Digits.antt =====
-- The digits that `itos` of gluKe/utils.c writes, and how `stoi` reads them.
use native.Mathlib.Nat.{div-add-mod, pow-suc}
use glu_ke.Base.{
  ℕ, zero, suc, ◌+◌, ◌*◌, ◌/◌, ◌%◌, ◌^◌, ◌≤◌, ◌<◌, ◌≡◌, ◌≢◌, refl, ap, ◌∙◌, inl, inr, false, some,
  List, [], ◌∷◌, ◌++◌, arith, leb, ◌==◌, length, Bool-cases,
}
use glu_ke.Base.Int.{ok_code}
use glu_ke.Utils.{digit_char, itos_digits, digit_value, stoi_loop}

word_mul : (q y : ℕ) → (q * (y % 2 ^ 32)) % 2 ^ 32 ≡ (q * y) % 2 ^ 32
word_mul q y = omega (arith, ap (λ (t : ℕ). q * t) (div-add-mod y (2 ^ 32)))

digit_value-digit_char : (d : ℕ) → d < 16 → digit_value (digit_char d) ≡ some d
digit_value-digit_char d h = ground arith

read_one :
    (base x r m : ℕ)
    → ((r + (x % base) * m) % 2 ^ 32 + x / base * ((m * base) % 2 ^ 32)) % 2 ^ 32
      ≡ (r + x * m) % 2 ^ 32
read_one base x r m =
    let h = ap (λ (t : ℕ). t * m) (div-add-mod x base) in
    omega (arith, word_mul (x / base) (m * base), h)

one_digit : (base x : ℕ) → x / base ≡ 0 → x % base ≡ x
one_digit base x z = let h = div-add-mod x base in omega (arith, rw z at h)

fewer_digits : (base x fuel : ℕ) → 2 ≤ base → x < 2 ^ suc fuel → x / base < 2 ^ fuel
fewer_digits base x fuel two h =
    let le : 2 * (x / base) ≤ base * (x / base) = grind arith in
    omega (arith, le, div-add-mod x base, pow-suc 2 fuel)

-- The digits of `x`, the last one first, read back: `stoi_loop` adds `x` times the weight.
pub stoi_loop-itos_digits :
    (base : ℕ)
    → 2 ≤ base
    → base ≤ 16
    → (fuel x r m : ℕ) → x < 2 ^ fuel
    → r < 2 ^ 32
    → stoi_loop base (itos_digits fuel base x) r m ≡ (ok_code, (r + x * m) % 2 ^ 32)
unfolding stoi_loop itos_digits
stoi_loop-itos_digits base two small zero x r m h hr =
    ap (λ (t : ℕ). (ok_code, t)) (let z : x ≡ 0 = omega arith in rw z (omega arith))
stoi_loop-itos_digits base two small (suc fuel) x r m h hr =
    let d = x % base in
    let dv = digit_value-digit_char d (omega arith) in
    let inside : leb base d ≡ false = ground arith in
    let rest =
      stoi_loop-itos_digits base two small fuel (x / base) ((r + d * m) % 2 ^ 32)
        ((m * base) % 2 ^ 32) (fewer_digits base x fuel two h) (omega arith) in
    elim (Bool-cases (x / base == 0)) [
      | inl z ↦
          let whole : x % base ≡ x = one_digit base x (ground arith) in
          rw (dv, stoi_loop, inside, z, whole) refl
      | inr nz ↦
          rw (dv, stoi_loop, inside, nz) (rest ∙ ap (λ (t : ℕ). (ok_code, t)) (read_one base x r m))
    ]

digit_char-ne : (d : ℕ) → d < 16 → d ≢ 0 → digit_char d ≢ b'0'
digit_char-ne d h ne e = ground arith

-- The first digit of a number that is not 0 is not a zero.
pub itos_digits-top :
    (base : ℕ)
    → 2 ≤ base
    → base ≤ 16
    → (fuel x : ℕ) → x < 2 ^ fuel
    → x ≢ 0
    → (ds : List ℕ) × (top : ℕ) × (itos_digits fuel base x ≡ ds ++ (top ∷ [])) × (top ≢ b'0')
unfolding itos_digits
itos_digits-top base two small zero x h ne = absurd (ne (omega arith))
itos_digits-top base two small (suc fuel) x h ne = elim (Bool-cases (x / base == 0)) [
  | inl z ↦
      let whole : x % base ≡ x = one_digit base x (ground arith) in
      (
        [],
        digit_char (x % base),
        rw z,
        digit_char-ne (x % base) (omega arith) (λ e. ne (omega (arith, whole))),
      )
  | inr nz ↦
      let (ds, top, e, t) =
        itos_digits-top base two small fuel (x / base) (fewer_digits base x fuel two h)
          (ground arith) in
      (digit_char (x % base) ∷ ds, top, rw (nz, e), t)
]

fewer_digits_ten : (base x k : ℕ) → 10 ≤ base → x < 10 ^ suc (suc k) → x / base < 10 ^ suc k
fewer_digits_ten base x k ten h =
    let le : 10 * (x / base) ≤ base * (x / base) = grind arith in
    omega (arith, le, div-add-mod x base, pow-suc 10 (suc k))

-- In a base of 10 or more the number of digits is at most that of the decimal notation.
pub length-itos_digits-le :
    (base : ℕ)
    → 10 ≤ base
    → (k fuel x : ℕ) → x < 10 ^ suc k
    → length (itos_digits fuel base x) ≤ suc k
unfolding itos_digits
length-itos_digits-le base ten k zero x h = omega arith
length-itos_digits-le base ten zero (suc fuel) x h =
    let z : x / base ≡ 0 = no_more base x ten (omega arith) in rw z (omega arith)
  where
    no_more : (base x : ℕ) → 10 ≤ base → x < 10 → x / base ≡ 0
    no_more base x ten h =
        let le : 10 * (x / base) ≤ base * (x / base) = grind arith in
        omega (arith, le, div-add-mod x base)
length-itos_digits-le base ten (suc k) (suc fuel) x h =
    ground
      (arith, length-itos_digits-le base ten k fuel (x / base) (fewer_digits_ten base x k ten h))
