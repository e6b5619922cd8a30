-- ===== src/Utils/RoundTrip.antt =====
-- `stoi` of gluKe/utils.c reads what `itos_ud` and `itos_ux` write.
use mathlib.Core.List.{reverse, reverse-append, reverse-cons, reverse-reverse, append-nil}
use glu_ke.Base.{
  ℕ, ◌+◌, ◌-◌, ◌*◌, ◌%◌, ◌^◌, ◌≤◌, ◌<◌, ◌≡◌, ◌≢◌, refl, ap, ◌∙◌, Bool, some, List, [], ◌∷◌, ◌++◌,
  arith, ◌==◌, if◌then◌else◌, length, replicate, ◌&&◌, length-append, length-reverse,
  length-replicate,
}
use native.Mathlib.Decide.{ℕ_discrete}
use glu_ke.Base.Int.{ok_code}
use glu_ke.Utils.{
  is_negative, itos_bsize, itos, itos_digits, itos_ud, itos_ux, magnitude, max_digits, stoi,
  stoi_base, stoi_loop,
}
use glu_ke.Utils.Digits.{stoi_loop-itos_digits, itos_digits-top, length-itos_digits-le}

magnitude-lt : (x : ℕ) → x < 2 ^ 32 → magnitude x < 2 ^ 32
magnitude-lt x h = ground arith

pub itos_ud-digits : (x : ℕ) → itos_ud x ≡ reverse (itos_digits max_digits 10 (magnitude x))
unfolding itos_ud itos
itos_ud-digits x =
    let z : 0 - (length (itos_digits max_digits 10 (magnitude x)) + 0 + 0) ≡ 0 = omega arith in
    rw (z, append-nil) refl

itos_ux-digits :
    (x : ℕ) → itos_ux x ≡ b'0' ∷ b'x' ∷ reverse (itos_digits max_digits 0x10 (magnitude x))
unfolding itos_ux itos
itos_ux-digits x =
    let z : 0 - (length (itos_digits max_digits 0x10 (magnitude x)) + 2 + 0) ≡ 0 = omega arith in
    rw (z, append-nil, reverse-append) refl

stoi_base-decimal : (c : ℕ) (s : List ℕ) → c ≢ b'0' → stoi_base (c ∷ s) ≡ (10, 0)
unfolding stoi_base
stoi_base-decimal c [] h = refl
stoi_base-decimal c (d ∷ []) h = ground arith
stoi_base-decimal c (d ∷ e ∷ s) h = ground arith

stoi-decimal :
    (ds : List ℕ) (top old : ℕ)
    → top ≢ b'0'
    → stoi (some (reverse (ds ++ (top ∷ [])))) old ≡ stoi_loop 10 (ds ++ (top ∷ [])) 0 1
unfolding stoi
stoi-decimal ds top old h =
    rw (reverse-append ds (top ∷ []), stoi, stoi_base-decimal top (reverse ds) h)
      (ap (λ (l : List ℕ). stoi_loop 10 l 0 1)
        (reverse-cons top (reverse ds) ∙ ap (λ (l : List ℕ). l ++ (top ∷ [])) (reverse-reverse ds)))

stoi-hexadecimal :
    (ds : List ℕ) (top old : ℕ)
    → stoi (some (b'0' ∷ b'x' ∷ reverse (ds ++ (top ∷ [])))) old
      ≡ stoi_loop 0x10 (ds ++ (top ∷ [])) 0 1
unfolding stoi
stoi-hexadecimal ds top old =
    rw (reverse-append ds (top ∷ []), stoi, stoi_base)
      (ap (λ (l : List ℕ). stoi_loop 0x10 l 0 1)
        (reverse-cons top (reverse ds) ∙ ap (λ (l : List ℕ). l ++ (top ∷ [])) (reverse-reverse ds)))

stoi_zero : (old : ℕ) → stoi (some (reverse (itos_digits max_digits 10 0))) old ≡ (ok_code, 0)
unfolding stoi itos_digits
stoi_zero old = refl

stoi_zero_hex :
    (old : ℕ)
    → stoi (some (b'0' ∷ b'x' ∷ reverse (itos_digits max_digits 0x10 0))) old ≡ (ok_code, 0)
unfolding stoi itos_digits
stoi_zero_hex old = refl

module _ (x old : ℕ) (word_sized : x < 2 ^ 32) where
  abbrev m : ℕ
  m = magnitude x

  one_times : (0 + m * 1) % 2 ^ 32 ≡ m
  one_times = omega (arith, magnitude-lt x word_sized)

  -- Whatever `itos_ud` writes for a 32-bit word, `stoi` reads it as the word's magnitude.
  pub stoi-itos_ud-magnitude : stoi (some (itos_ud x)) old ≡ (ok_code, magnitude x)
  stoi-itos_ud-magnitude = elim (ℕ_discrete m 0) [
    | yes z ↦ rw (itos_ud-digits x, z) (stoi_zero old)
    | no nz ↦
        let (ds, top, e, t) =
          itos_digits-top 10 (omega arith) (omega arith) max_digits m (magnitude-lt x word_sized)
            nz in
        rw (itos_ud-digits x, e, stoi-decimal ds top old t, ← e)
          (stoi_loop-itos_digits 10 (omega arith) (omega arith) max_digits m 0 1
              (magnitude-lt x word_sized) (omega arith)
            ∙ ap (λ (t : ℕ). (ok_code, t)) one_times)
  ]

  pub stoi-itos_ux-magnitude : stoi (some (itos_ux x)) old ≡ (ok_code, magnitude x)
  stoi-itos_ux-magnitude = elim (ℕ_discrete m 0) [
    | yes z ↦ rw (itos_ux-digits x, z) (stoi_zero_hex old)
    | no nz ↦
        let (ds, top, e, t) =
          itos_digits-top 0x10 (omega arith) (omega arith) max_digits m (magnitude-lt x word_sized)
            nz in
        rw (itos_ux-digits x, e, stoi-hexadecimal ds top old, ← e)
          (stoi_loop-itos_digits 0x10 (omega arith) (omega arith) max_digits m 0 1
              (magnitude-lt x word_sized) (omega arith)
            ∙ ap (λ (t : ℕ). (ok_code, t)) one_times)
  ]

pub magnitude-small : (x : ℕ) → x ≤ 2 ^ 31 → magnitude x ≡ x
magnitude-small x h = ground arith

-- For numbers up to 2 ^ 31 `stoi` gives back what `itos_ud` and `itos_ux` wrote, and succeeds.
pub stoi-itos :
    (x old : ℕ)
    → x ≤ 2 ^ 31
    → (stoi (some (itos_ud x)) old ≡ (ok_code, x)) × (stoi (some (itos_ux x)) old ≡ (ok_code, x))
stoi-itos x old h =
    let small : x < 2 ^ 32 = omega arith in
    (
      stoi-itos_ud-magnitude x old small ∙ ap (λ (t : ℕ). (ok_code, t)) (magnitude-small x h),
      stoi-itos_ux-magnitude x old small ∙ ap (λ (t : ℕ). (ok_code, t)) (magnitude-small x h),
    )

-- Of a larger 32-bit word they write the two's complement, so that the number read back is another.
pub itos_wrong :
    (x old : ℕ)
    → 2 ^ 31 < x
    → x < 2 ^ 32
    → (stoi (some (itos_ud x)) old ≡ (ok_code, 2 ^ 32 - x))
      × (stoi (some (itos_ux x)) old ≡ (ok_code, 2 ^ 32 - x))
      × (2 ^ 32 - x ≢ x)
itos_wrong x old h small =
    let m : magnitude x ≡ 2 ^ 32 - x = ground arith in
    (
      stoi-itos_ud-magnitude x old small ∙ ap (λ (t : ℕ). (ok_code, t)) m,
      stoi-itos_ux-magnitude x old small ∙ ap (λ (t : ℕ). (ok_code, t)) m,
      omega arith,
    )

-- In bases from 10 on the text and its NUL fit a buffer of `itos_bsize` bytes, if the width asked
-- for does, and the text is as wide as asked.
pub length-itos :
    (x : ℕ) (sign : Bool) (base : ℕ) (show_base : Bool) (min_width : ℕ)
    → x < 2 ^ 32
    → 10 ≤ base
    → min_width < itos_bsize
    → (length (itos x sign base show_base min_width) + 1 ≤ itos_bsize)
      × (min_width ≤ length (itos x sign base show_base min_width))
unfolding itos
length-itos x sign base show_base min_width small ten width =
    let ds = itos_digits max_digits base (magnitude x) in
    let le =
      length-itos_digits-le base ten 9 max_digits (magnitude x)
        (omega (arith, magnitude-lt x small)) in
    parts ds (if base == 0x10 && show_base then b'x' ∷ b'0' ∷ [] else [])
      (if sign && is_negative x then b'-' ∷ [] else []) le (ground arith) (ground arith)
  where
    parts :
        (ds prefix minus : List ℕ)
        → length ds ≤ 10
        → length prefix ≤ 2
        → length minus ≤ 1
        → let n = min_width - (length ds + length prefix + length minus) in
          (length (reverse (ds ++ (replicate n b'0' ++ (prefix ++ minus)))) + 1 ≤ itos_bsize)
          × (min_width ≤ length (reverse (ds ++ (replicate n b'0' ++ (prefix ++ minus)))))
    parts ds prefix minus a b c =
        let n = min_width - (length ds + length prefix + length minus) in
        let text = ds ++ (replicate n b'0' ++ (prefix ++ minus)) in
        let l =
          length-append ds (replicate n b'0' ++ (prefix ++ minus))
          ∙ ap (λ (t : ℕ). length ds + t) (length-append (replicate n b'0') (prefix ++ minus)) in
        let r = length-reverse text in
        let p = length-append prefix minus in
        let q = length-replicate {A = ℕ} n b'0' in
        (omega (arith, l, r, p, q), omega (arith, l, r, p, q))
