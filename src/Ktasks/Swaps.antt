-- ===== src/Ktasks/Swaps.antt =====
-- The swaps of gluKe/ktasks/reverse.c turn a text round.
use native.Mathlib.Decide.{ℕ_discrete, dec_lt}
use glu_ke.Base.{
  ℕ, zero, suc, ◌+◌, ◌-◌, ◌/◌, ◌≤◌, ◌<◌, ◌≡◌, refl, ap, sym, ◌∙◌, true, false, List, [], ◌∷◌, ◌++◌,
  ltb, ◌==◌, if◌then◌else◌, arith, length, get_or, set, length-set, get_or-set_self, get_or-set_ne,
  get_or-ext, length-reverse, length-append,
}
use mathlib.Core.List.{reverse, reverse-cons}
use glu_ke.Ktasks.Reverse.{swap_loop}

-- The index that takes the place of `j` when the first `l` bytes are turned round.
abbrev mirror : ℕ → ℕ → ℕ
mirror l j = l - 1 - j

-- A read behind a write.
get_or-set :
    (xs : List ℕ) (i j v : ℕ)
    → i < length xs
    → get_or (set xs i v) j 0 ≡ (if j == i then v else get_or xs j 0)
get_or-set xs i j v h = elim (ℕ_discrete i j) [
  | yes e ↦ let same : (j == i) ≡ true = ground arith in rw (same, ← e) (get_or-set_self xs i v 0 h)
  | no d ↦ let other : (j == i) ≡ false = ground arith in rw other (get_or-set_ne xs i j v 0 d)
]

-- After `i` rounds the outer places have changed and the inner ones have not.
record Swapped (orig : List ℕ) (l i : ℕ) (buf : List ℕ) : Type 0 where
  len : length buf ≡ length orig
  outer : (j : ℕ) → j < i → get_or buf j 0 ≡ get_or orig (mirror l j) 0
  back : (j : ℕ) → l - i ≤ j → j < l → get_or buf j 0 ≡ get_or orig (mirror l j) 0
  inner : (j : ℕ) → i ≤ j → j < l - i → get_or buf j 0 ≡ get_or orig j 0
  behind : (j : ℕ) → l ≤ j → get_or buf j 0 ≡ get_or orig j 0

module _ (orig : List ℕ) (l : ℕ) (fits : l ≤ length orig) where
  swap_step : ℕ → List ℕ → List ℕ
  swap_step i buf = set (set buf i (get_or buf (mirror l i) 0)) (mirror l i) (get_or buf i 0)

  -- What a round leaves at a place.
  step-at :
      (i : ℕ) (buf : List ℕ) (j : ℕ)
      → i < length buf
      → mirror l i < length buf
      → get_or (swap_step i buf) j 0 ≡ (
          if j == mirror l i
          then get_or buf i 0
          else if j == i
          then get_or buf (mirror l i) 0
          else get_or buf j 0)
  unfolding swap_step
  step-at i buf j i_in m_in =
      let n = length-set buf i (get_or buf (mirror l i) 0) in
      get_or-set (set buf i (get_or buf (mirror l i) 0)) (mirror l i) j (get_or buf i 0)
        (omega (arith, n))
      ∙ (rw (get_or-set buf i j (get_or buf (mirror l i) 0) i_in) refl)

  swap_step-Swapped :
      (i : ℕ) (buf : List ℕ)
      → i < l / 2
      → Swapped orig l i buf
      → Swapped orig l (i + 1) (swap_step i buf)
  unfolding swap_step
  swap_step-Swapped i buf h s =
      let e = λ (j : ℕ). step-at i buf j (omega (arith, s.len)) (omega (arith, s.len)) in
      let low = s.inner i (omega arith) (omega arith) in
      let high = s.inner (mirror l i) (omega arith) (omega arith) in
      let twice : mirror l (mirror l i) ≡ i = omega arith in
      record {
        len = step_len;
        outer = λ j lt. ground (arith, e j, s.outer j, high);
        back = λ j lo hi. ground (arith, e j, s.back j, low, twice);
        inner = λ j lo hi. ground (arith, e j, s.inner j);
        behind = λ j lo. ground (arith, e j, s.behind j);
      }
    where
      step_len : length (swap_step i buf) ≡ length orig
      step_len =
          length-set (set buf i (get_or buf (mirror l i) 0)) (mirror l i) (get_or buf i 0)
          ∙ (length-set buf i (get_or buf (mirror l i) 0) ∙ s.len)

  swap_loop-Swapped :
      (n i : ℕ) (buf : List ℕ)
      → i + n ≡ l / 2
      → Swapped orig l i buf
      → Swapped orig l (l / 2) (swap_loop n i l buf)
  unfolding swap_loop swap_step
  swap_loop-Swapped zero i buf e s = let e' : l / 2 ≡ i = omega arith in rw e' s
  swap_loop-Swapped (suc n) i buf e s =
      swap_loop-Swapped n (i + 1) (swap_step i buf) (omega arith)
        (swap_step-Swapped i buf (omega arith) s)

  all-Swapped : Swapped orig l (l / 2) (swap_loop (l / 2) 0 l orig)
  all-Swapped = swap_loop-Swapped (l / 2) 0 orig (omega arith) (record {
    len = refl;
    outer = λ j lt. absurd (omega arith);
    back = λ j lo hi. absurd (omega arith);
    inner = λ j lo hi. refl;
    behind = λ j lo. refl;
  })

  -- All rounds turn the first `l` bytes round and keep those behind them.
  swapped-at :
      (j : ℕ)
      → get_or (swap_loop (l / 2) 0 l orig) j 0
        ≡ (if ltb j l then get_or orig (mirror l j) 0 else get_or orig j 0)
  swapped-at j = let s = all-Swapped in ground (arith, s.outer j, s.back j, s.inner j, s.behind j)

get_or-append :
    (xs ys : List ℕ) (j : ℕ)
    → get_or (xs ++ ys) j 0
      ≡ (if ltb j (length xs) then get_or xs j 0 else get_or ys (j - length xs) 0)
get_or-append [] ys j = let e : j - 0 ≡ j = omega arith in rw e (ground arith)
get_or-append (x ∷ xs) ys zero = ground arith
get_or-append (x ∷ xs) ys (suc j) = ground (arith, get_or-append xs ys j)

get_or-reverse :
    (xs : List ℕ) (j : ℕ)
    → j < length xs
    → get_or (reverse xs) j 0 ≡ get_or xs (length xs - 1 - j) 0
get_or-reverse [] j h = absurd (omega arith)
get_or-reverse (x ∷ xs) j h =
    ap (λ (l : List ℕ). get_or l j 0) (reverse-cons x xs)
    ∙ (get_or-append (reverse xs) (x ∷ []) j ∙ (elim (dec_lt j (length xs)) [
      | yes lt ↦
          let inside : ltb j (length (reverse xs)) ≡ true = ground (arith, length-reverse xs) in
          let m : length xs - j ≡ suc (length xs - 1 - j) = omega arith in
          let m' : suc (length xs) - 1 - j ≡ suc (length xs - 1 - j) = omega arith in
          rw (inside, m') (get_or-reverse xs j lt)
      | no ge ↦
          let outside : ltb j (length (reverse xs)) ≡ false = ground (arith, length-reverse xs) in
          let z : j - length (reverse xs) ≡ 0 = omega (arith, length-reverse xs) in
          let z' : suc (length xs) - 1 - j ≡ 0 = omega arith in rw (outside, z, z') refl
    ]))

-- The swaps over a text turn it round, whatever stands behind it.
pub swap_loop-reverse :
    (text rest : List ℕ)
    → swap_loop (length text / 2) 0 (length text) (text ++ rest) ≡ reverse text ++ rest
swap_loop-reverse text rest =
    let l = length text in
    let fits : l ≤ length (text ++ rest) = omega (arith, length-append text rest) in
    let n = length-reverse text in
    get_or-ext (swap_loop (l / 2) 0 l (text ++ rest)) (reverse text ++ rest) 0
      (omega (
        arith,
        (all-Swapped (text ++ rest) l fits).len,
        length-append text rest,
        length-append (reverse text) rest,
        n,
      ))
      (λ j lt. swapped-at (text ++ rest) l fits j ∙ (elim (dec_lt j l) [
        | yes h ↦
            let inside : ltb j l ≡ true = ground arith in
            let within : ltb (l - 1 - j) l ≡ true = ground arith in
            rw
              (
                inside,
                get_or-append text rest (l - 1 - j),
                within,
                get_or-append (reverse text) rest j,
                n,
                inside,
              )
              (sym (get_or-reverse text j h))
        | no h ↦
            let outside : ltb j l ≡ false = ground arith in
            rw (outside, get_or-append text rest j, get_or-append (reverse text) rest j, n, outside)
              refl
      ]))
