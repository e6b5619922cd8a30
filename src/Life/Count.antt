-- ===== src/Life/Count.antt =====
-- The counts of mylib/life.c: how often each cell is counted up by the living cells around it.
use glu_ke.Base.{
  ℕ, zero, suc, ◌+◌, ◌*◌, ◌%◌, ◌^◌, ◌<◌, ◌≤◌, ◌≡◌, refl, sym, ◌∙◌, inl, inr, List, [], ◌∷◌, arith,
  ◌==◌, if◌then◌else◌, All, Bool-cases, length, not,
}
use glu_ke.Life.{Arena, next_column, count_cell, count_loop}
use glu_ke.Life.Torus.{one_if, around, row_of-lt, before-lt, after-lt}
use glu_ke.Life.Around.{times, count_all-times, count_cell-around, around-mirror}

-- The living cells among the listed ones, each as often as it is listed.
abbrev pub alive_in : Arena → List ℕ → ℕ
alive_in a [] = 0
alive_in a (t ∷ ts) = one_if (not (a t == 0)) + alive_in a ts

-- How often the living cells from `k` on, `n` of them, are listed.
unfoldable pub listed : Arena → List ℕ → ℕ → ℕ → ℕ
listed a ts zero k = 0
listed a ts (suc n) k = (if a k == 0 then 0 else times k ts) + listed a ts n (k + 1)

listed-none : (a : Arena) (n k : ℕ) → listed a [] n k ≡ 0
unfolding listed
listed-none a zero k = refl
listed-none a (suc n) k = ground (arith, listed-none a n (k + 1))

listed-below :
    (a : Arena) (t : ℕ) (ts : List ℕ) (n k : ℕ) → t < k → listed a (t ∷ ts) n k ≡ listed a ts n k
unfolding listed
listed-below a t ts zero k h = refl
listed-below a t ts (suc n) k h = ground (arith, listed-below a t ts n (k + 1) (omega arith))

listed-cons :
    (a : Arena) (t : ℕ) (ts : List ℕ) (n k : ℕ)
    → k ≤ t
    → t < k + n
    → listed a (t ∷ ts) n k ≡ one_if (not (a t == 0)) + listed a ts n k
unfolding listed
listed-cons a t ts zero k h h' = absurd (omega arith)
listed-cons a t ts (suc n) k h h' = elim (Bool-cases (t == k)) [
  | inl same ↦
      let e : t ≡ k = ground arith in
      rw (same, listed-below a t ts n (k + 1) (omega (arith, e)), e) (ground arith)
  | inr other ↦
      let ih = listed-cons a t ts n (k + 1) (ground arith) (omega arith) in
      rw (other, ih) (ground arith)
]

listed-alive :
    (a : Arena) (n : ℕ) (ts : List ℕ) → All (λ t. t < n) ts → listed a ts n 0 ≡ alive_in a ts
listed-alive a n [] h = listed-none a n 0
listed-alive a n (t ∷ ts) h =
    let l : t < n = h.0 in
    omega (arith, listed-cons a t ts n 0 (omega arith) (omega (arith, l)), listed-alive a n ts h.1)

row-lt : (w r h : ℕ) → r * w < w * h → r < h
row-lt w r zero l = absurd (omega arith)
row-lt w zero (suc h) l = omega arith
row-lt w (suc r) (suc h) l = omega (arith, row-lt w r h (omega arith))

-- A round of the loop, for a cell that is alive or not.
count_round :
    (w h : ℕ) (a : Arena) (r c r' c' : ℕ) (m : Arena)
    → r < h
    → c < w
    → r' < h
    → c' < w
    → m (r' * w + c') < 256
    → (if a (r * w + c) == 0 then m else count_cell w (w * h) (r * w + c) c m) (r' * w + c')
      ≡ (m (r' * w + c') + (if a (r * w + c) == 0 then 0 else times (r * w + c) (around w h r' c')))
        % 2 ^ 8
count_round w h a r c r' c' m hr hc hr' hc' l = elim (Bool-cases (a (r * w + c) == 0)) [
  | inl dead ↦ rw dead (omega (arith, l))
  | inr alive ↦
      let e = count_all-times (around w h r c) (r' * w + c') m l in
      let e' = around-mirror w h r c r' c' hr hc hr' hc' in
      rw (alive, count_cell-around w h r c m hr hc, sym e') e
]

next_cell :
    (w r c : ℕ)
    → c < w
    → (next_column w c < w)
      × (r * w + c + 1 ≡ (if c + 1 == w then r + 1 else r) * w + next_column w c)
unfolding next_column
next_cell w r c hc = elim (Bool-cases (c + 1 == w)) [
  | inl last ↦ let e : c + 1 ≡ w = ground arith in rw last (omega arith, omega (arith, e))
  | inr inner ↦ rw inner (ground arith, omega arith)
]

-- The counts of the loop from cell `k` on, for the cell in row `r'` and column `c'`.
count_loop-listed :
    (w h : ℕ) (a : Arena) (n k r c r' c' : ℕ) (m : Arena)
    → k ≡ r * w + c
    → c < w
    → k + n ≡ w * h
    → r' < h
    → c' < w
    → m (r' * w + c') < 256
    → count_loop w (w * h) a n k c m (r' * w + c')
      ≡ (m (r' * w + c') + listed a (around w h r' c') n k) % 2 ^ 8
unfolding count_loop listed
count_loop-listed w h a zero k r c r' c' m ek hc e hr' hc' l = omega (arith, l)
count_loop-listed w h a (suc n) k r c r' c' m ek hc e hr' hc' l =
    let hr = row-lt w r h (omega arith) in
    let j = r' * w + c' in
    let now : (if a k == 0 then m else count_cell w (w * h) k c m) j
        ≡ (m j + (if a k == 0 then 0 else times k (around w h r' c'))) % 2 ^ 8 =
      rw ek (count_round w h a r c r' c' m hr hc hr' hc' l) in
    let next = next_cell w r c hc in
    let ih =
      count_loop-listed w h a n (k + 1) (if c + 1 == w then r + 1 else r) (next_column w c) r' c'
        (if a k == 0 then m else count_cell w (w * h) k c m) (omega (arith, ek, next.1)) next.0
        (omega (arith, e)) hr' hc' (omega (arith, now)) in
    ih ∙ omega (arith, now)

alive_in-le : (a : Arena) (ts : List ℕ) → alive_in a ts ≤ length ts
alive_in-le a [] = omega arith
alive_in-le a (t ∷ ts) = ground (arith, alive_in-le a ts)

-- From cleared counts, the loop counts for each cell the living ones around it.
pub count_loop-alive :
    (w h : ℕ) (a : Arena) (r c : ℕ) (m : Arena)
    → r < h
    → c < w
    → m (r * w + c) ≡ 0
    → count_loop w (w * h) a (w * h) 0 0 m (r * w + c) ≡ alive_in a (around w h r c)
count_loop-alive w h a r c m hr hc l =
    let ts = around w h r c in
    let all =
      count_loop-listed w h a (w * h) 0 0 0 r c m (omega arith) (omega arith) (omega arith) hr hc
        (omega arith) in
    let b = before-lt h r hr in
    let f = after-lt h r hr in
    let u = before-lt w c hc in
    let v = after-lt w c hc in
    let inside : All (λ t. t < w * h) ts = (
      row_of-lt w h _ _ b u,
      (
        row_of-lt w h _ _ b hc,
        (
          row_of-lt w h _ _ b v,
          (
            row_of-lt w h _ _ hr u,
            (
              row_of-lt w h _ _ hr v,
              (row_of-lt w h _ _ f u, (row_of-lt w h _ _ f hc, (row_of-lt w h _ _ f v, tt))),
            ),
          ),
        ),
      ),
    ) in
    let sum = listed-alive a (w * h) ts inside in
    let few : alive_in a ts ≤ 8 = alive_in-le a ts in all ∙ omega (arith, sum, few, l)
