-- ===== src/Life/Around.antt =====
-- The cells around a cell of mylib/life.c: how often each is counted up, and that being around is
-- mutual.
use glu_ke.Base.{
  ℕ, ◌+◌, ◌*◌, ◌%◌, ◌^◌, ◌<◌, ◌≡◌, refl, ◌∙◌, inl, inr, List, [], ◌∷◌, arith, ◌==◌, Bool-cases,
}
use glu_ke.Life.{Arena, write, count_up, count_row, count_cell}
use glu_ke.Life.Torus.{
  one_if, around, before, after, row_above, row_same, row_below, column_left, column_same,
  column_right, same_cell, before-flip, after-flip, before-lt, after-lt,
}

abbrev pub times : ℕ → List ℕ → ℕ
times j [] = 0
times j (t ∷ ts) = one_if (t == j) + times j ts

pub count_all : List ℕ → Arena → Arena
count_all [] m = m
count_all (t ∷ ts) m = count_all ts (count_up t m)

count_up-mod : (t j : ℕ) (m : Arena) → m j < 256 → count_up t m j ≡ (m j + one_if (t == j)) % 2 ^ 8
unfolding count_up write
count_up-mod t j m h = elim (Bool-cases (j == t)) [
  | inl same ↦ let e : j ≡ t = ground arith in rw (same) (ground arith)
  | inr other ↦ ground arith
]

pub count_all-times :
    (ts : List ℕ) (j : ℕ) (m : Arena) → m j < 256 → count_all ts m j ≡ (m j + times j ts) % 2 ^ 8
unfolding count_all
count_all-times [] j m h = omega arith
count_all-times (t ∷ ts) j m h =
    let e = count_up-mod t j m h in
    let ih = count_all-times ts j (count_up t m) (omega arith) in ih ∙ omega (arith, e)

pub count_cell-around :
    (w h r c : ℕ) (m : Arena)
    → r < h
    → c < w
    → count_cell w (w * h) (r * w + c) c m ≡ count_all (around w h r c) m
unfolding count_cell count_row count_all
count_cell-around w h r c m hr hc =
    rw
      (
        row_above w h r c hr hc,
        row_same w h r c hr hc,
        row_below w h r c hr hc,
        column_left w (before h r) c hc,
        column_same w (before h r) c hc,
        column_right w (before h r) c hc,
        column_left w r c hc,
        column_right w r c hc,
        column_left w (after h r) c hc,
        column_same w (after h r) c hc,
        column_right w (after h r) c hc,
      )
      refl

mirror_one :
    (w R C r c R' C' r' c' : ℕ)
    → C < w
    → c < w
    → C' < w
    → c' < w
    → (R == r') ≡ (R' == r)
    → (C == c') ≡ (C' == c)
    → one_if (R * w + C == r' * w + c') ≡ one_if (R' * w + C' == r * w + c)
mirror_one w R C r c R' C' r' c' hC hc hC' hc' rows columns =
    rw (same_cell w R C r' c' hC hc', same_cell w R' C' r c hC' hc, rows, columns) refl

same_flip : (i j : ℕ) → (i == j) ≡ (j == i)
same_flip i j = ground arith

-- One cell is around another as often as the other is around it.
pub around-mirror :
    (w h r c r' c' : ℕ)
    → r < h
    → c < w
    → r' < h
    → c' < w
    → times (r' * w + c') (around w h r c) ≡ times (r * w + c) (around w h r' c')
around-mirror w h r c r' c' hr hc hr' hc' =
    let rb = before-flip h r r' hr hr' in
    let ra = after-flip h r r' hr hr' in
    let rs = same_flip r r' in
    let cb = before-flip w c c' hc hc' in
    let ca = after-flip w c c' hc hc' in
    let cs = same_flip c c' in
    let e0 =
      mirror_one w (before h r) (before w c) r c (after h r') (after w c') r' c' (before-lt w c hc)
        hc (after-lt w c' hc') hc' rb cb in
    let e1 = mirror_one w (before h r) c r c (after h r') c' r' c' hc hc hc' hc' rb cs in
    let e2 =
      mirror_one w (before h r) (after w c) r c (after h r') (before w c') r' c' (after-lt w c hc)
        hc (before-lt w c' hc') hc' rb ca in
    let e3 =
      mirror_one w r (before w c) r c r' (after w c') r' c' (before-lt w c hc) hc
        (after-lt w c' hc') hc' rs cb in
    let e4 =
      mirror_one w r (after w c) r c r' (before w c') r' c' (after-lt w c hc) hc
        (before-lt w c' hc') hc' rs ca in
    let e5 =
      mirror_one w (after h r) (before w c) r c (before h r') (after w c') r' c' (before-lt w c hc)
        hc (after-lt w c' hc') hc' ra cb in
    let e6 = mirror_one w (after h r) c r c (before h r') c' r' c' hc hc hc' hc' ra cs in
    let e7 =
      mirror_one w (after h r) (after w c) r c (before h r') (before w c') r' c' (after-lt w c hc)
        hc (before-lt w c' hc') hc' ra ca in
    omega (arith, e0, e1, e2, e3, e4, e5, e6, e7)
