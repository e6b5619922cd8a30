-- ===== src/Ktasks/Counter.antt =====
-- gluKe/ktasks/counter.c: the texts that the task writes between two sleeps.
use glu_ke.Base.{
  ℕ, zero, suc, ◌+◌, ◌*◌, ◌%◌, ◌^◌, ◌<◌, ◌≡◌, refl, ap, sym, ◌∙◌, List, [], ◌∷◌, ◌++◌, arith,
}
use glu_ke.Utils.{itos_ud}

-- The loop over `i` for the `n` rounds that are left, with `counter++` as a word.
unfoldable pub count_on : ℕ → ℕ → List (List ℕ) × ℕ
count_on zero counter = ([], counter)
count_on (suc n) counter =
    let (texts, counter') = count_on n ((counter + 1) % 2 ^ 32) in
    (itos_ud counter ∷ (32 ∷ []) ∷ texts, counter')

-- A round of the endless loop.
unfoldable pub counter_round : ℕ → List (List ℕ) × ℕ
unfolding count_on
counter_round counter = count_on 5 counter

-- What `n` rounds write, from `counter` on.
unfoldable pub counter_rounds : ℕ → ℕ → List (List ℕ)
unfolding counter_round
counter_rounds zero counter = []
counter_rounds (suc n) counter =
    let (texts, counter') = counter_round counter in texts ++ counter_rounds n counter'

-- The texts of `n` numbers from `m` on, each with a blank behind it.
abbrev pub numbers_from : ℕ → ℕ → List (List ℕ)
numbers_from m zero = []
numbers_from m (suc n) = itos_ud m ∷ (32 ∷ []) ∷ numbers_from (m + 1) n

numbers_from-add : (m n k : ℕ) → numbers_from m (n + k) ≡ numbers_from m n ++ numbers_from (m + n) k
numbers_from-add m zero k =
    let e : 0 + k ≡ k = omega arith in let e' : m + 0 ≡ m = omega arith in rw (e, e') refl
numbers_from-add m (suc n) k =
    let e : suc n + k ≡ suc (n + k) = omega arith in
    let e' : m + suc n ≡ m + 1 + n = omega arith in rw (e, e', numbers_from-add (m + 1) n k) refl

count_on-numbers :
    (n counter : ℕ)
    → counter + n < 2 ^ 32
    → count_on n counter ≡ (numbers_from counter n, counter + n)
unfolding count_on
count_on-numbers zero counter h = let e : counter + 0 ≡ counter = omega arith in rw e refl
count_on-numbers (suc n) counter h =
    let next : (counter + 1) % 2 ^ 32 ≡ counter + 1 = omega arith in
    let e : counter + suc n ≡ counter + 1 + n = omega arith in
    rw (next, count_on-numbers n (counter + 1) (omega arith), e) refl

counter_round-numbers :
    (counter : ℕ)
    → counter + 5 < 2 ^ 32
    → counter_round counter ≡ (numbers_from counter 5, counter + 5)
unfolding counter_round
counter_round-numbers counter h = count_on-numbers 5 counter h

-- The task counts: its rounds write the numbers one after another, each once and with a blank behind
-- it, as long as the counter does not overflow.
pub counter_rounds-numbers :
    (n counter : ℕ)
    → counter + n * 5 < 2 ^ 31
    → counter_rounds n counter ≡ numbers_from counter (n * 5)
unfolding counter_rounds
counter_rounds-numbers zero counter h = refl
counter_rounds-numbers (suc n) counter h =
    let all : suc n * 5 ≡ 5 + n * 5 = omega arith in
    ap (λ (r : List (List ℕ) × ℕ). r.0 ++ counter_rounds n r.1)
      (counter_round-numbers counter (omega arith))
    ∙ (ap (λ (texts : List (List ℕ)). numbers_from counter 5 ++ texts)
          (counter_rounds-numbers n (counter + 5) (omega arith))
        ∙ sym (ap (numbers_from counter) all ∙ numbers_from-add counter 5 (n * 5)))
