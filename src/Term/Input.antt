-- ===== src/Term/Input.antt =====
-- The pending input of a terminal: `key_pressed` and the taking of bytes by `term_read`
-- (gluKe/drivers/term.c).
use glu_ke.Base.{
  ℕ, zero, suc, ◌+◌, ◌-◌, ◌*◌, ◌≤◌, ◌<◌, ◌≡◌, ◌≢◌, refl, ap, ◌∙◌, inl, inr, Option, none, some,
  List, [], ◌∷◌, ◌++◌, arith, ltb, leb, ◌==◌, length, set, take, drop, length-set, length-drop,
  length-append, take-set_self, Bool-cases,
}
use glu_ke.Term.{Term, input_bsize, take_key, drop_input}

-- The bytes that were typed and not read.
unfoldable pub pending : Term → List ℕ
pending t = take t.iend t.input

pub record IsInput (t : Term) : Type 0 where
  pub input_len : length t.input ≡ input_bsize
  pub in_bounds : t.iend ≤ input_bsize

-- What one key does to the pending input.
pub data Typed (symbol : ℕ) (t : Term) : Option Term → Type 0 where
  -- A backspace takes the last byte away.
  erased :
      (t' : Term)
      → symbol ≡ 8
      → suc t'.iend ≡ t.iend
      → t'.input ≡ t.input
      → IsInput t'
      → Typed symbol t (some t')
  -- A byte is put behind the others. The last place is taken by a newline only.
  typed :
      (t' : Term)
      → symbol ≢ 8
      → (t.iend ≡ input_bsize - 1 → symbol ≡ b'\n')
      → pending t' ≡ pending t ++ (symbol ∷ [])
      → IsInput t'
      → Typed symbol t (some t')
  nothing_to_erase : symbol ≡ 8 → t.iend ≡ 0 → Typed symbol t none
  -- No place is left.
  full : symbol ≢ 8 → t.iend ≡ input_bsize → Typed symbol t none
  -- The last place is left, and the byte is no newline.
  kept : symbol ≢ 8 → t.iend ≡ input_bsize - 1 → symbol ≢ b'\n' → Typed symbol t none

module _ (symbol : ℕ) (t : Term) (v : IsInput t) where
  put-Typed :
      symbol ≢ 8
      → t.iend < input_bsize
      → (t.iend ≡ input_bsize - 1 → symbol ≡ b'\n')
      → Typed symbol t (some (record t { input = set t.input t.iend symbol; iend = t.iend + 1 }))
  unfolding pending
  put-Typed other fits last =
      typed _ other last
        (let i_in : t.iend < length t.input = omega (arith, v.input_len) in
          let next : t.iend + 1 ≡ suc t.iend = omega arith in
          ap (λ n. take n (set t.input t.iend symbol)) next
          ∙ take-set_self t.input t.iend symbol i_in)
        (record {
          input_len = omega (arith, length-set t.input t.iend symbol, v.input_len);
          in_bounds = omega arith;
        })

  -- On an input whose end lies in its buffer, a key appends its byte to the pending input, unless the
  -- buffer is full, or has its last place left and the byte is no newline; a backspace takes the last
  -- byte away, if there is one. Where nothing is taken, there is no new state; else the end still lies
  -- in the buffer, whose length stays.
  pub take_key-Typed : Typed symbol t (take_key symbol t)
  unfolding take_key
  take_key-Typed = elim (Bool-cases (symbol == 8)) [
    | inl bs ↦ elim (Bool-cases (ltb 0 t.iend)) [
      | inl some_left ↦
          rw (bs, some_left)
            (erased _ (ground arith) (ground arith) refl
              (record { input_len = v.input_len; in_bounds = omega (arith, v.in_bounds) }))
      | inr at_start ↦ rw (bs, at_start) (nothing_to_erase (ground arith) (ground arith))
    ]
    | inr other ↦ elim (Bool-cases (leb input_bsize t.iend)) [
      | inl over ↦ rw (other, over) (full (ground arith) (ground (arith, v.in_bounds)))
      | inr fits ↦ elim (Bool-cases (t.iend == input_bsize - 1)) [
        | inr room ↦
            rw (other, fits, room)
              (put-Typed (ground arith) (ground arith) (λ e. absurd (ground arith)))
        | inl last ↦ elim (Bool-cases (symbol == b'\n')) [
          | inl nl ↦
              rw (other, fits, last, nl)
                (put-Typed (ground arith) (ground arith) (λ e. ground arith))
          | inr no_nl ↦
              rw (other, fits, last, no_nl) (kept (ground arith) (ground arith) (ground arith))
        ]
      ]
    ]
  ]

module _ {ℓ} {A : Type ℓ} where
  take_short :
      (k n : ℕ) (xs ys : List A) → k ≤ n → k ≤ length xs → take k (take n xs ++ ys) ≡ take k xs
  take_short zero n xs ys kn kx = refl
  take_short (suc k) zero xs ys kn kx = absurd (omega arith)
  take_short (suc k) (suc n) [] ys kn kx = absurd (omega arith)
  take_short (suc k) (suc n) (x ∷ xs) ys kn kx =
      ap (λ l. x ∷ l) (take_short k n xs ys (omega arith) (omega arith))

  take_front : (e : ℕ) (xs ys : List A) → e ≤ length xs → take e (xs ++ ys) ≡ take e xs
  take_front zero xs ys h = refl
  take_front (suc e) [] ys h = absurd (omega arith)
  take_front (suc e) (x ∷ xs) ys h = ap (λ l. x ∷ l) (take_front e xs ys (omega arith))

  take-drop :
      (k n e : ℕ) (xs ys : List A)
      → k + n ≡ e
      → e ≤ length xs
      → take k (drop n (xs ++ ys)) ≡ drop n (take e xs)
  take-drop k zero e xs ys sum h = let same : k ≡ e = omega arith in rw same (take_front e xs ys h)
  take-drop k (suc n) zero xs ys sum h = absurd (omega arith)
  take-drop k (suc n) (suc e) [] ys sum h = absurd (omega arith)
  take-drop k (suc n) (suc e) (x ∷ xs) ys sum h = take-drop k n e xs ys (omega arith) (omega arith)

-- Taking `n` pending bytes away leaves exactly the ones behind them, provided that at most `n` are
-- left.
pub drop_input-pending :
    (n : ℕ) (t : Term)
    → IsInput t
    → n ≤ t.iend
    → t.iend ≤ 2 * n
    → pending (drop_input n t) ≡ drop n (pending t)
unfolding drop_input pending
drop_input-pending n t v taken few =
    take_short (t.iend - n) n (drop n (t.input ++ t.output)) (drop n t.input) (omega arith) (
      omega (
        arith,
        length-drop n (t.input ++ t.output),
        length-append t.input t.output,
        v.input_len,
        v.in_bounds,
      ))
    ∙ take-drop (t.iend - n) n t.iend t.input t.output (omega arith)
        (omega (arith, v.input_len, v.in_bounds))
