-- ===== src/Mtok/Words.antt =====
-- What a call of `mtok` (mylib/mtok.c) finds: a word, a separator or the end of the text.
use mathlib.Core.List.{append_assoc, append-nil}
use glu_ke.Base.{
  ℕ, suc, ◌+◌, ◌-◌, ◌≤◌, ◌<◌, ◌≡◌, ◌≢◌, refl, ◌∙◌, ◌⊎◌, inl, inr, true, false, ◌||◌, Option, none,
  some, List, [], ◌∷◌, ◌++◌, arith, ltb, length, set, take, get_or, All, length-set,
  get_or-set_self, drop-append, take-set_self, take-set_at, lt→ltb,
}
use glu_ke.Base.Int.{pos}
use glu_ke.Mtok.{at_word, Call, is_sep, put, scan, finish, mtok, bad_args, mtok_end, e_buf_2small}

module _ (usep jsep : Option (List ℕ)) (size : ℕ) where
  -- A character that only separates, and one that belongs to a word.
  abbrev pub Joins : ℕ → Type 0
  Joins c = is_sep jsep c ≡ true

  abbrev pub Ordinary : ℕ → Type 0
  Ordinary c = (is_sep jsep c ≡ false) × (is_sep usep c ≡ false)

  -- A text that a word cannot go on into.
  abbrev pub EndsWord : List ℕ → Type 0
  EndsWord [] = Unit {0}
  EndsWord (c ∷ s) = (is_sep jsep c ≡ true) ⊎ (is_sep usep c ≡ true)

  -- The buffer after the characters of a word from index `n` on.
  abbrev pub puts : List ℕ → ℕ → List ℕ → List ℕ
  puts buf n [] = buf
  puts buf n (c ∷ w) = puts (put size buf n c) (n + 1) w

  scan-skip :
      (skip rest : List ℕ) (i n : ℕ) (buf : List ℕ)
      → All Joins skip
      → scan usep jsep size (skip ++ rest) i n false buf
        ≡ scan usep jsep size rest (i + length skip) n false buf
  unfolding scan
  scan-skip [] rest i n buf h = let e : i + 0 ≡ i = omega arith in rw e
  scan-skip (c ∷ s) rest i n buf h =
      let e : i + 1 + length s ≡ i + suc (length s) = omega arith in
      rw (h.0, ← e) (scan-skip s rest (i + 1) n buf h.1)

  scan-word :
      (w tail : List ℕ) (i n : ℕ) (buf : List ℕ)
      → All Ordinary w
      → EndsWord tail
      → scan usep jsep size (w ++ tail) i n true buf
        ≡ at_word (i + length w) (n + length w) (puts buf n w)
  unfolding scan
  scan-word [] [] i n buf h t = ground arith
  scan-word [] (c ∷ s) i n buf h t = ground arith
  scan-word (c ∷ w) tail i n buf h t =
      let a : i + 1 + length w ≡ i + suc (length w) = omega arith in
      let b : n + 1 + length w ≡ n + suc (length w) = omega arith in
      rw (h.0.0, h.0.1, ← a, ← b) (scan-word w tail (i + 1) (n + 1) (put size buf n c) h.1 t)

  length-puts : (w buf : List ℕ) (n : ℕ) → length (puts buf n w) ≡ length buf
  length-puts [] buf n = refl
  length-puts (c ∷ w) buf n =
      length-puts w (put size buf n c) (n + 1) ∙ ground (arith, length-set buf n c)

  -- A word that fits is in the buffer, behind what stood there.
  take-puts :
      (w buf : List ℕ) (n : ℕ)
      → n + length w < size
      → size ≤ length buf
      → take (n + length w) (puts buf n w) ≡ take n buf ++ w
  take-puts [] buf n h k = let e : n + 0 ≡ n = omega arith in rw (e, append-nil)
  take-puts (c ∷ w) buf n h k =
      let fits : ltb n (size - 1) ≡ true = ground arith in
      let e : n + 1 + length w ≡ n + suc (length w) = omega arith in
      let f : n + 1 ≡ suc n = omega arith in
      let more =
        take-puts w (set buf n c) (n + 1) (omega arith) (omega (arith, length-set buf n c)) in
      rw (fits, ← e)
        (more
          ∙ (rw (f, take-set_self buf n c (omega arith)) (append_assoc (take n buf) (c ∷ []) w)))

-- The arguments that all statements below share: a call at the end of `before`.
module _ (usep jsep : Option (List ℕ)) (given : (usep ≢ none) ⊎ (jsep ≢ none)) (size : ℕ)
    (size_ok : 2 ≤ size) (buf before : List ℕ) where
  args_ok : (s : List ℕ) → (bad_args (some s) usep jsep || ltb size 2) ≡ false
  unfolding bad_args
  args_ok s = ground (arith, good usep jsep given)
    where
      good : (u j : Option (List ℕ)) → (u ≢ none) ⊎ (j ≢ none) → bad_args (some s) u j ≡ false
      good none none (inl h) = absurd (h refl)
      good none none (inr h) = absurd (h refl)
      good (some u) j h = refl
      good none (some j) h = refl

  abbrev call : List ℕ → Call
  call rest = mtok (some (before ++ rest)) (length before) buf size usep jsep

  call-finish :
      (rest : List ℕ)
      → call rest
        ≡ finish (scan usep jsep size rest (length before) 0 false buf) (length before) buf size
  unfolding mtok
  call-finish rest = rw (args_ok (before ++ rest), drop-append before rest)

  module _ (skip : List ℕ) (skips : All (Joins usep jsep size) skip) where
    -- A text of separators only is at its end, and the call changes nothing.
    pub mtok_at_end :
        call skip ≡ record { code = mtok_end; cur_pos = length before; buf = buf; buf_size = size }
    unfolding scan finish
    mtok_at_end =
        let s = scan-skip usep jsep size skip [] (length before) 0 buf skips in
        call-finish skip ∙ (rw (← append-nil skip) (rw s refl))

    -- A separator that is a token comes back alone. The position moves by one, however many
    -- characters were skipped before it.
    pub mtok_at_sep :
        (u : ℕ) (tail : List ℕ)
        → is_sep jsep u ≡ false
        → is_sep usep u ≡ true
        → call (skip ++ (u ∷ tail)) ≡ record {
          code = pos 0;
          cur_pos = length before + 1;
          buf = set (set buf 0 u) 1 0;
          buf_size = size;
        }
    unfolding scan finish
    mtok_at_sep u tail j k =
        call-finish (skip ++ (u ∷ tail))
        ∙ (rw (scan-skip usep jsep size skip (u ∷ tail) (length before) 0 buf skips, j, k) refl)

    module _ (c : ℕ) (w tail : List ℕ) (word : All (Ordinary usep jsep size) (c ∷ w))
        (ends : EndsWord usep jsep size tail) where
      abbrev end_pos : ℕ
      end_pos = length before + length skip + length (c ∷ w)

      scan-text :
          scan usep jsep size (skip ++ ((c ∷ w) ++ tail)) (length before) 0 false buf
          ≡ at_word end_pos (length (c ∷ w)) (puts usep jsep size buf 0 (c ∷ w))
      unfolding scan
      scan-text =
          let i : length before + length skip + 1 + length w ≡ end_pos = omega arith in
          let n : 0 + 1 + length w ≡ length (c ∷ w) = omega arith in
          scan-skip usep jsep size skip ((c ∷ w) ++ tail) (length before) 0 buf skips
          ∙ (rw (word.0.0, word.0.1, ← i, ← n)
              (scan-word usep jsep size w tail (length before + length skip + 1) (0 + 1)
                (put size buf 0 c) word.1 ends))

      -- A word shorter than the buffer is found: the call succeeds, leaves the word and a NUL at
      -- the front of the buffer, and moves behind the word.
      pub mtok_word :
          length (c ∷ w) < size
          → size ≤ length buf
          → let r = call (skip ++ ((c ∷ w) ++ tail)) in
            (r.code ≡ pos 0)
            × (r.cur_pos ≡ end_pos)
            × (take (length (c ∷ w)) r.buf ≡ c ∷ w)
            × (get_or r.buf (length (c ∷ w)) 1 ≡ 0)
            × (r.buf_size ≡ size)
      unfolding finish
      mtok_word fits room =
          let written = puts usep jsep size buf 0 (c ∷ w) in
          let l = length-puts usep jsep size (c ∷ w) buf 0 in
          let t = take-puts usep jsep size (c ∷ w) buf 0 (omega arith) room in
          let z : 0 + length (c ∷ w) ≡ length (c ∷ w) = omega arith in
          rw (call-finish (skip ++ ((c ∷ w) ++ tail)), scan-text, lt→ltb (length (c ∷ w)) size fits)
            (
              refl,
              refl,
              take-set_at written (length (c ∷ w)) 0 ∙ rw z at t,
              get_or-set_self written (length (c ∷ w)) 0 1 (omega (arith, l)),
              refl,
            )

      -- For a word that does not fit the call asks for a buffer of its length and one more, and
      -- has already moved behind the word.
      pub mtok_too_small :
          size ≤ length (c ∷ w)
          → let r = call (skip ++ ((c ∷ w) ++ tail)) in
            (r.code ≡ e_buf_2small) × (r.cur_pos ≡ end_pos) × (r.buf_size ≡ length (c ∷ w) + 1)
      unfolding finish
      mtok_too_small short =
          let h : ltb (length (c ∷ w)) size ≡ false = ground arith in
          rw (call-finish (skip ++ ((c ∷ w) ++ tail)), scan-text, h) (refl, refl, refl)
