-- ===== src/Work/Words.antt =====
-- The words that the command loop of gluKe/ktasks/work.c finds in a line.
use glu_ke.Base.{
  ℕ, ◌+◌, ◌≤◌, ◌<◌, ◌≡◌, ◌≢◌, refl, ap, ◌∙◌, inl, inr, false, none, some, List, [], ◌∷◌, ◌++◌,
  arith, ◌==◌, length, take, drop, length-set, Bool-cases, get_or, All,
}
use glu_ke.Base.Int.{pos, eq_ℤ}
use glu_ke.Mutex.{max_name_length}
use glu_ke.Mtok.{mtok, is_sep, contains}
use glu_ke.Mtok.Buffer.{mtok-Kept}
use glu_ke.Mtok.Words.{Ordinary, Joins, EndsWord, mtok_word}
use glu_ke.Work.{text_in, blanks, read_word, WordBuffers, read_words}

-- A character of a word on the command line.
abbrev pub IsPlain : ℕ → Type 0
IsPlain c = (c ≢ 0) × (is_sep (some blanks) c ≡ false)

text_in-word :
    (w buf : List ℕ)
    → All IsPlain w
    → take (length w) buf ≡ w
    → get_or buf (length w) 1 ≡ 0
    → text_in buf ≡ w
unfolding text_in
text_in-word [] [] h t z = refl
text_in-word [] (b ∷ buf) h t z = ground (arith, z)
text_in-word (c ∷ w) [] h t z = cc
text_in-word (c ∷ w) (b ∷ buf) h t z =
    let e : b ≡ c = ap (λ (s : List ℕ). get_or s 0 0) t in
    let t' : take (length w) buf ≡ w = ap (drop 1) t in
    let ih = text_in-word w buf h.1 t' z in
    let some_char : (c == 0) ≡ false = ground (arith, h.0.0) in rw (e, some_char, ih) refl

ordinary : (size : ℕ) (w : List ℕ) → All IsPlain w → All (Ordinary none (some blanks) size) w
unfolding is_sep
ordinary size [] h = tt
ordinary size (c ∷ w) h = ((h.0.1, refl), ordinary size w h.1)

-- A call at the end of `before` for a word behind blanks.
module _ (size : ℕ) (size_ok : 2 ≤ size) (buf before skip : List ℕ)
    (skips : All (Joins none (some blanks) size) skip) (c : ℕ) (w tail : List ℕ)
    (plain : All IsPlain (c ∷ w)) (ends : EndsWord none (some blanks) size tail)
    (fits : length (c ∷ w) < size) (room : size ≤ length buf) where
  abbrev outcome : ℕ × ℕ × List ℕ
  outcome = read_word (before ++ (skip ++ ((c ∷ w) ++ tail))) (length before) size buf

  read_word-finds :
      (outcome.0 ≡ length before + length skip + length (c ∷ w))
      × (outcome.1 ≡ size)
      × (text_in outcome.2 ≡ c ∷ w)
  unfolding read_word
  read_word-finds =
      let r =
        mtok_word none (some blanks) (inr (λ e. cc)) size size_ok buf before skip skips c w tail
          (ordinary size (c ∷ w) plain) ends fits room in
      rw (read_word, r.0) (r.1, r.4, text_in-word (c ∷ w) _ plain r.2 r.3)

-- Buffers that the loop leaves to the next line.
pub record AreReady (ws : WordBuffers) : Type 0 where
  pub full_size : ws.word_size ≡ max_name_length
  pub room0 : max_name_length ≤ length ws.word0
  pub room1 : max_name_length ≤ length ws.word1

-- A line of two words, each shorter than a name may be, with a blank between and a newline behind.
abbrev pub line_of : List ℕ → List ℕ → List ℕ
line_of w0 w1 = w0 ++ (32 ∷ (w1 ++ (10 ∷ [])))

read_words-nonempty :
    (ws : WordBuffers) (c0 : ℕ) (w0 : List ℕ) (c1 : ℕ) (w1 : List ℕ)
    → AreReady ws
    → All IsPlain (c0 ∷ w0)
    → All IsPlain (c1 ∷ w1)
    → length (c0 ∷ w0) < max_name_length
    → length (c1 ∷ w1) < max_name_length
    → let ws' = read_words (line_of (c0 ∷ w0) (c1 ∷ w1)) ws in
      (text_in ws'.word0 ≡ c0 ∷ w0) × (text_in ws'.word1 ≡ c1 ∷ w1)
unfolding read_words is_sep contains
read_words-nonempty ws c0 w0 c1 w1 v p0 p1 fits0 fits1 =
    let size = ws.word_size in
    let full = v.full_size in
    let line = line_of (c0 ∷ w0) (c1 ∷ w1) in
    let n0 = length (c0 ∷ w0) in
    let room0 = v.room0 in
    let room1 = v.room1 in
    let size_ok : 2 ≤ size = omega (arith, full) in
    let first =
      read_word-finds size size_ok ws.word0 [] [] tt c0 w0 (32 ∷ ((c1 ∷ w1) ++ (10 ∷ []))) p0
        (inl refl) (omega (arith, full, fits0)) (omega (arith, full, room0)) in
    let second =
      read_word-finds size size_ok ws.word1 (c0 ∷ w0) (32 ∷ []) (refl, tt) c1 w1 (10 ∷ []) p1
        (inl refl) (omega (arith, full, fits1)) (omega (arith, full, room1)) in
    let found = read_word line 0 size ws.word0 in
    let behind : found.0 ≡ n0 = first.0 ∙ omega arith in
    (
      first.2,
      ap (λ (p : ℕ). text_in (read_word line p found.1 ws.word1).2) behind
          ∙ ap (λ (z : ℕ). text_in (read_word line n0 z ws.word1).2) first.1
          ∙ second.2,
    )

-- The command loop finds the words of a line of two.
pub read_words-line_of :
    (ws : WordBuffers) (w0 w1 : List ℕ)
    → AreReady ws
    → All IsPlain w0
    → All IsPlain w1
    → (0 < length w0) × (length w0 < max_name_length)
    → (0 < length w1) × (length w1 < max_name_length)
    → let ws' = read_words (line_of w0 w1) ws in (text_in ws'.word0 ≡ w0) × (text_in ws'.word1 ≡ w1)
read_words-line_of ws [] w1 v p0 p1 l0 l1 = absurd (omega (arith, l0.0))
read_words-line_of ws (c0 ∷ w0) [] v p0 p1 l0 l1 = absurd (omega (arith, l1.0))
read_words-line_of ws (c0 ∷ w0) (c1 ∷ w1) v p0 p1 l0 l1 =
    read_words-nonempty ws c0 w0 c1 w1 v p0 p1 l0.1 l1.1

-- What a call leaves for the next one: the size is the full one again, and the buffer has its length.
read_word-keeps :
    (line : List ℕ) (pos_in size : ℕ) (buf : List ℕ)
    → size ≡ max_name_length
    → let r = read_word line pos_in size buf in (r.1 ≡ max_name_length) × (length r.2 ≡ length buf)
unfolding read_word
read_word-keeps line pos_in size buf full =
    let r = mtok (some line) pos_in buf size none (some blanks) in
    let kept = mtok-Kept (some line) pos_in buf size none (some blanks) in
    elim (Bool-cases (eq_ℤ r.code (pos 0))) [
      | inr fails ↦ rw (read_word, fails) (refl, length-set r.buf 0 0 ∙ kept.0)
      | inl finds ↦ elim kept.1 [
        | inl fails ↦ absurd (cc (finds, fails))
        | inr same ↦ rw (read_word, finds) (same ∙ full, kept.0)
      ]
    ]

-- Whatever the line is, the command loop has its buffers ready for the next one.
pub read_words-AreReady :
    (line : List ℕ) (ws : WordBuffers) → AreReady ws → AreReady (read_words line ws)
unfolding read_words
read_words-AreReady line ws v =
    let first = read_word-keeps line 0 ws.word_size ws.word0 v.full_size in
    let r0 = read_word line 0 ws.word_size ws.word0 in
    let second = read_word-keeps line r0.0 r0.1 ws.word1 first.0 in
    let r1 = read_word line r0.0 r0.1 ws.word1 in
    let third = read_word-keeps line r1.0 r1.1 ws.word2 second.0 in
    let room0 = v.room0 in
    let room1 = v.room1 in
    record { full_size = third.0; room0 = omega (arith, first.1); room1 = omega (arith, second.1) }
