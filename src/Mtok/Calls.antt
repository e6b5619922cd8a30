-- ===== src/Mtok/Calls.antt =====
-- Two calls of `mtok` (mylib/mtok.c) in a row, the second from the position the first one left.
use mathlib.Core.List.{append_assoc}
use glu_ke.Base.{
  ℕ, ◌+◌, ◌≤◌, ◌≡◌, ◌≢◌, refl, ap, ◌∙◌, ◌⊎◌, true, false, Option, none, some, List, [], ◌∷◌, ◌++◌,
  arith, length, set, All, length-append,
}
use glu_ke.Base.Int.{pos}
use glu_ke.Mtok.{Call, is_sep, mtok, mtok_end, e_buf_2small}
use glu_ke.Mtok.Words.{Joins, Ordinary, EndsWord, mtok_at_end, mtok_at_sep, mtok_too_small}

module _ (usep jsep : Option (List ℕ)) (given : (usep ≢ none) ⊎ (jsep ≢ none)) (size : ℕ)
    (size_ok : 2 ≤ size) (buf before : List ℕ) where
  -- If characters were skipped before a separator that is a token, the next call from the position
  -- that the first one left returns the same separator once more.
  pub mtok_repeats_sep :
      (s : ℕ) (skip : List ℕ) (u : ℕ) (tail : List ℕ)
      → All (Joins usep jsep size) (s ∷ skip)
      → is_sep jsep u ≡ false
      → is_sep usep u ≡ true
      → let text = some (before ++ (s ∷ skip ++ (u ∷ tail))) in
        let r = mtok text (length before) buf size usep jsep in
        let again = mtok text r.cur_pos r.buf size usep jsep in
        (r.code ≡ pos 0)
        × (again.code ≡ pos 0)
        × (again.buf ≡ set (set r.buf 0 u) 1 0)
        × (again.cur_pos ≡ length before + 2)
  mtok_repeats_sep s skip u tail h j k =
      let first = mtok_at_sep usep jsep given size size_ok buf before (s ∷ skip) h u tail j k in
      let second =
        mtok_at_sep usep jsep given size size_ok (set (set buf 0 u) 1 0) (before ++ (s ∷ [])) skip
          h.1 u tail j k in
      let l : length (before ++ (s ∷ [])) ≡ length before + 1 =
        omega (arith, length-append before (s ∷ [])) in
      let again = rw (l, append_assoc before (s ∷ []) (skip ++ (u ∷ tail))) at second in
      rw first (
        refl,
        ap (λ (c : Call). c.code) again,
        ap (λ (c : Call). c.buf) again,
        ap (λ (c : Call). c.cur_pos) again ∙ omega arith,
      )

  -- After a call that found its buffer too small, the call with the buffer it asked for does not
  -- get the word: behind the last word of a text it reports the end.
  pub mtok_retry_loses :
      (skip : List ℕ) (c : ℕ) (w tail larger : List ℕ)
      → All (Joins usep jsep size) skip
      → All (Ordinary usep jsep size) (c ∷ w)
      → EndsWord usep jsep size tail
      → All (Joins usep jsep size) tail
      → size ≤ length (c ∷ w)
      → let text = some (before ++ (skip ++ ((c ∷ w) ++ tail))) in
        let r = mtok text (length before) buf size usep jsep in
        (r.code ≡ e_buf_2small)
        × ((mtok text r.cur_pos larger r.buf_size usep jsep).code ≡ mtok_end)
  mtok_retry_loses skip c w tail larger skips word ends rest short =
      let first =
        mtok_too_small usep jsep given size size_ok buf before skip skips c w tail word ends
          short in
      let start = before ++ (skip ++ (c ∷ w)) in
      let second =
        mtok_at_end usep jsep given (length (c ∷ w) + 1) (omega arith) larger start tail rest in
      let l : length start ≡ length before + length skip + length (c ∷ w) =
        omega (arith, length-append before (skip ++ (c ∷ w)), length-append skip (c ∷ w)) in
      let text : start ++ tail ≡ before ++ (skip ++ ((c ∷ w) ++ tail)) =
        append_assoc before (skip ++ (c ∷ w)) tail
        ∙ ap (λ (t : List ℕ). before ++ t) (append_assoc skip (c ∷ w) tail) in
      (first.0, rw (first.1, first.2) (ap (λ (r : Call). r.code) (rw (l, text) at second)))
