-- ===== src/Ktasks/Reversed.antt =====
-- What the task of gluKe/ktasks/reverse.c answers to a line.
use mathlib.Core.List.{reverse}
use glu_ke.Base.{
  ℕ, suc, ◌-◌, ◌≡◌, refl, ap, false, some, List, [], ◌∷◌, ◌++◌, arith, ◌==◌, ◌||◌, if◌then◌else◌,
  length, set, All, All-reverse,
}
use glu_ke.Mutex.{str_eq}
use glu_ke.Work.{text_in}
use glu_ke.Ktasks.Reverse.{kills_itself, writes, reverse_round, cut_last, e_word, exit_word}
use glu_ke.Ktasks.Swaps.{swap_loop-reverse}

abbrev pub NotNul : ℕ → Type 0
NotNul c = (c == 0) ≡ false

text_in-append : (text rest : List ℕ) → All NotNul text → text_in (text ++ (0 ∷ rest)) ≡ text
unfolding text_in
text_in-append [] rest h = refl
text_in-append (c ∷ text) rest h = rw (h.0, text_in-append text rest h.1) refl

-- A line: the text, the code of the key that ends it, and a NUL.
abbrev pub line_of : List ℕ → ℕ → List ℕ → List ℕ
line_of text end rest = text ++ (end ∷ (0 ∷ rest))

length-line :
    (text : List ℕ) (end : ℕ) (rest : List ℕ)
    → All NotNul text
    → NotNul end
    → length (text_in (line_of text end rest)) ≡ suc (length text)
unfolding text_in
length-line [] end rest h he = rw he refl
length-line (c ∷ text) end rest h he = rw (h.0, length-line text end rest h.1 he) refl

set_last :
    (text : List ℕ) (c : ℕ) (rest : List ℕ)
    → set (text ++ (c ∷ rest)) (length text) 0 ≡ text ++ (0 ∷ rest)
set_last [] c rest = refl
set_last (d ∷ text) c rest = ap (λ (l : List ℕ). d ∷ l) (set_last text c rest)

cut_last-line :
    (text : List ℕ) (end : ℕ) (rest : List ℕ)
    → All NotNul text
    → NotNul end
    → cut_last (line_of text end rest) ≡ (length text, text ++ (0 ∷ (0 ∷ rest)))
unfolding cut_last
cut_last-line text end rest h he =
    let n = length-line text end rest h he in
    let more : (suc (length text) == 0) ≡ false = ground arith in
    let last : suc (length text) - 1 ≡ length text = omega arith in
    rw (cut_last, n, more, last, set_last text end (0 ∷ rest)) refl

-- The task writes a line without the key that ended it backwards, and an empty line, or kills itself
-- where the line is "e" or "exit".
pub reverse_round-reverse :
    (failed text : List ℕ) (end : ℕ) (rest : List ℕ)
    → All NotNul text
    → NotNul end
    → reverse_round failed (some (line_of text end rest)) ≡ (
        if str_eq text e_word || str_eq text exit_word
        then kills_itself
        else writes (reverse text ∷ (10 ∷ 10 ∷ []) ∷ []))
unfolding reverse_round
reverse_round-reverse failed text end rest h he =
    let cut = cut_last-line text end rest h he in
    let whole = text_in-append text (0 ∷ rest) h in
    let turned = swap_loop-reverse text (0 ∷ (0 ∷ rest)) in
    let back = text_in-append (reverse text) (0 ∷ rest) (All-reverse NotNul text h) in
    rw (reverse_round, cut, whole, turned, back) refl
