-- ===== src/Ktasks/Reverse.antt =====
-- gluKe/ktasks/reverse.c: what a line makes the task write.
use glu_ke.Base.{
  ℕ, zero, suc, ◌+◌, ◌-◌, ◌/◌, ◌||◌, Option, none, some, List, [], ◌∷◌, ◌==◌, if◌then◌else◌, length,
  get_or, set,
}
use glu_ke.Mutex.{str_eq}
use glu_ke.Work.{text_in}

-- The loop that swaps, for the `n` rounds from `i` on, over the first `l` bytes of the buffer.
unfoldable pub swap_loop : ℕ → ℕ → ℕ → List ℕ → List ℕ
swap_loop zero i l buf = buf
swap_loop (suc n) i l buf =
    let temp = get_or buf i 0 in
    let buf' = set (set buf i (get_or buf (l - 1 - i) 0)) (l - 1 - i) temp in
    swap_loop n (i + 1) l buf'

-- The buffer without the last code of its text, and the length of what is left.
unfoldable pub cut_last : List ℕ → ℕ × List ℕ
unfolding text_in
cut_last buf =
    let l = length (text_in buf) in if l == 0 then (0, buf) else (l - 1, set buf (l - 1) 0)

abbrev pub e_word : List ℕ
e_word = b'e' ∷ []

abbrev pub exit_word : List ℕ
exit_word = b'e' ∷ b'x' ∷ b'i' ∷ b't' ∷ []

-- A round of the loop behind the greeting.
pub data Reply : Type 0 where
  kills_itself : Reply
  writes : List (List ℕ) → Reply

-- `failed` is the message for a line that could not be read.
unfoldable pub reverse_round : List ℕ → Option (List ℕ) → Reply
unfolding cut_last swap_loop text_in str_eq
reverse_round failed none = writes (failed ∷ [])
reverse_round failed (some line) =
    let (l, buf) = cut_last line in
    if str_eq (text_in buf) e_word || str_eq (text_in buf) exit_word
    then kills_itself
    else writes (text_in (swap_loop (l / 2) 0 l buf) ∷ (10 ∷ 10 ∷ []) ∷ [])
