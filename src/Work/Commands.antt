-- ===== src/Work/Commands.antt =====
-- What a line makes the command loop of gluKe/ktasks/work.c do.
use glu_ke.Base.{
  ℕ, zero, suc, ◌/◌, ◌%◌, ◌^◌, ◌<◌, ◌≡◌, refl, ap, ◌∙◌, inl, inr, true, false, Option, none, some,
  List, arith, ◌==◌, ltb, if◌then◌else◌, length, All, All-reverse, Bool-cases, length-reverse,
}
use glu_ke.Base.Int.{ℤ, pos, eq_ℤ, ok_code, fail_code, is_negative}
use glu_ke.Utils.{itos_ud, itos_digits, digit_char, max_digits, magnitude}
use glu_ke.Utils.RoundTrip.{stoi-itos, itos_ud-digits, length-itos}
use glu_ke.Handle.{File}
use glu_ke.Mutex.{max_name_length, str_eq}
use glu_ke.Mtok.{is_sep, contains}
use glu_ke.Task.{Kernel, Ended, returns, task_kill, task_newk}
use glu_ke.Work.{
  WordBuffers, KtaskInfo, Said, nothing, start_failed, kill_failed, command_of, kill_word,
  start_word, start_ktask, kill_task, ktask_named, run_command, after_kill, work_round, kill, start,
}
use glu_ke.Work.Words.{IsPlain, AreReady, line_of, read_words-line_of}

digit_char-IsPlain : (d : ℕ) → d < 10 → IsPlain (digit_char d)
unfolding is_sep contains
digit_char-IsPlain d h = (ground arith, ground arith)

itos_digits-IsPlain : (fuel x : ℕ) → All IsPlain (itos_digits fuel 10 x)
unfolding itos_digits
itos_digits-IsPlain zero x = tt
itos_digits-IsPlain (suc fuel) x = elim (Bool-cases (x / 10 == 0)) [
  | inl last ↦ rw last (digit_char-IsPlain (x % 10) (omega arith), tt)
  | inr more ↦
      rw more (digit_char-IsPlain (x % 10) (omega arith), itos_digits-IsPlain fuel (x / 10))
]

-- The text of a number is a word of a command.
itos_ud-IsPlain : (x : ℕ) → All IsPlain (itos_ud x)
itos_ud-IsPlain x =
    rw (itos_ud-digits x) (All-reverse IsPlain _ (itos_digits-IsPlain max_digits (magnitude x)))

itos_ud-nonempty : (x : ℕ) → 0 < length (itos_ud x)
unfolding itos_digits
itos_ud-nonempty x =
    rw (itos_ud-digits x) (omega (arith, length-reverse (itos_digits max_digits 10 (magnitude x))))

itos_ud-short : (x : ℕ) → x < 2 ^ 32 → length (itos_ud x) < max_name_length
unfolding itos_ud
itos_ud-short x h = omega (arith, (length-itos x false 10 true 0 h (omega arith) (omega arith)).0)

kill_word-IsPlain : All IsPlain kill_word
unfolding is_sep contains
kill_word-IsPlain =
    ((omega arith, refl), ((omega arith, refl), ((omega arith, refl), ((omega arith, refl), tt))))

start_word-IsPlain : All IsPlain start_word
unfolding is_sep contains
start_word-IsPlain = (
  (omega arith, refl),
  ((omega arith, refl), ((omega arith, refl), ((omega arith, refl), ((omega arith, refl), tt)))),
)

command_of-kill : command_of kill_word ≡ kill
unfolding command_of str_eq
command_of-kill = refl

command_of-start : command_of start_word ≡ start
unfolding command_of str_eq
command_of-start = refl

module _ {D : Type 0} (infos : List KtaskInfo) (close_file : File → D → D) (cur : ℤ) (page_cat : ℕ)
    (memory : Option ℕ) (old : ℕ) (ws : WordBuffers) (ready : AreReady ws) (k : Kernel D) where
  -- What a line of the words `w0` and `w1` does is what its command does.
  work_round-line_of :
      (w0 w1 : List ℕ)
      → All IsPlain w0
      → All IsPlain w1
      → (0 < length w0) × (length w0 < max_name_length)
      → (0 < length w1) × (length w1 < max_name_length)
      → let r = work_round infos close_file cur page_cat memory old (some (line_of w0 w1)) ws k in
        let c = run_command infos close_file cur page_cat memory old (command_of w0) w1 k in
        (r.1 ≡ c.0) × (r.2 ≡ c.1)
  unfolding work_round
  work_round-line_of w0 w1 p0 p1 l0 l1 =
      let words = read_words-line_of ws w0 w1 ready p0 p1 l0 l1 in
      rw (words.0, words.1) (refl, refl)

  run_command-kill :
      (n : ℕ)
      → n < 2 ^ 31
      → run_command infos close_file cur page_cat memory old (command_of kill_word) (itos_ud n) k
        ≡ (if eq_ℤ (pos n) cur
            then (kill_failed, returns ok_code k)
            else after_kill (task_kill close_file (pos n) k))
  unfolding run_command kill_task after_kill
  run_command-kill n small =
      let number = (stoi-itos n old (omega arith)).0 in
      let fits : ltb n (2 ^ 31) ≡ true = ground arith in
      elim (Bool-cases (eq_ℤ (pos n) cur)) [
        | inl self ↦ rw (command_of-kill, run_command, number, fits, self) refl
        | inr other ↦ rw (command_of-kill, run_command, number, fits, other) refl
      ]

  -- The line `kill n` ends task `n` unless it is the one that reads the line, which cannot kill
  -- itself: the number is read back from its text, and the rest is what `task_kill` does.
  pub work_round-kill :
      (n : ℕ)
      → n < 2 ^ 31
      → let r =
          work_round infos close_file cur page_cat memory old
            (some (line_of kill_word (itos_ud n)))
            ws
            k in
        let e : Said × Ended D =
          (if eq_ℤ (pos n) cur
            then (kill_failed, returns ok_code k)
            else after_kill (task_kill close_file (pos n) k)) in
        (r.1 ≡ e.0) × (r.2 ≡ e.1)
  work_round-kill n small =
      let line =
        work_round-line_of kill_word (itos_ud n) kill_word-IsPlain (itos_ud-IsPlain n)
          (omega arith, omega arith) (itos_ud-nonempty n, itos_ud-short n (omega arith)) in
      let done = run_command-kill n small in
      (
        line.0 ∙ ap (λ (x : Said × Ended D). x.0) done,
        line.1 ∙ ap (λ (x : Said × Ended D). x.1) done,
      )

  -- The line `start name` starts the first task of that name, which is planned at once, or says that
  -- it cannot.
  pub work_round-start :
      (name : List ℕ)
      → All IsPlain name
      → (0 < length name) × (length name < max_name_length)
      → let r =
          work_round infos close_file cur page_cat memory old
            (some (line_of start_word name))
            ws
            k in
        let started : ℤ × Kernel D = elim (ktask_named name infos) [
          | none ↦ (fail_code, k)
          | some i ↦ task_newk page_cat memory i.tentry true k
        ] in
        (r.1 ≡ (if is_negative started.0 then start_failed else nothing))
        × (r.2 ≡ returns ok_code started.1)
  unfolding run_command start_ktask
  work_round-start name plain l =
      let line =
        work_round-line_of start_word name start_word-IsPlain plain (omega arith, omega arith) l in
      (line.0 ∙ rw command_of-start refl, line.1 ∙ rw command_of-start refl)
