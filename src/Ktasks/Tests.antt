-- ===== src/Ktasks/Tests.antt =====
-- The demonstrations on a terminal that keeps what is written to it (gluKe/ktasks/).
use mathlib.Core.Option
use mathlib.Core.List.{reverse}
use glu_ke.Base.{ℕ, ◌+◌, ◌≡◌, refl, true, some, List, [], ◌∷◌, ◌==◌, ◌||◌, if◌then◌else◌, arith}
use glu_ke.Base.Int.{pos, ok_code}
use glu_ke.Handle.{no_handle, type_file}
use glu_ke.Mutex.{str_eq}
use glu_ke.File.{Driver, Files, no_driver, ioctl}
use glu_ke.Console.{term_ioctl_mode_terminal, term_ioctl_mode_picture}
use glu_ke.Life.Shapes.{sample_gliders_type}
use glu_ke.Life.Step.{play_boards}
use glu_ke.Ktasks.Counter.{counter_rounds, numbers_from, counter_rounds-numbers}
use glu_ke.Ktasks.Reverse.{kills_itself, writes, reverse_round, e_word, exit_word}
use glu_ke.Ktasks.Reversed.{line_of, reverse_round-reverse}
use glu_ke.Ktasks.LifeTask.{start_life, sample_of, sample_numbered}
use glu_ke.Ktasks.Boards.{show_board, first_board, start_life-boards}

-- The terminal counts the writes and has a key after 4000 of them.
abbrev terminal : Driver ℕ
terminal = record no_driver {
  read_file = some (λ f bytes n. (if n == 4000 then pos 1 else pos 0, [], n));
  write_file = some (λ f buf n. (pos 4, n + 1));
  ioctl_file = some (λ f cmd arg n. (ok_code, n));
}

abbrev files : Files ℕ
files = record {
  handles = record {
    ints = record { inited = true; off_count = 0; enabled = true };
    handles = record no_handle { id = pos 1; type = type_file } ∷ [];
  };
  devices = 0;
}

gliders : sample_numbered 1 ≡ some (sample_of sample_gliders_type)
unfolding sample_numbered
gliders = refl

start_life-boards_example :
    start_life (terminal ∷ []) (pos 1) 9 1 files
    ≡ Option.map
        (λ (f : Files ℕ). (ok_code, (ioctl (terminal ∷ []) (pos 1) term_ioctl_mode_terminal 0 f).1))
        (play_boards 80 25
          (show_board (terminal ∷ []) (pos 1))
          9
          (first_board (sample_of sample_gliders_type))
          (ioctl (terminal ∷ []) (pos 1) term_ioctl_mode_picture 0 files).1)
start_life-boards_example =
    start_life-boards (terminal ∷ []) (pos 1) 9 1 (sample_of sample_gliders_type) files gliders

three_rounds : counter_rounds 3 7 ≡ numbers_from 7 15
three_rounds = counter_rounds-numbers 3 7 (omega arith)

-- "abc" and the key that ends a line.
abbrev abc : List ℕ
abc = b'a' ∷ b'b' ∷ b'c' ∷ []

reverse_round-reverse_example : reverse_round [] (some (line_of abc 13 (7 ∷ []))) ≡ (
    if str_eq abc e_word || str_eq abc exit_word
    then kills_itself
    else writes (reverse abc ∷ (10 ∷ 10 ∷ []) ∷ []))
reverse_round-reverse_example =
    reverse_round-reverse [] abc 13 (7 ∷ []) (refl, (refl, (refl, tt))) refl
