-- ===== src/Work/Tests.antt =====
-- Lines that the command loop reads (gluKe/ktasks/work.c).
use glu_ke.Base.{
  ℕ, ◌≡◌, refl, true, none, some, List, [], ◌∷◌, arith, replicate, All, if◌then◌else◌,
}
use glu_ke.Base.Int.{pos, eq_ℤ, ok_code}
use glu_ke.Utils.{itos_ud}
use glu_ke.Mtok.{is_sep, contains}
use glu_ke.Handle.{File}
use glu_ke.Task.{Kernel, Ended, returns, blank_task, task_kill}
use glu_ke.Work.{
  WordBuffers, KtaskInfo, Said, kill_failed, kill_word, ktask_named, after_kill, work_round,
  read_words,
}
use glu_ke.Work.Words.{IsPlain, AreReady, line_of, read_words-AreReady}
use glu_ke.Work.Commands.{work_round-kill}

abbrev infos : List KtaskInfo
infos =
    record { name = b'l' ∷ b'i' ∷ b'f' ∷ b'e' ∷ []; descr = none; tentry = 0x5000 }
    ∷ record { name = b'c' ∷ []; descr = some (b'n' ∷ []); tentry = 0x6000 }
    ∷ []

abbrev buffers : WordBuffers
buffers = record {
  word0 = replicate 0x20 9;
  word1 = replicate 0x20 9;
  word2 = replicate 0x20 9;
  word_size = 0x20;
}

buffers-AreReady : AreReady buffers
buffers-AreReady = record { full_size = refl; room0 = omega arith; room1 = omega arith }

abbrev close_none : File → ℕ → ℕ
close_none f d = d

abbrev kernel : Kernel ℕ
kernel = record {
  tasks =
      record blank_task { id = pos 1 } ∷ record blank_task { id = pos 2; gdt_tss_descr = 4 } ∷ [];
  gdt = replicate 6 (replicate 8 0);
  rgn = record { free_als = []; reserved_als = [] };
  handles = record { ints = record { inited = true; off_count = 0; enabled = true }; handles = [] };
  devices = 0;
  first_task_id = pos 1;
  killer_task_id = pos 3;
  to_kill = pos 2;
  last_planned = 1;
}

work_round-kill_example :
    let r =
      work_round infos close_none
        (pos 1)
        0x1000
        none
        0
        (some (line_of kill_word (itos_ud 2)))
        buffers
        kernel in
    let e : Said × Ended ℕ =
      (if eq_ℤ (pos 2) (pos 1)
        then (kill_failed, returns ok_code kernel)
        else after_kill (task_kill close_none (pos 2) kernel)) in
    (r.1 ≡ e.0) × (r.2 ≡ e.1)
work_round-kill_example =
    work_round-kill infos close_none (pos 1) 0x1000 none 0 buffers buffers-AreReady kernel 2
      (omega arith)

life_word-IsPlain : All IsPlain (b'l' ∷ b'i' ∷ b'f' ∷ b'e' ∷ [])
unfolding is_sep contains
life_word-IsPlain =
    ((omega arith, refl), ((omega arith, refl), ((omega arith, refl), ((omega arith, refl), tt))))

read_words-AreReady_example : AreReady (read_words (b'x' ∷ 32 ∷ []) buffers)
read_words-AreReady_example = read_words-AreReady (b'x' ∷ 32 ∷ []) buffers buffers-AreReady

-- A task that is not in the table is not there to start.
not_named : ktask_named (b'x' ∷ []) infos ≡ none
unfolding ktask_named
not_named = refl
