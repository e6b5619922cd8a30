-- ===== src/Work.antt =====
-- gluKe/ktasks/work.c: the task that reads commands from the terminal and starts and kills tasks. A
-- line is what read_line leaves in its buffer. The texts that the commands print are not modelled,
-- only which of them is printed.
pub mod Words
pub mod Commands
mod Tests
use glu_ke.Base.{
  ℕ, zero, suc, ◌-◌, ◌^◌, Bool, true, false, not, ◌||◌, Option, none, some, List, [], ◌∷◌, map, ltb,
  ◌==◌, if◌then◌else◌, set,
}
use glu_ke.Base.Find.{find_index}
use glu_ke.Base.Int.{ℤ, pos, negsuc, eq_ℤ, ok_code, fail_code, is_negative, to_int}
use glu_ke.Utils.{stoi}
use glu_ke.Mtok.{Call, mtok}
use glu_ke.Mutex.{str_eq, max_name_length}
use glu_ke.Handle.{File}
use glu_ke.Task.{Kernel, Ended, dies, returns, task_newk, task_kill}

-- struct ktask_info with the address of the entry; the description is its text or none.
pub record KtaskInfo : Type 0 where
  pub name : List ℕ
  pub descr : Option (List ℕ)
  pub tentry : ℕ

-- The text in a buffer.
unfoldable pub text_in : List ℕ → List ℕ
text_in [] = []
text_in (c ∷ cs) = let rest = c ∷ text_in cs in if c == 0 then [] else rest

-- The separators of words, " \r\n".
abbrev pub blanks : List ℕ
blanks = 32 ∷ 13 ∷ 10 ∷ []

-- One of the three calls of `mtok`, with what stands behind it: the position, the size and the buffer.
unfoldable pub read_word : List ℕ → ℕ → ℕ → List ℕ → ℕ × ℕ × List ℕ
read_word line cur_pos word_size buf =
    let r = mtok (some line) cur_pos buf word_size none (some blanks) in
    if eq_ℤ r.code (pos 0)
    then (r.cur_pos, r.buf_size, r.buf)
    else (r.cur_pos, max_name_length, set r.buf 0 0)

-- The array `words` and `word_size`, which the loop keeps from one line to the next.
pub record WordBuffers : Type 0 where
  pub word0 : List ℕ
  pub word1 : List ℕ
  pub word2 : List ℕ
  pub word_size : ℕ

unfoldable pub read_words : List ℕ → WordBuffers → WordBuffers
unfolding read_word
read_words line ws =
    let (pos0, size0, buf0) = read_word line 0 ws.word_size ws.word0 in
    let (pos1, size1, buf1) = read_word line pos0 size0 ws.word1 in
    let (pos2, size2, buf2) = read_word line pos1 size1 ws.word2 in
    record { word0 = buf0; word1 = buf1; word2 = buf2; word_size = size2 }

abbrev pub start_word : List ℕ
start_word = b's' ∷ b't' ∷ b'a' ∷ b'r' ∷ b't' ∷ []

abbrev pub s_word : List ℕ
s_word = b's' ∷ []

abbrev pub tnames_word : List ℕ
tnames_word = b't' ∷ b'n' ∷ b'a' ∷ b'm' ∷ b'e' ∷ b's' ∷ []

abbrev pub tasks_word : List ℕ
tasks_word = b't' ∷ b'a' ∷ b's' ∷ b'k' ∷ b's' ∷ []

abbrev pub kill_word : List ℕ
kill_word = b'k' ∷ b'i' ∷ b'l' ∷ b'l' ∷ []

abbrev pub k_word : List ℕ
k_word = b'k' ∷ []

abbrev pub tdescr_word : List ℕ
tdescr_word = b't' ∷ b'd' ∷ b'e' ∷ b's' ∷ b'c' ∷ b'r' ∷ []

abbrev pub help_word : List ℕ
help_word = b'h' ∷ b'e' ∷ b'l' ∷ b'p' ∷ []

abbrev pub handles_word : List ℕ
handles_word = b'h' ∷ b'a' ∷ b'n' ∷ b'd' ∷ b'l' ∷ b'e' ∷ b's' ∷ []

abbrev pub memory_word : List ℕ
memory_word = b'm' ∷ b'e' ∷ b'm' ∷ b'o' ∷ b'r' ∷ b'y' ∷ []

-- The branches of the command loop.
pub data Command : Type 0 where
  start : Command
  tnames : Command
  tasks : Command
  kill : Command
  tdescr : Command
  help : Command
  handles : Command
  memory_map : Command
  unknown : Command

-- The chain of tests on the first word.
unfoldable pub command_of : List ℕ → Command
unfolding str_eq
command_of w =
    if str_eq w start_word || str_eq w s_word
    then start
    else if str_eq w tnames_word
    then tnames
    else if str_eq w tasks_word
    then tasks
    else if str_eq w kill_word || str_eq w k_word
    then kill
    else if str_eq w tdescr_word
    then tdescr
    else if str_eq w help_word
    then help
    else if str_eq w handles_word
    then handles
    else if str_eq w memory_word
    then memory_map
    else unknown

-- The loops of start_ktask and task_info over the tasks that can be started.
unfoldable pub ktask_named : List ℕ → List KtaskInfo → Option KtaskInfo
unfolding str_eq
ktask_named name [] = none
ktask_named name (i ∷ is) =
    let rest = ktask_named name is in if str_eq i.name name then some i else rest

-- task_info: the text that it prints, or none for a failure.
unfoldable pub task_info : List ℕ → List KtaskInfo → Option (Option (List ℕ))
unfolding ktask_named
task_info name infos = elim (ktask_named name infos) [ none ↦ none | some i ↦ some (i.descr) ]

-- print_ktask_names: the names that it prints.
pub print_ktask_names : List KtaskInfo → List (List ℕ)
print_ktask_names infos = map (λ i. i.name) infos

-- What a line makes the task print, besides what a command prints that succeeds.
pub data Said : Type 0 where
  nothing : Said
  read_failed : Said
  start_failed : Said
  kill_failed : Said
  descr_failed : Said
  unknown_command : Said

-- The end of a kill command; a dead kernel does not come back.
unfoldable pub after_kill : {D : Type 0} → Ended D → Said × Ended D
after_kill dies = (nothing, dies)
after_kill (returns code k) =
    (if eq_ℤ code ok_code then nothing else kill_failed, returns ok_code k)

module _ {D : Type 0} (infos : List KtaskInfo) where
  -- `memory` is what `ll_push_back` gets for the new node.
  unfoldable pub start_ktask : ℕ → Option ℕ → List ℕ → Kernel D → ℤ × Kernel D
  unfolding ktask_named
  start_ktask page_cat memory name k = elim (ktask_named name infos) [
    | none ↦ (fail_code, k)
    | some i ↦ task_newk page_cat memory i.tentry true k
  ]

  module _ (close_file : File → D → D) (cur : ℤ) where
    -- `cur` is what task_cur_id returns; `old` is what the variable held that stoi writes.
    unfoldable pub kill_task : List ℕ → ℕ → Kernel D → Ended D
    kill_task sid old k =
        let (code, w) = stoi (some sid) old in
        if not (eq_ℤ code ok_code)
        then returns fail_code k
        else if eq_ℤ (to_int w) cur
        then returns fail_code k
        else task_kill close_file (to_int w) k

    -- A command with its argument. The tables that `tasks`, `handles` and `memory` print they do not
    -- change.
    unfoldable pub run_command : ℕ → Option ℕ → ℕ → Command → List ℕ → Kernel D → Said × Ended D
    unfolding start_ktask kill_task task_info after_kill
    run_command page_cat memory old start arg k =
        let (code, k') = start_ktask page_cat memory arg k in
        (if is_negative code then start_failed else nothing, returns ok_code k')
    run_command page_cat memory old kill arg k = after_kill (kill_task arg old k)
    run_command page_cat memory old tdescr arg k = elim (task_info arg infos) [
      | none ↦ (descr_failed, returns ok_code k)
      | some d ↦ (nothing, returns ok_code k)
    ]
    run_command page_cat memory old tnames arg k = (nothing, returns ok_code k)
    run_command page_cat memory old tasks arg k = (nothing, returns ok_code k)
    run_command page_cat memory old help arg k = (nothing, returns ok_code k)
    run_command page_cat memory old handles arg k = (nothing, returns ok_code k)
    run_command page_cat memory old memory_map arg k = (nothing, returns ok_code k)
    run_command page_cat memory old unknown arg k = (unknown_command, returns ok_code k)

    -- One round of the loop of `work`, for what read_line has read; `none` where it fails.
    unfoldable pub work_round :
        ℕ → Option ℕ → ℕ → Option (List ℕ) → WordBuffers → Kernel D → WordBuffers × Said × Ended D
    unfolding read_words command_of run_command
    work_round page_cat memory old none ws k = (ws, read_failed, returns ok_code k)
    work_round page_cat memory old (some line) ws k =
        let ws' = read_words line ws in
        let (said, ended) =
          run_command page_cat memory old (command_of (text_in ws'.word0)) (text_in ws'.word1) k in
        (ws', said, ended)
