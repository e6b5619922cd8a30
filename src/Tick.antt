-- ===== src/Tick.antt =====
-- The timer: its task (int_handle_timer and int_init_timer_task of gluKe/int.c) and what it calls
-- (plan, plan_timer_handler and plan_init of gluKe/plan.c), over the tasks of the kernel. `tr` is the
-- selector in the task register and `tick` the variable timer_cur_mksec_per_tick.
pub mod Round
pub mod Setup
pub mod Cases
mod Tests
use glu_ke.Base.{
  ℕ, zero, suc, ◌+◌, ◌-◌, ◌*◌, ◌/◌, ◌%◌, ◌^◌, Bool, true, false, Option, none, some, List, [], ◌∷◌,
  map, ◌==◌, if◌then◌else◌, get_or, set,
}
use glu_ke.Base.Int.{ℤ, ok_code, fail_code, eq_ℤ, is_negative}
use glu_ke.Int.{Ints, int_off_noinc}
use glu_ke.Int.Idt.{Idt}
use glu_ke.Plan.{Sched, plan}
use glu_ke.Task.{Task, Kernel, task_at, kone, kall, task_newk}
use glu_ke.Task.Switch.{task_set_previous, task_switch, task_fill_idt_task_gate}

-- What the scheduler reads of a task.
abbrev pub sched_of : Task → Sched
sched_of t = record { id = t.id; plan = t.plan; sleep_mksec = t.sleep_mksec }

-- The tasks with the sleeps that the scheduler has set.
unfoldable pub with_sleeps : List Sched → List Task → List Task
with_sleeps [] ts = ts
with_sleeps (s ∷ ss) [] = []
with_sleeps (s ∷ ss) (t ∷ ts) = record t { sleep_mksec = s.sleep_mksec } ∷ with_sleeps ss ts

-- The place of the timer's gate in the table.
abbrev pub int_timer : ℕ
int_timer = 0x20

-- The four 16-bit words of a gate as its bytes, and back.
abbrev pub bytes_of_gate : List ℕ → List ℕ
bytes_of_gate [] = []
bytes_of_gate (w ∷ ws) = w % 2 ^ 8 ∷ w / 2 ^ 8 ∷ bytes_of_gate ws

abbrev pub gate_of_bytes : List ℕ → List ℕ
gate_of_bytes [] = []
gate_of_bytes (lo ∷ []) = []
gate_of_bytes (lo ∷ (hi ∷ bs)) = (lo + hi * 2 ^ 8) ∷ gate_of_bytes bs

-- The kernel with the variables of int.c that the timer's task uses. The callback is `none` where the
-- pointer is null, and what it does to the kernel.
pub record Clock (D : Type 0) : Type 0 where
  pub kernel : Kernel D
  pub nof_mseconds : ℕ
  pub timer_task_callback : Option (Kernel D → Option (Kernel D))

-- `cli` with `off_count++`, and `off_count--` with `sti`.
abbrev pub enter : Ints → Ints
enter s = record s { off_count = s.off_count + 1; enabled = false }

abbrev pub leave : Ints → Ints
leave s = record s { off_count = s.off_count - 1; enabled = true }

module _ {D : Type 0} where
  -- `plan` up to the choice of the next task, which it stores.
  unfoldable pub choose : ℕ → Kernel D → Option (Kernel D)
  unfolding with_sleeps
  choose tick k = elim (plan tick (map sched_of k.tasks) k.last_planned) [
    | none ↦ none
    | some (ss, i) ↦ some (record k { tasks = with_sleeps ss k.tasks; last_planned = i })
  ]

  -- `plan(1)`, by a task: interrupts go off, and the switch turns them on.
  unfoldable pub plan_by_task : ℕ → ℕ → Kernel D → Option (Kernel D)
  unfolding choose
  plan_by_task tick tr k =
      let shut = record k {
        handles = record k.handles { ints = (int_off_noinc k.handles.ints).1 };
      } in
      elim (choose tick shut) [
        | none ↦ none
        | some k' ↦ elim (task_switch tr (task_at k'.tasks k'.last_planned).id k') [
          | none ↦ none
          | some r ↦ some (r.1)
        ]
      ]

  -- `plan(0)`, by the timer's task, which goes back to the chosen task.
  unfoldable pub plan_timer_handler : ℕ → ℕ → Kernel D → Option (Kernel D)
  unfolding choose
  plan_timer_handler tick tr k = elim (choose tick k) [
    | none ↦ none
    | some k' ↦ task_set_previous tr k'.last_planned k'
  ]

  abbrev pub with_ints : (Ints → Ints) → Kernel D → Kernel D
  with_ints f k = record k { handles = record k.handles { ints = f k.handles.ints } }

  -- A null pointer is not called.
  unfoldable pub call_back : Option (Kernel D → Option (Kernel D)) → Kernel D → Option (Kernel D)
  call_back none k = some k
  call_back (some f) k = f k

  -- One round of int_handle_timer, from its `cli` to its `iret`; `none` where the kernel ends.
  unfoldable pub timer_round : Clock D → Option (Clock D)
  unfolding call_back
  timer_round c = elim (call_back c.timer_task_callback (with_ints enter c.kernel)) [
    | none ↦ none
    | some k ↦
        some
          (record c { kernel = with_ints leave k; nof_mseconds = (c.nof_mseconds + 55) % 2 ^ 32 })
  ]

  -- `entry` is the address of int_handle_timer. Without a task it returns within its section.
  unfoldable pub int_init_timer_task :
      ℕ → Option ℕ → ℕ → (Kernel D → Option (Kernel D)) → Idt → Clock D → ℤ × Idt × Clock D
  int_init_timer_task page_cat memory entry f idt c =
      let (task_id, k) = task_newk page_cat memory entry false (kone c.kernel) in
      let gate = get_or idt.gates int_timer [] in
      let (code, bytes) = task_fill_idt_task_gate task_id k.tasks (bytes_of_gate gate) in
      if is_negative task_id then (fail_code, idt, record c { kernel = k }) else (
        task_id,
        record idt { gates = set idt.gates int_timer (gate_of_bytes bytes) },
        record c { kernel = kall k; timer_task_callback = some f },
      )

  unfoldable pub plan_init : ℕ → ℕ → ℕ → Option ℕ → ℕ → Idt → Clock D → ℤ × Idt × Clock D
  unfolding int_init_timer_task plan_timer_handler
  plan_init tick tr page_cat memory entry idt c =
      let (code, idt', c') =
        int_init_timer_task page_cat memory entry (plan_timer_handler tick tr) idt c in
      if eq_ℤ code fail_code
      then (fail_code, idt', c')
      else (ok_code, idt', record c' { kernel = record c'.kernel { last_planned = 0 } })
