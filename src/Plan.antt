-- ===== src/Plan.antt =====
-- gluKe/plan.c: the scheduler. The tasks are a list, a pointer to a task is its index, and the first
-- task, which is never removed, has index 0. `last_planned_task` is set by `plan_init`, so it is no
-- null pointer here.
pub mod Sleep
pub mod Pick
pub mod Next
mod Tests
use glu_ke.Base.{
  ℕ, zero, suc, ◌+◌, ◌-◌, ◌/◌, Bool, true, false, not, ◌&&◌, ◌||◌, Option, none, some, List, [],
  ◌∷◌, ltb, leb, ◌==◌, if◌then◌else◌, length, get_or, set,
}
use glu_ke.Base.Int.{ℤ, pos}

-- What the scheduler reads of `struct task`.
pub record Sched : Type 0 where
  pub id : ℤ
  pub plan : Bool
  pub sleep_mksec : ℕ

abbrev pub no_task : Sched
no_task = record { id = pos 0; plan = false; sleep_mksec = 0 }

abbrev pub task_at : List Sched → ℕ → Sched
task_at ts i = get_or ts i no_task

-- ll_next_loop
pub next_loop : ℕ → ℕ → ℕ
next_loop n i = if ltb (i + 1) n then i + 1 else 0

-- One task's sleep after a tick of `tick` microseconds.
unfoldable pub age : ℕ → Sched → Sched
age tick t =
    if t.sleep_mksec == 0
    then t
    else if leb t.sleep_mksec tick
    then record t { sleep_mksec = 0 }
    else record t { sleep_mksec = t.sleep_mksec - tick }

-- The first do-while loop; `none` when the fuel runs out.
pub age_loop : ℕ → ℕ → ℕ → List Sched → Option (List Sched)
unfolding next_loop age
age_loop zero tick i ts = none
age_loop (suc fuel) tick i ts =
    let i' = next_loop (length ts) i in
    let ts' = set ts i' (age tick (task_at ts i')) in
    let rest = age_loop fuel tick i' ts' in if i' == 0 then some ts' else rest

abbrev pub runnable : Sched → Bool
runnable t = t.plan && t.sleep_mksec == 0

-- The second do-while loop, from task `i` on: where it stops.
pub pick_loop : ℕ → List Sched → ℕ → ℕ → Option ℕ
unfolding next_loop
pick_loop zero ts last i = none
pick_loop (suc fuel) ts last i =
    let i' = next_loop (length ts) i in
    let rest = pick_loop fuel ts last i' in
    if runnable (task_at ts i') || i' == last then some i' else rest

-- "no task to plan, so plan idle task"
pub or_idle : List Sched → ℕ → ℕ
or_idle ts i = if (task_at ts i).plan then i else 0

-- The tasks with their new sleeps and the task that runs next, which is the new
-- `last_planned_task`. Each loop gets a round for each task.
pub plan : ℕ → List Sched → ℕ → Option (List Sched × ℕ)
unfolding age_loop pick_loop or_idle
plan tick ts last = elim (age_loop (length ts) tick 0 ts) [
  | none ↦ none
  | some ts' ↦ elim (pick_loop (length ts') ts' last last) [
    | none ↦ none
    | some i ↦ some (ts', or_idle ts' i)
  ]
]
