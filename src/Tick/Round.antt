-- ===== src/Tick/Round.antt =====
-- A round of the timer's task (gluKe/int.c) with the scheduler (gluKe/plan.c) as its callback.
use glu_ke.Base.{
  ℕ, ◌+◌, ◌%◌, ◌^◌, ◌≤◌, ◌<◌, ◌≡◌, refl, ap, ◌∙◌, true, false, some, List, [], ◌∷◌, map, length,
  set, arith, length-map,
}
use glu_ke.Base.Find.{find_index}
use glu_ke.Plan.{Sched, age, plan, task_at, runnable}
use glu_ke.Plan.Pick.{behind}
use glu_ke.Plan.Next.{plan_runs_next}
use glu_ke.Task
use glu_ke.Task.{Task, Kernel, task_get_by_sel}
use glu_ke.Task.Switch.{task_set_previous-linked, linked}
use glu_ke.Tick.{
  Clock, sched_of, with_sleeps, choose, plan_timer_handler, with_ints, enter, leave, timer_round,
}

-- A task after a tick.
abbrev pub age_task : ℕ → Task → Task
age_task tick t = record t { sleep_mksec = (age tick (sched_of t)).sleep_mksec }

with_sleeps-age :
    (tick : ℕ) (ts : List Task)
    → with_sleeps (map (age tick) (map sched_of ts)) ts ≡ map (age_task tick) ts
unfolding with_sleeps
with_sleeps-age tick [] = refl
with_sleeps-age tick (t ∷ ts) =
    ap (λ (l : List Task). age_task tick t ∷ l) (with_sleeps-age tick ts)

-- A tick changes no selector.
find-age_task :
    (tick reg : ℕ) (ts : List Task)
    → task_get_by_sel reg (map (age_task tick) ts) ≡ task_get_by_sel reg ts
unfolding task_get_by_sel find_index
find-age_task tick reg [] = refl
find-age_task tick reg (t ∷ ts) = rw (find-age_task tick reg ts) refl

module _ {D : Type 0} (tick reg i : ℕ) (c : Clock D) where
  -- What the scheduler reads of the tasks after the tick.
  abbrev pub scheds : List Sched
  scheds = map (age tick) (map sched_of c.kernel.tasks)

  abbrev pub aged_tasks : List Task
  aged_tasks = map (age_task tick) c.kernel.tasks

  -- The task `m` places behind the one that was planned last.
  abbrev pub place : ℕ → ℕ
  place m = behind (length scheds) c.kernel.last_planned m

  -- The state after a round that goes on to the task at `target`: the timer's task leads back to it,
  -- all sleeps are a tick shorter, and the sections are as before, with interrupts on.
  pub record Ticked (target : ℕ) (c' : Clock D) : Type 0 where
    pub time : c'.nof_mseconds ≡ (c.nof_mseconds + 55) % 2 ^ 32
    pub chosen : c'.kernel.last_planned ≡ target
    pub tasks :
        c'.kernel.tasks
        ≡ set aged_tasks i (
            let t = Task.task_at aged_tasks i in
            record t {
              tss = record t.tss { prev_task = (Task.task_at aged_tasks target).selector };
            })
    pub ints : c'.kernel.handles.ints ≡ record c.kernel.handles.ints { enabled = true }
    pub handles : c'.kernel.handles.handles ≡ c.kernel.handles.handles
    pub rgn : c'.kernel.rgn ≡ c.kernel.rgn
    pub devices : c'.kernel.devices ≡ c.kernel.devices

  handler-links :
      (target : ℕ)
      → plan tick (map sched_of c.kernel.tasks) c.kernel.last_planned ≡ some (scheds, target)
      → task_get_by_sel reg c.kernel.tasks ≡ some i
      → c.timer_task_callback ≡ some (plan_timer_handler tick reg)
      → (c' : Clock D) × (timer_round c ≡ some c') × Ticked target c'
  unfolding timer_round plan_timer_handler
  handler-links target planned current callback =
      let k : Kernel D = record (with_ints enter c.kernel) {
        tasks = aged_tasks;
        last_planned = target;
      } in
      let chosen : choose tick (with_ints enter c.kernel) ≡ some k =
        rw (choose, planned, with_sleeps-age tick c.kernel.tasks) refl in
      let link =
        task_set_previous-linked reg target i k (find-age_task tick reg c.kernel.tasks ∙ current) in
      (
        record c {
          kernel =
              with_ints leave
                (record k { tasks = set k.tasks i (linked target i k); gdt = link.0 });
          nof_mseconds = (c.nof_mseconds + 55) % 2 ^ 32;
        },
        rw (timer_round, callback, chosen, link.1, callback) refl,
        record {
          time = refl;
          chosen = refl;
          tasks = refl;
          ints = ground arith;
          handles = refl;
          rgn = refl;
          devices = refl;
        },
      )

  -- A tick of the clock, with the scheduler as its callback and a task that can run: the round of the
  -- timer's task ends, 55 milliseconds are counted, each sleep is a tick shorter, and the processor
  -- goes back to the first task behind the last one, in the order of the list and round its end, that
  -- is planned and does not sleep. Sections, handles, memory and devices are as before.
  pub timer_round-Ticked :
      (n : ℕ)
      → c.timer_task_callback ≡ some (plan_timer_handler tick reg)
      → task_get_by_sel reg c.kernel.tasks ≡ some i
      → c.kernel.last_planned < length c.kernel.tasks
      → 0 < n
      → n ≤ length c.kernel.tasks
      → runnable (task_at scheds (place n)) ≡ true
      → (m : ℕ) × (0 < m)
        × (m ≤ n)
        × (runnable (task_at scheds (place m)) ≡ true)
        × ((j : ℕ) → 0 < j → j < m → runnable (task_at scheds (place j)) ≡ false)
        × ((c' : Clock D) × (timer_round c ≡ some c') × Ticked (place m) c')
  timer_round-Ticked n callback current in_list lo hi run =
      let len = length-map sched_of c.kernel.tasks in
      let r =
        plan_runs_next tick (map sched_of c.kernel.tasks) c.kernel.last_planned (omega (arith, len))
          n lo (omega (arith, len)) run in
      (r.0, r.1, r.2, r.4, r.5, handler-links (place r.0) r.3 current callback)
