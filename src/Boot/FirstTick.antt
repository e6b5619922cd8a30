-- ===== src/Boot/FirstTick.antt =====
-- The first tick of the timer behind entry32 (gluKe/entry32.c, gluKe/int.c and gluKe/plan.c).
use glu_ke.Base.{ℕ, zero, suc, ◌≡◌, ◌<◌, ◌≤◌, refl, true, false, some, arith, ◌==◌}
use mathlib.Core.Path.{subst}
use glu_ke.Base.Find.{find_index-total}
use glu_ke.Plan
use glu_ke.Plan.{age, runnable}
use glu_ke.Int.Idt.{Idt}
use glu_ke.Task.{Task, blank_task, task_get_by_sel}
use glu_ke.Tick.{Clock, sched_of, timer_round}
use glu_ke.Tick.Round.{Ticked, scheds, place, timer_round-Ticked}
use glu_ke.Boot.Start.{Machine}
use glu_ke.Boot.Finish.{Given}
use glu_ke.Boot.Running.{IsRunning}

module _ {D : Type 0} (g : Given D) (m : Machine) (idt : Idt) (c : Clock D)
    (r : IsRunning g m idt c) where
  abbrev tick : ℕ
  tick = m.timer.cur_mksec_per_tick

  -- A task that is not planned cannot run after a tick either.
  unplanned_age : (t : Task) → t.plan ≡ false → runnable (age tick (sched_of t)) ≡ false
  unfolding age
  unplanned_age t e = ground arith

  awake_age :
      (t : Task) → t.plan ≡ true → t.sleep_mksec ≡ 0 → runnable (age tick (sched_of t)) ≡ true
  unfolding age
  awake_age t e z = ground arith

  -- The timer's task is in the list.
  current : g.reg ≡ r.timer.selector → (i : ℕ) × (task_get_by_sel g.reg c.kernel.tasks ≡ some i)
  unfolding task_get_by_sel
  current e =
      let f =
        find_index-total (λ t. t.selector == g.reg) c.kernel.tasks blank_task 2
          (rw (r.tasks) (omega arith)) (rw (r.tasks, e) (ground arith)) in
      (f.0, f.1)

  work_runs :
      (i : ℕ) → runnable (Plan.task_at (scheds tick g.reg i c) (place tick g.reg i c 3)) ≡ true
  work_runs i = rw (r.tasks, r.last) (awake_age r.work r.planned.3 r.awake)

  -- The tasks in front of work cannot run.
  only_work :
      (i n : ℕ)
      → 0 < n
      → n ≤ 3
      → runnable (Plan.task_at (scheds tick g.reg i c) (place tick g.reg i c n)) ≡ true
      → place tick g.reg i c n ≡ 3
  only_work i zero lo hi e = absurd (omega arith)
  only_work i (suc zero) lo hi e =
      let no = unplanned_age r.killer r.planned.1 in
      let yes : runnable (age tick (sched_of r.killer)) ≡ true = rw (r.tasks, r.last) at e in
      absurd (cc (no, yes))
  only_work i (suc (suc zero)) lo hi e =
      let no = unplanned_age r.timer r.planned.2 in
      let yes : runnable (age tick (sched_of r.timer)) ≡ true = rw (r.tasks, r.last) at e in
      absurd (cc (no, yes))
  only_work i (suc (suc (suc zero))) lo hi e = rw (r.tasks, r.last) refl
  only_work i (suc (suc (suc (suc n)))) lo hi e = absurd (omega arith)

  -- Behind the start the first tick of the timer goes to the task `work`: where the task register
  -- holds the selector of the timer's task, the round of that task ends, its link leads back to work,
  -- and sections, handles, memory and devices are as before.
  pub first_tick-Ticked :
      g.reg ≡ r.timer.selector
      → (i : ℕ) × (c' : Clock D) × (task_get_by_sel g.reg c.kernel.tasks ≡ some i)
        × (timer_round c ≡ some c')
        × Ticked tick g.reg i c 3 c'
  first_tick-Ticked e =
      let i = (current e).0 in
      let t =
        timer_round-Ticked tick g.reg i c 3 r.callback (current e).1
          (rw (r.tasks, r.last) (omega arith)) (omega arith) (rw (r.tasks) (omega arith))
          (work_runs i) in
      let at_work = only_work i t.0 t.1 t.2 t.3 in
      (
        i,
        t.5.0,
        (current e).1,
        t.5.1,
        subst (λ (n : ℕ). Ticked tick g.reg i c n t.5.0) at_work t.5.2,
      )
