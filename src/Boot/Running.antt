-- ===== src/Boot/Running.antt =====
-- The tasks behind entry32 (gluKe/entry32.c).
use glu_ke.Base.{
  ◌-◌, ◌^◌, ◌%◌, ◌<◌, ◌≡◌, refl, ap, ◌∙◌, ◌⊎◌, inl, inr, true, false, Option, none, some, [], ◌∷◌,
  ◌++◌, arith, if◌then◌else◌, Bool-cases, length, get_or,
}
use glu_ke.Base.Find.{find_index}
use glu_ke.Base.Int.{ℤ, pos, ok_code, fail_code, is_negative}
use glu_ke.Int.Idt.{Idt}
use glu_ke.Task.{Task, Kernel, blank_task, max_task_id, new_task_id, task_get_by_id, task_newk}
use glu_ke.Task.Start.{task_newk-cases}
use glu_ke.Task.Switch.{task_set_planned, task_set_planned-set}
use glu_ke.Tick.{Clock, int_timer, plan_timer_handler, plan_init}
use glu_ke.Tick.Cases.{plan_init-cases}
use glu_ke.Boot.Start.{Machine}
use glu_ke.Boot.Finish.{
  Given, Halt, Finish, halted, running, task_newk_failed, plan_init_failed,
  cant_create_kernel_terminal, say, banner, finish_on,
}
use glu_ke.Boot.SameTasks.{HasTwo, HasTwo-same, SameTasks, say-SameTasks}

module _ {D : Type 0} where
  -- The kernel that is up: four tasks, of which only work is planned, the scheduler behind the
  -- timer's interrupt, and the first task as the one that was planned last.
  pub record IsRunning (g : Given D) (m : Machine) (idt : Idt) (c : Clock D) : Type 0 where
    pub first : Task
    pub killer : Task
    pub timer : Task
    pub work : Task
    pub tasks : c.kernel.tasks ≡ first ∷ killer ∷ timer ∷ work ∷ []
    pub ids : (first.id ≡ pos 1) × (killer.id ≡ pos 2) × (timer.id ≡ pos 3) × (work.id ≡ pos 4)
    pub planned :
        (first.plan ≡ false) × (killer.plan ≡ false) × (timer.plan ≡ false) × (work.plan ≡ true)
    pub starts :
        (killer.tss.eip ≡ g.killer_entry)
        × (timer.tss.eip ≡ g.timer_entry)
        × (work.tss.eip ≡ g.work_entry)
    pub awake : work.sleep_mksec ≡ 0
    pub first_known : c.kernel.first_task_id ≡ pos 1
    pub killer_known : c.kernel.killer_task_id ≡ pos 2
    pub last : c.kernel.last_planned ≡ 0
    pub callback :
        c.timer_task_callback ≡ some (plan_timer_handler m.timer.cur_mksec_per_tick g.reg)
    pub gate : get_or idt.gates int_timer [] ≡ 0 ∷ timer.selector % 2 ^ 16 ∷ 0x8500 ∷ 0 ∷ []

  -- How the start can end.
  pub data Finished (g : Given D) (m : Machine) : Option (Finish D) → Type 0 where
    halts : (h : Halt) → Finished g m (some (halted h))
    runs :
        (kfile : ℤ) (idt : Idt) (c : Clock D)
        → is_negative kfile ≡ false
        → IsRunning g m idt c
        → Finished g m (some (running kfile idt c))

  module _ (g : Given D) (m : Machine) (has : int_timer < length m.idt.gates) where
    -- The clock that plan_init starts from.
    abbrev clock_on : Kernel D → Clock D
    clock_on k = record { kernel = k; nof_mseconds = 0; timer_task_callback = none }

    abbrev planned_on : Kernel D → ℤ × Idt × Clock D
    planned_on k =
        plan_init m.timer.cur_mksec_per_tick g.reg m.cat g.timer_memory g.timer_entry m.idt
          (clock_on k)

    -- The first two tasks and the timer's, with the scheduler started.
    record HasThree (idt : Idt) (c : Clock D) : Type 0 where
      pub first : Task
      pub last : Task
      pub timer : Task
      pub tasks : c.kernel.tasks ≡ first ∷ last ∷ timer ∷ []
      pub ids : (first.id ≡ pos 1) × (last.id ≡ pos 2) × (timer.id ≡ pos 3)
      pub planned : (last.plan ≡ false) × (timer.plan ≡ false)
      pub starts : (last.tss.eip ≡ g.killer_entry) × (timer.tss.eip ≡ g.timer_entry)
      pub first_known : c.kernel.first_task_id ≡ pos 1
      pub killer_known : c.kernel.killer_task_id ≡ pos 2
      pub last_planned : c.kernel.last_planned ≡ 0
      pub callback :
          c.timer_task_callback ≡ some (plan_timer_handler m.timer.cur_mksec_per_tick g.reg)
      pub gate : get_or idt.gates int_timer [] ≡ 0 ∷ timer.selector % 2 ^ 16 ∷ 0x8500 ∷ 0 ∷ []

    planned-HasThree :
        (k : Kernel D)
        → HasTwo g.killer_entry k
        → let out = planned_on k in (out.0 ≡ fail_code) ⊎ ((out.0 ≡ ok_code) × HasThree out.1 out.2)
    unfolding max_task_id new_task_id
    planned-HasThree k two =
        let small : max_task_id (k.tasks ++ (blank_task ∷ [])) 0 < 2 ^ 31 - 1 =
          rw (two.tasks, two.first_id, two.last_id) (omega arith) in
        elim (plan_init-cases m.timer.cur_mksec_per_tick g.reg m.cat g.timer_entry m.idt
          (clock_on k) g.timer_memory small has) [
            | inl fails ↦ inl fails
            | inr made ↦
                let r = made.5 in
                let t = made.3 in
                inr (
                  made.4,
                  record {
                    first = two.first;
                    last = two.last;
                    timer = t;
                    tasks = r.tasks_more ∙ ap (λ l. l ++ (t ∷ [])) two.tasks;
                    ids = (
                      two.first_id,
                      two.last_id,
                      r.next_id ∙ rw (two.tasks, new_task_id, two.first_id, two.last_id) refl,
                    );
                    planned = (two.unplanned, r.unplanned);
                    starts = (two.starts, r.starts);
                    first_known = r.first_same ∙ two.first_known ∙ two.first_id;
                    killer_known = r.killer_same ∙ two.killer_known ∙ two.last_id;
                    last_planned = r.first;
                    callback = r.callback;
                    gate = r.gate;
                  },
                )
          ]

    work_running :
        (idt : Idt) (c : Clock D) (k : Kernel D) (kfile : ℤ)
        → is_negative kfile ≡ false
        → HasThree idt c
        → SameTasks c.kernel k
        → (first : ℤ) → first ≡ pos 1
        → let out = task_newk m.cat g.work_memory g.work_entry true k in
          Finished g m (
            if is_negative out.0
            then some (halted task_newk_failed)
            else elim (task_set_planned first false out.1) [
              | none ↦ none
              | some (code, k') ↦ some (running kfile idt (record c { kernel = k' }))
            ])
    unfolding max_task_id new_task_id task_get_by_id find_index
    work_running idt c k kfile got three same first one =
        let tasks : k.tasks ≡ three.first ∷ three.last ∷ three.timer ∷ [] =
          same.tasks ∙ three.tasks in
        let small : max_task_id (k.tasks ++ (blank_task ∷ [])) 0 < 2 ^ 31 - 1 =
          rw (tasks, three.ids.0, three.ids.1, three.ids.2) (omega arith) in
        elim (task_newk-cases m.cat g.work_memory g.work_entry true k small) [
          | inl fails ↦ rw fails (halts task_newk_failed)
          | inr made ↦
              let b = made.5 in
              let w = made.3 in
              let out = task_newk m.cat g.work_memory g.work_entry true k in
              let positive : is_negative out.0 ≡ false = ap is_negative made.4 ∙ b.not_negative in
              let four : out.1.tasks ≡ three.first ∷ three.last ∷ three.timer ∷ w ∷ [] =
                b.tasks_more ∙ ap (λ l. l ++ (w ∷ [])) tasks in
              let found : task_get_by_id first out.1.tasks ≡ some 0 =
                rw (four, one, three.ids.0) refl in
              rw (positive, task_set_planned-set first false out.1 0 found)
                (runs kfile idt _ got (record {
                  first = record three.first { plan = false };
                  killer = three.last;
                  timer = three.timer;
                  work = w;
                  tasks = rw four refl;
                  ids = (
                    three.ids.0,
                    three.ids.1,
                    three.ids.2,
                    b.next_id ∙ rw (tasks, new_task_id, three.ids.0, three.ids.1, three.ids.2) refl,
                  );
                  planned = (refl, three.planned.0, three.planned.1, b.planned);
                  starts = (three.starts.0, three.starts.1, b.starts);
                  awake = b.awake;
                  first_known = b.first_same ∙ same.first ∙ three.first_known;
                  killer_known = b.killer_same ∙ same.killer ∙ three.killer_known;
                  last = b.others_same.1 ∙ same.last ∙ three.last_planned;
                  callback = three.callback;
                  gate = three.gate;
                }))
        ]

    pub finish_on-Finished :
        (first kfile : ℤ) (k : Kernel D)
        → first ≡ pos 1
        → HasTwo g.killer_entry k
        → Finished g m (finish_on g m first kfile k)
    unfolding finish_on
    finish_on-Finished first kfile k one two =
        let said = say g.drivers kfile (banner m.ram_size) k in
        let two' = HasTwo-same g.killer_entry k said (say-SameTasks g.drivers kfile _ k) two in
        let c = (planned_on said).2 in
        elim (Bool-cases (is_negative kfile)) [
          | inl closed ↦ rw (finish_on, closed) (halts cant_create_kernel_terminal)
          | inr got ↦ elim (planned-HasThree said two') [
            | inl fails ↦ rw (finish_on, got, fails) (halts plan_init_failed)
            | inr made ↦
                rw (finish_on, got, made.0)
                  (work_running (planned_on said).1 c _ kfile got made.1
                    (say-SameTasks g.drivers kfile _ c.kernel) first one)
          ]
        ]
