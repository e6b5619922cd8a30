-- ===== src/Tick/Setup.antt =====
-- The start of the timer's task (plan_init of gluKe/plan.c, int_init_timer_task of gluKe/int.c).
use glu_ke.Base.{
  ℕ, ◌+◌, ◌-◌, ◌*◌, ◌/◌, ◌%◌, ◌^◌, ◌<◌, ◌≡◌, ◌≢◌, refl, sym, ◌∙◌, false, true, some, List, [], ◌∷◌,
  ◌++◌, arith, ◌==◌, length, get_or, set, get_or-set_self, get_or-set_ne, All,
}
use glu_ke.Base.Find.{find_index-append}
use glu_ke.Base.Int.{ℤ, pos, negsuc, ok_code, fail_code, eq_ℤ, is_negative}
use glu_ke.Int.Idt.{Idt}
use glu_ke.Task
use glu_ke.Task.{
  Task, Kernel, blank_task, max_task_id, new_task_id, free_descr, task_get_by_id, task_newk, kone,
  kall,
}
use glu_ke.Task.Birth.{Born, get_new, stack_of, task_newk-Born}
use glu_ke.Task.Switch.{task_fill_idt_task_gate-gate}
use glu_ke.Tick.{
  Clock, int_timer, bytes_of_gate, gate_of_bytes, plan_timer_handler, int_init_timer_task,
  plan_init,
}

eq_ℤ_refl : (a : ℤ) → eq_ℤ a a ≡ true
eq_ℤ_refl (pos n) = ground arith
eq_ℤ_refl (negsuc n) = ground arith

not_fail : (a : ℤ) → is_negative a ≡ false → eq_ℤ a fail_code ≡ false
not_fail (pos n) h = refl
not_fail (negsuc n) h = cc

module _ {D : Type 0} (tick reg page_cat address entry : ℕ) (idt : Idt) (c : Clock D) (g : ℕ)
    (descr : free_descr c.kernel.gdt ≡ some g) where
  -- The timer's gate leads to the new task `t`, which runs int_handle_timer and which the scheduler
  -- never picks, and the scheduler is what it calls.
  pub record Ready (t : Task) (idt' : Idt) (c' : Clock D) : Type 0 where
    pub tasks_more : c'.kernel.tasks ≡ c.kernel.tasks ++ (t ∷ [])
    pub new_id : All (λ u. eq_ℤ u.id t.id ≡ false) c.kernel.tasks
    pub starts : t.tss.eip ≡ entry
    pub unplanned : t.plan ≡ false
    pub next_id : t.id ≡ new_task_id (c.kernel.tasks ++ (blank_task ∷ []))
    pub awake : t.sleep_mksec ≡ 0
    pub first_same : c'.kernel.first_task_id ≡ c.kernel.first_task_id
    pub killer_same : c'.kernel.killer_task_id ≡ c.kernel.killer_task_id
    pub gate : get_or idt'.gates int_timer [] ≡ 0 ∷ t.selector % 2 ^ 16 ∷ 0x8500 ∷ 0 ∷ []
    pub other_gates : (n : ℕ) → n ≢ int_timer → get_or idt'.gates n [] ≡ get_or idt.gates n []
    pub callback : c'.timer_task_callback ≡ some (plan_timer_handler tick reg)
    pub first : c'.kernel.last_planned ≡ 0
    pub sections : c'.kernel.handles ≡ (kall (kall (kone (kone c.kernel)))).handles

  -- The gate of the timer's task and the table with it.
  abbrev gate_for_task : Task → List ℕ
  gate_for_task t =
      gate_of_bytes (0 ∷ 0 ∷ t.selector % 256 ∷ t.selector / 256 % 256 ∷ 0 ∷ 0x85 ∷ 0 ∷ 0 ∷ [])

  abbrev table_for : Task → Idt
  table_for t = record idt { gates = set idt.gates int_timer (gate_for_task t) }

  abbrev clock_for : Kernel D → Clock D
  clock_for k = record c {
    kernel = record (kall k) { last_planned = 0 };
    timer_task_callback = some (plan_timer_handler tick reg);
  }

  module _ (t : Task) (k : Kernel D)
      (made : task_newk page_cat (some address) entry false (kone c.kernel) ≡ (t.id, k))
      (born : Born page_cat address entry false (kone c.kernel) g descr t k) where
    new_at : task_get_by_id t.id k.tasks ≡ some (length c.kernel.tasks)
    unfolding task_get_by_id
    new_at =
        rw (born.tasks_more)
          (find_index-append (λ u. eq_ℤ u.id t.id) c.kernel.tasks t born.new_id (eq_ℤ_refl t.id))

    new_task : Task.task_at k.tasks (length c.kernel.tasks) ≡ t
    new_task = rw (born.tasks_more) (get_new c.kernel.tasks t)

    plan_init-made :
        plan_init tick reg page_cat (some address) entry idt c ≡ (ok_code, table_for t, clock_for k)
    unfolding plan_init int_init_timer_task
    plan_init-made =
        let gate = get_or idt.gates int_timer [] in
        rw
          (
            plan_init,
            made,
            task_fill_idt_task_gate-gate t.id k.tasks (bytes_of_gate gate) _ new_at,
            new_task,
            born.not_negative,
            not_fail t.id born.not_negative,
          )
          refl

    made-Ready : int_timer < length idt.gates → Ready t (table_for t) (clock_for k)
    made-Ready has = record {
      tasks_more = born.tasks_more;
      new_id = born.new_id;
      starts = born.starts;
      unplanned = born.planned;
      next_id = born.next_id;
      awake = born.awake;
      first_same = born.first_same;
      killer_same = born.killer_same;
      gate =
          get_or-set_self idt.gates int_timer (gate_for_task t) [] has
          ∙ (let w : t.selector % 256 + t.selector / 256 % 256 * 2 ^ 8 ≡ t.selector % 2 ^ 16 =
                omega arith in
              rw w refl);
      other_gates =
          λ n d. get_or-set_ne idt.gates int_timer n (gate_for_task t) [] (λ e. d (sym e));
      callback = refl;
      first = refl;
      sections = rw (born.sections) refl;
    }

  -- With memory, a free descriptor and a stack, plan_init succeeds: the timer's interrupt leads to a
  -- new task of its own that runs int_handle_timer and that the scheduler does not pick, the
  -- scheduler is the callback of its rounds and starts from the first task, no other gate has changed,
  -- and each section that was entered was left.
  pub plan_init-Ready :
      max_task_id (c.kernel.tasks ++ (blank_task ∷ [])) 0 < 2 ^ 31 - 1
      → (stack_of page_cat address entry false (kone c.kernel) g descr == 0) ≡ false
      → int_timer < length idt.gates
      → (t : Task) × (idt' : Idt) × (c' : Clock D) × (plan_init tick reg page_cat
            (some address)
            entry
            idt
            c
          ≡ (ok_code, idt', c'))
        × Ready t idt' c'
  plan_init-Ready small got has =
      let b = task_newk-Born page_cat address entry false (kone c.kernel) g descr small got in
      (
        b.0,
        table_for b.0,
        clock_for b.1,
        plan_init-made b.0 b.1 b.2 b.3,
        made-Ready b.0 b.1 b.2 b.3 has,
      )
