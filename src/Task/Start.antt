-- ===== src/Task/Start.antt =====
-- task_init of gluKe/task.c: the first task, which runs already, and the killer.
use glu_ke.Base.{
  ℕ, ◌-◌, ◌^◌, ◌≡◌, refl, ap, sym, ◌∙◌, ◌<◌, ◌++◌, ◌⊎◌, inl, inr, Bool, true, false, Option, none,
  some, [], ◌∷◌, arith, set, ◌==◌, Bool-cases, Option-cases, All,
}
use glu_ke.Base.Int.{pos, eq_ℤ, fail_code, is_negative}
use glu_ke.Handle.{one, all}
use glu_ke.Task.{
  Task, Kernel, blank_task, free_descr, gdt_fill_tss_descr, tss_size, fresh_task, new_task_id,
  max_task_id, init_task_struct, task_register_task0, task_newk, task_init, kone, kall,
}
use glu_ke.Task.Birth.{Born, stack_of, task_newk-Born, task_newk-no_stack}

module _ {D : Type 0} (page_cat : ℕ) where
  -- Every call of task_newk fails or makes a task.
  pub task_newk-cases :
      (memory : Option ℕ) (entry : ℕ) (plan : Bool) (k : Kernel D)
      → max_task_id (k.tasks ++ (blank_task ∷ [])) 0 < 2 ^ 31 - 1
      → let out = task_newk page_cat memory entry plan k in
        (out.0 ≡ fail_code)
        ⊎ ((address g : ℕ) × (descr : free_descr k.gdt ≡ some g) × (t : Task) × (out.0 ≡ t.id)
            × Born page_cat address entry plan k g descr t out.1
            × (memory ≡ some address)
            × ((stack_of page_cat address entry plan k g descr == 0) ≡ false))
  unfolding task_newk init_task_struct
  task_newk-cases none entry plan k small = inl refl
  task_newk-cases (some address) entry plan k small = elim (Option-cases (free_descr k.gdt)) [
    | inl full ↦ rw (task_newk, full) (inl refl)
    | inr (g, descr) ↦ elim (Bool-cases (stack_of page_cat address entry plan k g descr == 0)) [
      | inl no_room ↦ inl (task_newk-no_stack page_cat address entry plan k g descr no_room).0
      | inr room ↦
          let b = task_newk-Born page_cat address entry plan k g descr small room in
          inr (address, g, descr, b.0, ap (λ r. r.0) b.2, rw (b.2) b.3, refl, room)
    ]
  ]

  -- The task that runs already, alone in the list.
  record Registered (k k' : Kernel D) : Type 0 where
    pub task : Task
    pub tasks : k'.tasks ≡ task ∷ []
    pub id : task.id ≡ pos 1
    pub planned : task.plan ≡ true
    pub pages : task.tss.cr3 ≡ page_cat
    pub sections : k'.handles ≡ k.handles

  module _ (address : ℕ) (k : Kernel D) (g : ℕ) (descr : free_descr k.gdt ≡ some g) where
    abbrev first_made : Kernel D
    first_made = record k {
      tasks = fresh_task g [] ∷ [];
      gdt = set k.gdt g (gdt_fill_tss_descr address tss_size);
    }

    abbrev registered : Task
    registered =
        let t = fresh_task g [] in record t { tss = record t.tss { cr3 = page_cat }; plan = true }

    first_made-init :
        init_task_struct (some address) (record k { tasks = [] }) ≡ (some 0, first_made)
    unfolding init_task_struct
    first_made-init = rw (init_task_struct, descr) refl

    registered-first :
        task_register_task0 page_cat (some address) (record k { tasks = [] })
        ≡ ((fresh_task g []).id, record first_made { tasks = registered ∷ [] })
    unfolding task_register_task0
    registered-first = rw (task_register_task0, first_made-init, first_made-init) refl

  task_register_task0-cases :
      (memory : Option ℕ) (k : Kernel D)
      → let out = task_register_task0 page_cat memory (record k { tasks = [] }) in
        (out.0 ≡ fail_code) ⊎ ((out.0 ≡ pos 1) × Registered k out.1)
  unfolding task_register_task0 init_task_struct fresh_task new_task_id max_task_id
  task_register_task0-cases none k = inl refl
  task_register_task0-cases (some address) k = elim (Option-cases (free_descr k.gdt)) [
    | inl full ↦ rw (task_register_task0, full) (inl refl)
    | inr (g, descr) ↦ rw (registered-first address k g descr) (
        inr (
          refl,
          record {
            task = registered address k g descr;
            tasks = refl;
            id = refl;
            planned = refl;
            pages = refl;
            sections = refl;
          },
        ))
  ]

  -- The tasks at the start.
  pub record Begun (killer : ℕ) (k k' : Kernel D) : Type 0 where
    pub first : Task
    pub last : Task
    pub tasks : k'.tasks ≡ first ∷ last ∷ []
    pub first_id : first.id ≡ pos 1
    pub first_known : k'.first_task_id ≡ first.id
    pub first_planned : first.plan ≡ true
    pub first_pages : first.tss.cr3 ≡ page_cat
    pub killer_id : last.id ≡ pos 2
    pub killer_known : k'.killer_task_id ≡ last.id
    pub killer_apart : eq_ℤ first.id last.id ≡ false
    pub killer_unplanned : last.plan ≡ false
    pub killer_starts : last.tss.eip ≡ killer
    pub sections : k'.handles ≡ (kall (kone k)).handles

  -- task_init fails, or leaves two tasks: the one that runs, with the id 1, which the scheduler may
  -- pick, and the killer at its start address, with another id, which it never picks; and it has left
  -- the section that it entered.
  pub task_init-Begun :
      (memory killer_memory : Option ℕ) (killer : ℕ) (k : Kernel D)
      → let out = task_init page_cat memory killer_memory killer k in
        (out.0 ≡ fail_code) ⊎ ((out.0 ≡ pos 1) × Begun killer k out.1)
  unfolding task_init max_task_id new_task_id
  task_init-Begun memory killer_memory killer k =
      let first = task_register_task0 page_cat memory (record k { tasks = [] }) in
      let k1 : Kernel D = record first.1 { first_task_id = first.0 } in
      elim (task_register_task0-cases memory k) [
        | inl fails ↦ rw (task_init, fails) (inl refl)
        | inr reg ↦
            let r = reg.1 in
            let positive : is_negative first.0 ≡ false = rw (reg.0) refl in
            let small : max_task_id (k1.tasks ++ (blank_task ∷ [])) 0 < 2 ^ 31 - 1 =
              rw (r.tasks, r.id) (omega arith) in
            elim (task_newk-cases killer_memory killer false k1 small) [
              | inl fails ↦ rw (task_init, positive, fails) (inl refl)
              | inr two ↦
                  let b = two.5 in
                  let others : All (λ u. eq_ℤ u.id two.3.id ≡ false) (r.task ∷ []) =
                    rw (r.tasks) at b.new_id in
                  let not_fail : is_negative (task_newk page_cat killer_memory killer false k1).0
                      ≡ false =
                    ap is_negative two.4 ∙ b.not_negative in
                  rw (task_init, positive, not_fail)
                    (inr (
                      reg.0,
                      record {
                        first = r.task;
                        last = two.3;
                        tasks = b.tasks_more ∙ ap (λ l. l ++ (two.3 ∷ [])) r.tasks;
                        first_id = r.id;
                        first_known = b.first_same ∙ reg.0 ∙ sym r.id;
                        first_planned = r.planned;
                        first_pages = r.pages;
                        killer_id = b.next_id ∙ rw (r.tasks, new_task_id, r.id) refl;
                        killer_known = two.4;
                        killer_apart = others.0;
                        killer_unplanned = b.planned;
                        killer_starts = b.starts;
                        sections = b.sections ∙ ap (λ h. all (one h)) r.sections;
                      },
                    ))
            ]
      ]
