-- ===== src/Task/Birth.antt =====
-- What `task_newk` of gluKe/task.c makes, and what it takes back when there is no stack.
use glu_ke.Base.{
  ℕ, ◌+◌, ◌-◌, ◌*◌, ◌%◌, ◌^◌, ◌≤◌, ◌<◌, ◌≡◌, refl, ap, ◌∙◌, Bool, true, false, some, List, [], ◌∷◌,
  ◌++◌, arith, ltb, ◌==◌, if◌then◌else◌, length, get_or, set, replicate, All,
}
use glu_ke.Base.Int.{ℤ, pos, pos_part, eq_ℤ, fail_code, is_negative}
use glu_ke.Rgn.{rgn_alloc_t}
use glu_ke.Handle.{int_succ}
use glu_ke.Task.{
  Task, Kernel, blank_task, max_task_id, new_task_id, free_descr, gdt_fill_tss_descr, tss_size,
  fresh_task, ktask_tss, init_task_struct, destroy_task_struct, remove_task, with_stack, task_newk,
  stack_size, kone, kall, gdt_selector,
}

pub get_new : (ts : List Task) (t : Task) → get_or (ts ++ (t ∷ [])) (length ts) blank_task ≡ t
get_new [] t = refl
get_new (u ∷ ts) t = get_new ts t

set_new : (ts : List Task) (t u : Task) → set (ts ++ (t ∷ [])) (length ts) u ≡ ts ++ (u ∷ [])
set_new [] t u = refl
set_new (v ∷ ts) t u = ap (λ l. v ∷ l) (set_new ts t u)

remove_new : (ts : List Task) (t : Task) → remove_task (ts ++ (t ∷ [])) (length ts) ≡ ts
unfolding remove_task
remove_new [] t = refl
remove_new (u ∷ ts) t = ap (λ l. u ∷ l) (remove_new ts t)

max_task_id-ge : (ts : List Task) (m : ℕ) → m ≤ max_task_id ts m
unfolding max_task_id
max_task_id-ge [] m = omega arith
max_task_id-ge (t ∷ ts) m =
    ground (arith, max_task_id-ge ts (if ltb m (pos_part t.id) then pos_part t.id else m))

-- An id above those of all tasks is none of theirs.
ids_differ :
    (ts rest : List Task) (m n : ℕ)
    → max_task_id (ts ++ rest) m ≤ n
    → All (λ t. eq_ℤ t.id (pos (n + 1)) ≡ false) ts
unfolding max_task_id
ids_differ [] rest m n h = tt
ids_differ (t ∷ ts) rest m n h =
    let m' = if ltb m (pos_part t.id) then pos_part t.id else m in
    let le : pos_part t.id ≤ m' = ground arith in
    let ge = max_task_id-ge (ts ++ rest) m' in
    (apart t.id (omega (arith, le, ge, h)), ids_differ ts rest m' n h)
  where
    apart : (i : ℤ) → pos_part i ≤ n → eq_ℤ i (pos (n + 1)) ≡ false
    apart (pos a) b = ground arith
    apart (ℤ.negsuc a) b = refl

module _ {D : Type 0} (page_cat address entry : ℕ) (plan : Bool) (k : Kernel D) (g : ℕ)
    (descr : free_descr k.gdt ≡ some g) where
  -- The stack that the allocator gives to the new task.
  abbrev pub stack_of : ℕ
  stack_of = (rgn_alloc_t (pos stack_size) (fresh_task g k.tasks).id k.rgn).0

  -- The kernel before the allocation of the stack.
  abbrev pub made : Kernel D
  made = record (kone k) {
    tasks = k.tasks ++ (fresh_task g k.tasks ∷ []);
    gdt = set k.gdt g (gdt_fill_tss_descr address tss_size);
  }

  init_task_struct-made : init_task_struct (some address) (kone k) ≡ (some (length k.tasks), made)
  unfolding init_task_struct
  init_task_struct-made = rw (init_task_struct, descr) refl

  task_newk-made :
      task_newk page_cat (some address) entry plan k
      ≡ with_stack page_cat entry plan (length k.tasks) made
  unfolding task_newk
  task_newk-made = rw (task_newk, init_task_struct-made, init_task_struct-made) refl

  -- The kernel `k'` is `k` with the new task `t`.
  pub record Born (t : Task) (k' : Kernel D) : Type 0 where
    pub tasks_more : k'.tasks ≡ k.tasks ++ (t ∷ [])
    pub new_id : All (λ u. eq_ℤ u.id t.id ≡ false) k.tasks
    pub descr_used : k'.gdt ≡ set k.gdt g (gdt_fill_tss_descr address tss_size)
    pub selects : t.selector ≡ g * 8
    pub planned : t.plan ≡ plan
    pub starts : t.tss.eip ≡ entry
    pub stack : t.tss.esp ≡ (stack_of + stack_size) % 2 ^ 32
    pub sections : k'.handles ≡ (kall (kone k)).handles
    pub not_negative : is_negative t.id ≡ false
    pub first_same : k'.first_task_id ≡ k.first_task_id
    pub killer_same : k'.killer_task_id ≡ k.killer_task_id
    pub next_id : t.id ≡ new_task_id (k.tasks ++ (blank_task ∷ []))
    pub awake : t.sleep_mksec ≡ 0
    pub others_same : (k'.devices ≡ k.devices) × (k'.last_planned ≡ k.last_planned)
    pub stack_taken : k'.rgn ≡ (rgn_alloc_t (pos stack_size) t.id k.rgn).1

  -- With memory, a free descriptor and a stack, `task_newk` returns the id of a new task, which is
  -- not negative and which no other task has, with its own descriptor and stack, and leaves the
  -- section that it has entered. The new id must not leave the range of an
  -- `int`.
  pub task_newk-Born :
      max_task_id (k.tasks ++ (blank_task ∷ [])) 0 < 2 ^ 31 - 1
      → (stack_of == 0) ≡ false
      → (t : Task) × (k' : Kernel D) × (task_newk page_cat (some address) entry plan k ≡ (t.id, k'))
        × Born t k'
  unfolding fresh_task new_task_id ktask_tss gdt_selector with_stack
  task_newk-Born small got =
      let t = fresh_task g k.tasks in
      let m = max_task_id (k.tasks ++ (blank_task ∷ [])) 0 in
      let fits : int_succ m ≡ pos (m + 1) = ground arith in
      let u : Task = record t { tss = ktask_tss page_cat entry stack_of t.tss; plan = plan } in
      (
        u,
        kall (record made {
          tasks = k.tasks ++ (u ∷ []);
          rgn = (rgn_alloc_t (pos stack_size) t.id k.rgn).1;
        }),
        task_newk-made ∙ (rw (with_stack, get_new k.tasks t, got, set_new k.tasks t u) refl),
        record {
          tasks_more = refl;
          new_id = rw fits (ids_differ k.tasks (blank_task ∷ []) 0 m (omega arith));
          descr_used = refl;
          selects = refl;
          planned = refl;
          starts = refl;
          stack = refl;
          sections = refl;
          not_negative = rw fits refl;
          first_same = refl;
          killer_same = refl;
          next_id = refl;
          awake = refl;
          others_same = (refl, refl);
          stack_taken = refl;
        },
      )

  -- Without a stack `task_newk` fails, the tasks are as they were and the descriptor is cleared.
  pub task_newk-no_stack :
      (stack_of == 0) ≡ true
      → let (code, k') = task_newk page_cat (some address) entry plan k in
        (code ≡ fail_code)
        × (k'.tasks ≡ k.tasks)
        × (k'.gdt ≡ set (set k.gdt g (gdt_fill_tss_descr address tss_size)) g (replicate 8 0))
  unfolding with_stack destroy_task_struct fresh_task
  task_newk-no_stack no_room =
      let t = fresh_task g k.tasks in
      rw (task_newk-made, with_stack, get_new k.tasks t, no_room) (refl, remove_new k.tasks t, refl)
