-- ===== src/Task.antt =====
-- gluKe/task.c, and the descriptors of gluKe/sys_utils.c: the tasks, their places in the global
-- descriptor table, and what the death of a task gives back. A pointer to a task is its index in
-- the list, a descriptor is its eight bytes. The first task has index 0.
mod Structs
pub mod Switch
pub mod Birth
pub mod Start
pub mod Kill
mod Tests
unfoldable pub use Structs.*
use glu_ke.Base.{
  ℕ, zero, suc, ◌+◌, ◌-◌, ◌*◌, ◌/◌, ◌%◌, ◌^◌, Bool, true, false, not, ◌&&◌, ◌||◌, Option, none,
  some, List, [], ◌∷◌, ◌++◌, ltb, leb, ◌==◌, if◌then◌else◌, length, get_or, set, replicate, drop,
}
use glu_ke.Base.Find.{find_index}
use glu_ke.Base.Int.{is_negative, ℤ, pos, negsuc, pos_part, eq_ℤ, ok_code, fail_code}
use glu_ke.Rgn.{Rgn, rgn_alloc_t, rgn_free_task_memory}
use glu_ke.Int.{int_off, int_on_iret}
use glu_ke.Handle.{File, Handles, int_succ, one, all, handle_close_task_handles}

abbrev pub gdt_max_descrs : ℕ
gdt_max_descrs = 40

abbrev pub stack_size : ℕ
stack_size = 0x10000

-- The tables of the kernel that a task's birth and death change. D is what the drivers keep.
pub record Kernel (D : Type 0) : Type 0 where
  pub tasks : List Task
  pub gdt : List (List ℕ)
  pub rgn : Rgn
  pub handles : Handles
  pub devices : D
  pub first_task_id : ℤ
  pub killer_task_id : ℤ
  pub to_kill : ℤ
  pub last_planned : ℕ

abbrev pub task_at : List Task → ℕ → Task
task_at ts i = get_or ts i blank_task

-- The loop of `new_task_id`.
unfoldable pub max_task_id : List Task → ℕ → ℕ
max_task_id [] m = m
max_task_id (t ∷ ts) m = max_task_id ts (if ltb m (pos_part t.id) then pos_part t.id else m)

unfoldable pub new_task_id : List Task → ℤ
unfolding max_task_id
new_task_id ts = int_succ (max_task_id ts 0)

-- The first descriptor behind the null one whose limit is 0.
unfoldable pub free_descr : List (List ℕ) → Option ℕ
unfolding gdt_seg_limit
free_descr gdt = elim (find_index (λ d. gdt_seg_limit d == 0) (drop 1 gdt)) [
  | none ↦ none
  | some i ↦ some (i + 1)
]

pub count_used : List (List ℕ) → ℕ
unfolding gdt_seg_limit
count_used [] = 0
count_used (d ∷ ds) = (if gdt_seg_limit d == 0 then 0 else 1) + count_used ds

pub nof_used_descrs : List (List ℕ) → ℕ
unfolding count_used
nof_used_descrs gdt = count_used (drop 1 gdt)

unfoldable pub task_get_by_id : ℤ → List Task → Option ℕ
task_get_by_id task_id ts = find_index (λ t. eq_ℤ t.id task_id) ts

unfoldable pub task_get_by_sel : ℕ → List Task → Option ℕ
task_get_by_sel sel ts = find_index (λ t. t.selector == sel) ts

unfoldable pub remove_task : List Task → ℕ → List Task
remove_task [] i = []
remove_task (t ∷ ts) zero = ts
remove_task (t ∷ ts) (suc i) = t ∷ remove_task ts i

-- The task that init_task_struct makes at descriptor `g`.
unfoldable pub fresh_task : ℕ → List Task → Task
unfolding new_task_id gdt_selector
fresh_task g ts = record blank_task {
  gdt_tss_descr = g;
  selector = gdt_selector g;
  id = new_task_id (ts ++ (blank_task ∷ []));
}

-- The registers of a new kernel task. `page_cat` is the address of the page catalogue.
unfoldable pub ktask_tss : ℕ → ℕ → ℕ → Tss → Tss
ktask_tss page_cat entry stack t = record t {
  cs = 0x08;
  ds = 0x10;
  ss = 0x10;
  es = 0x10;
  fs = 0x10;
  gs = 0x10;
  esp = (stack + stack_size) % 2 ^ 32;
  eip = entry;
  cr3 = page_cat;
  eflags = 0x200;
}

-- What a call of task.c that may end the kernel does.
pub data Ended (D : Type 0) : Type 0 where
  dies : Ended D
  returns : (code : ℤ) (k : Kernel D) → Ended D

module _ {D : Type 0} where
  abbrev pub kone : Kernel D → Kernel D
  kone k = record k { handles = one k.handles }

  abbrev pub kall : Kernel D → Kernel D
  kall k = record k { handles = all k.handles }

  abbrev pub update_task : ℕ → Task → Kernel D → Kernel D
  update_task i t k = record k { tasks = set k.tasks i t }

  -- `memory` is the address of the new node, or `none` when there is no memory for it.
  unfoldable pub init_task_struct : Option ℕ → Kernel D → Option ℕ × Kernel D
  unfolding free_descr gdt_fill_tss_descr fresh_task
  init_task_struct none k = (none, k)
  init_task_struct (some address) k = elim (free_descr k.gdt) [
    | none ↦ (none, k)
    | some g ↦ (
      some (length k.tasks),
      record k {
        tasks = k.tasks ++ (fresh_task g k.tasks ∷ []);
        gdt = set k.gdt g (gdt_fill_tss_descr address tss_size);
      },
    )
  ]

  unfoldable pub destroy_task_struct : ℕ → Kernel D → Kernel D
  unfolding remove_task
  destroy_task_struct i k = record k {
    gdt = set k.gdt (task_at k.tasks i).gdt_tss_descr (replicate 8 0);
    tasks = remove_task k.tasks i;
  }

  -- task_newk from the allocation of the stack on
  unfoldable pub with_stack : ℕ → ℕ → Bool → ℕ → Kernel D → ℤ × Kernel D
  unfolding ktask_tss destroy_task_struct
  with_stack page_cat entry plan i k =
      let t = task_at k.tasks i in
      let (stack, rgn') = rgn_alloc_t (pos stack_size) t.id k.rgn in
      if stack == 0 then (fail_code, kall (destroy_task_struct i (record k { rgn = rgn' }))) else (
        t.id,
        kall (
            update_task i (record t { tss = ktask_tss page_cat entry stack t.tss; plan = plan })
              (record k { rgn = rgn' })),
      )

  unfoldable pub task_newk : ℕ → Option ℕ → ℕ → Bool → Kernel D → ℤ × Kernel D
  unfolding init_task_struct with_stack
  task_newk page_cat memory entry plan k =
      let (new_task, k') = init_task_struct memory (kone k) in
      elim new_task [ none ↦ (fail_code, kall k') | some i ↦ with_stack page_cat entry plan i k' ]

  -- task_register_task0; the task register is loaded with the new task's selector.
  unfoldable pub task_register_task0 : ℕ → Option ℕ → Kernel D → ℤ × Kernel D
  unfolding init_task_struct
  task_register_task0 page_cat memory k =
      let (new_task, k') = init_task_struct memory k in
      elim new_task [
        | none ↦ (fail_code, k')
        | some i ↦
            let t = task_at k'.tasks i in
            (
              t.id,
              update_task i (record t { tss = record t.tss { cr3 = page_cat }; plan = true }) k',
            )
      ]

  -- task_init behind a successful `ll_init`; `killer` is the address of tentry_killer.
  unfoldable pub task_init : ℕ → Option ℕ → Option ℕ → ℕ → Kernel D → ℤ × Kernel D
  unfolding task_register_task0 task_newk
  task_init page_cat memory killer_memory killer k =
      let (first, k') = task_register_task0 page_cat memory (record k { tasks = [] }) in
      let (killer_id, k'') =
        task_newk page_cat killer_memory killer false (record k' { first_task_id = first }) in
      if is_negative first
      then (fail_code, record k' { first_task_id = first })
      else if is_negative killer_id
      then (fail_code, record k'' { killer_task_id = killer_id })
      else (first, record k'' { killer_task_id = killer_id })

  module _ (close_file : File → D → D) where
    -- task_kill from the task that was found on
    unfoldable pub bury : ℤ → ℕ → Kernel D → Ended D
    unfolding destroy_task_struct
    bury task_id i k =
        let (e, hs, d) = handle_close_task_handles close_file task_id k.handles k.devices in
        let k' = destroy_task_struct i (record k { handles = hs; devices = d }) in
        let (e', r) = rgn_free_task_memory task_id k'.rgn in
        if not (eq_ℤ e ok_code) || not (eq_ℤ e' ok_code)
        then dies
        else returns ok_code (kall (record k' { rgn = r; last_planned = 0 }))

    unfoldable pub task_kill : ℤ → Kernel D → Ended D
    unfolding bury
    task_kill task_id k =
        if eq_ℤ task_id k.first_task_id
        then returns fail_code k
        else elim (task_get_by_id task_id k.tasks) [
          | none ↦ returns fail_code (kall (kone k))
          | some i ↦ bury task_id i (kone k)
        ]
