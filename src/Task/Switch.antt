-- ===== src/Task/Switch.antt =====
-- Switching between tasks in gluKe/task.c. `tr` is the selector in the task register. The switch
-- itself, which the processor makes at the `iret`, is not modelled.
use glu_ke.Base.{
  ℕ, ◌+◌, ◌-◌, ◌/◌, ◌%◌, Bool, false, Option, none, some, List, [], ◌∷◌, ◌==◌, if◌then◌else◌,
  get_or, set, ◌≡◌, refl, inl, inr, Option-cases,
}
use glu_ke.Base.Int.{ℤ, ok_code, fail_code}
use glu_ke.Int.{int_off, int_on_iret}
use glu_ke.Handle.{File}
use glu_ke.Task.{
  Task, Kernel, task_at, update_task, kone, kall, task_get_by_id, task_get_by_sel, task_kill, Ended,
}

-- Bit 1 of the sixth byte.
pub set_bit1 : ℕ → ℕ
set_bit1 b = if b / 2 % 2 == 0 then b + 2 else b

pub clear_bit1 : ℕ → ℕ
clear_bit1 b = if b / 2 % 2 == 0 then b else b - 2

pub change_busy : (ℕ → ℕ) → ℕ → List (List ℕ) → List (List ℕ)
change_busy f g gdt = let d = get_or gdt g [] in set gdt g (set d 5 (f (get_or d 5 0)))

module _ {D : Type 0} where
  -- CLEAR_TASK_BUSY_FLAG and SET_TASK_BUSY_FLAG of task `i`
  abbrev with_busy : (ℕ → ℕ) → ℕ → Kernel D → Kernel D
  with_busy f i k = record k { gdt = change_busy f (task_at k.tasks i).gdt_tss_descr k.gdt }

  clear_previous : ℕ → Kernel D → Kernel D
  unfolding change_busy clear_bit1
  clear_previous sel k = elim (task_get_by_sel sel k.tasks) [
    | none ↦ k
    | some p ↦ with_busy clear_bit1 p k
  ]

  -- The current task is `i`.
  link : ℕ → ℕ → Kernel D → Kernel D
  unfolding clear_previous change_busy set_bit1
  link target i k =
      let cur = task_at k.tasks i in
      let k' = with_busy set_bit1 target (clear_previous cur.tss.prev_task k) in
      update_task i
        (record cur { tss = record cur.tss { prev_task = (task_at k.tasks target).selector } }) k'

  -- task_set_previous; `none` where it reads through a null pointer, without a current task.
  pub task_set_previous : ℕ → ℕ → Kernel D → Option (Kernel D)
  unfolding link
  task_set_previous tr target k = elim (task_get_by_sel tr k.tasks) [
    | none ↦ none
    | some i ↦ some (link target i k)
  ]

  clear_previous-gdt :
      (sel : ℕ) (k : Kernel D)
      → clear_previous sel k ≡ record k { gdt = (clear_previous sel k).gdt }
  unfolding clear_previous
  clear_previous-gdt sel k = elim (Option-cases (task_get_by_sel sel k.tasks)) [
    | inl e ↦ rw (clear_previous, e) refl
    | inr (p, e) ↦ rw (clear_previous, e) refl
  ]

  -- The current task `i` with its link to `target`.
  abbrev pub linked : ℕ → ℕ → Kernel D → Task
  linked target i k =
      let t = task_at k.tasks i in
      record t { tss = record t.tss { prev_task = (task_at k.tasks target).selector } }

  -- The change of the link leaves everything else but the busy flags of descriptors as it was.
  pub task_set_previous-linked :
      (reg target i : ℕ) (k : Kernel D)
      → task_get_by_sel reg k.tasks ≡ some i
      → (gdt' : List (List ℕ)) × (task_set_previous reg target k
          ≡ some (record k { tasks = set k.tasks i (linked target i k); gdt = gdt' }))
  unfolding task_set_previous link
  task_set_previous-linked reg target i k e = (
    (link target i k).gdt,
    rw (task_set_previous, e, clear_previous-gdt (task_at k.tasks i).tss.prev_task k) refl,
  )

  abbrev off : Kernel D → Kernel D
  off k = record k { handles = record k.handles { ints = (int_off k.handles.ints).1 } }

  abbrev iret_on : Kernel D → Kernel D
  iret_on k = record k { handles = record k.handles { ints = int_on_iret k.handles.ints } }

  -- Without the task it returns within the section that it entered.
  pub task_switch : ℕ → ℤ → Kernel D → Option (ℤ × Kernel D)
  unfolding task_set_previous
  task_switch tr task_id k = elim (task_get_by_id task_id k.tasks) [
    | none ↦ some (fail_code, off k)
    | some t ↦ elim (task_set_previous tr t (off k)) [
      | none ↦ none
      | some k' ↦ some (ok_code, iret_on k')
    ]
  ]

  pub task_cur_id : ℕ → Kernel D → ℤ
  task_cur_id tr k = elim (task_get_by_sel tr k.tasks) [
    | none ↦ fail_code
    | some i ↦ (task_at k.tasks i).id
  ]

  -- Without a current task it returns within the section. The result of the switch is not read.
  pub sleep_mksec : ℕ → ℕ → Kernel D → Option (ℤ × Kernel D)
  unfolding task_switch task_cur_id
  sleep_mksec tr mksec k = elim (task_get_by_id (task_cur_id tr k) k.tasks) [
    | none ↦ some (fail_code, kone k)
    | some i ↦
        let t = record (task_at k.tasks i) { sleep_mksec = mksec } in
        elim (task_switch tr k.first_task_id (kall (update_task i t (kone k)))) [
          | none ↦ none
          | some r ↦ some (ok_code, r.1)
        ]
  ]

  -- task_set_planned; `none` where the task is not there.
  unfoldable pub task_set_planned : ℤ → Bool → Kernel D → Option (ℤ × Kernel D)
  task_set_planned task_id plan k = elim (task_get_by_id task_id k.tasks) [
    | none ↦ none
    | some i ↦ some (ok_code, update_task i (record (task_at k.tasks i) { plan = plan }) k)
  ]

  pub task_set_planned-set :
      (task_id : ℤ) (plan : Bool) (k : Kernel D) (i : ℕ)
      → task_get_by_id task_id k.tasks ≡ some i
      → task_set_planned task_id plan k
        ≡ some (ok_code, update_task i (record (task_at k.tasks i) { plan = plan }) k)
  unfolding task_set_planned
  task_set_planned-set task_id plan k i e = rw (task_set_planned, e) refl

  -- task_kill_me
  pub task_kill_me : ℕ → Kernel D → Option (ℤ × Kernel D)
  unfolding task_switch task_cur_id
  task_kill_me tr k = elim (task_get_by_id (task_cur_id tr k) k.tasks) [
    | none ↦ none
    | some i ↦
        let t = record (task_at k.tasks i) { plan = false } in
        task_switch tr k.killer_task_id
          (record (update_task i t (kone k)) { to_kill = task_cur_id tr k })
  ]

  module _ (close_file : File → D → D) where
    -- One round of tentry_killer, from the switch to it until the switch to the first task; `none`
    -- where the kernel has ended.
    pub killer_round : ℕ → Kernel D → Option (ℤ × Kernel D)
    unfolding task_switch
    killer_round tr k = elim (task_kill close_file k.to_kill k) [
      | Ended.dies ↦ none
      | Ended.returns code k' ↦ task_switch tr k'.first_task_id k'
    ]

-- task_fill_idt_task_gate, on the eight bytes of a descriptor
pub task_fill_idt_task_gate : ℤ → List Task → List ℕ → ℤ × List ℕ
task_fill_idt_task_gate task_id ts descr = elim (task_get_by_id task_id ts) [
  | none ↦ (fail_code, descr)
  | some i ↦
      let sel = (task_at ts i).selector in
      (ok_code, 0 ∷ 0 ∷ sel % 256 ∷ sel / 256 % 256 ∷ 0 ∷ 0x85 ∷ 0 ∷ 0 ∷ [])
]

-- A task gate for the selector of the task.
pub task_fill_idt_task_gate-gate :
    (task_id : ℤ) (ts : List Task) (descr : List ℕ) (i : ℕ)
    → task_get_by_id task_id ts ≡ some i
    → let sel = (task_at ts i).selector in
      task_fill_idt_task_gate task_id ts descr
      ≡ (ok_code, 0 ∷ 0 ∷ sel % 256 ∷ sel / 256 % 256 ∷ 0 ∷ 0x85 ∷ 0 ∷ 0 ∷ [])
unfolding task_fill_idt_task_gate
task_fill_idt_task_gate-gate task_id ts descr i e = rw (task_fill_idt_task_gate, e) refl
