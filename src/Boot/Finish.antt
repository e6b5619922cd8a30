-- ===== src/Boot/Finish.antt =====
-- The second part of entry32 (gluKe/entry32.c), from task_init to its endless loop, over a table of
-- drivers. The memory of the new nodes of lists is an argument, and ll_init succeeds. No interrupt of
-- the timer comes before the end.
use glu_ke.Base.{ℕ, true, false, Option, none, some, List, [], ◌∷◌, if◌then◌else◌}
use glu_ke.Base.Int.{ℤ, pos, ok_code, fail_code, eq_ℤ, is_negative}
use glu_ke.Base.Text.{codes}
use glu_ke.Utils.{itos_ud}
use glu_ke.Rgn.{Rgn}
use glu_ke.Int.Idt.{Idt}
use glu_ke.Handle.{Handle}
use glu_ke.File.{Driver, Files, open_path}
use glu_ke.Console.{kwr}
use glu_ke.Task.{Kernel, task_init, task_newk}
use glu_ke.Task.Switch.{task_set_planned}
use glu_ke.Tick.{Clock, plan_init}
use glu_ke.Reports.{rgn_print_info}
use glu_ke.Boot.Start.{Machine}

-- A driver's init_function, with what task_cur_id returns.
abbrev pub Init : Type 0 → Type 0
Init D = ℤ → D → Rgn → ℤ × D × Rgn

-- What the start finds: the drivers with their init functions and devices, the table of descriptors,
-- the entries of the tasks, memory for nodes, and the task register while the timer's task runs.
pub record Given (D : Type 0) : Type 0 where
  pub drivers : List (Driver D)
  pub inits : List (Init D)
  pub devices : D
  pub gdt : List (List ℕ)
  pub killer_entry : ℕ
  pub timer_entry : ℕ
  pub work_entry : ℕ
  pub first_memory : Option ℕ
  pub killer_memory : Option ℕ
  pub timer_memory : Option ℕ
  pub work_memory : Option ℕ
  pub handle_memory : Option Handle
  pub reg : ℕ

-- What `die` says.
pub data Halt : Type 0 where
  task_init_failed : Halt
  drv_init_failed : Halt
  cant_create_kernel_terminal : Halt
  plan_init_failed : Halt
  task_newk_failed : Halt

pub data Finish (D : Type 0) : Type 0 where
  halted : Halt → Finish D
  running : (kfile : ℤ) (idt : Idt) (c : Clock D) → Finish D

-- What entry32 says on the terminal that it has opened.
abbrev pub banner : ℕ → List (List ℕ)
banner ram_size =
    codes "protected mode on\npaging on\ninterrupts on\nRAM size: "
    ∷ itos_ud ram_size
    ∷ codes "\n"
    ∷ []

module _ {D : Type 0} where
  abbrev pub files_of : Kernel D → Files D
  files_of k = record { handles = k.handles; devices = k.devices }

  abbrev pub with_files : Files D → Kernel D → Kernel D
  with_files f k = record k { handles = f.handles; devices = f.devices }

  -- Calls of kwr. Their results are not looked at.
  unfoldable pub say : List (Driver D) → ℤ → List (List ℕ) → Kernel D → Kernel D
  say ds kfile [] k = k
  say ds kfile (s ∷ texts) k = say ds kfile texts (with_files (kwr ds kfile s (files_of k)).1 k)

  unfoldable pub drv_init : ℤ → List (Init D) → Kernel D → ℤ × Kernel D
  drv_init cur [] k = (ok_code, k)
  drv_init cur (init ∷ inits) k =
      let (e, d, r) = init cur k.devices k.rgn in
      let k' : Kernel D = record k { devices = d; rgn = r } in
      let rest = drv_init cur inits k' in if eq_ℤ e ok_code then rest else (fail_code, k')

  -- The kernel's variables in front of task_init.
  abbrev pub kernel_on : Given D → Machine → Kernel D
  kernel_on g m = record {
    tasks = [];
    gdt = g.gdt;
    rgn = m.rgn;
    handles = record { ints = m.ints; handles = [] };
    devices = g.devices;
    first_task_id = pos 0;
    killer_task_id = pos 0;
    to_kill = pos 0;
    last_planned = 0;
  }

  -- The list that handle_init makes.
  abbrev pub handle_init : Kernel D → Kernel D
  handle_init k = record k { handles = record k.handles { handles = [] } }

  -- From the kernel's terminal on.
  unfoldable pub finish_on : Given D → Machine → ℤ → ℤ → Kernel D → Option (Finish D)
  finish_on g m first kfile k =
      let (planned, idt', c) =
        plan_init m.timer.cur_mksec_per_tick g.reg m.cat g.timer_memory g.timer_entry m.idt
          (record {
            kernel = say g.drivers kfile (banner m.ram_size) k;
            nof_mseconds = 0;
            timer_task_callback = none;
          }) in
      let said = say g.drivers kfile (codes "kernel init complete.\n" ∷ []) c.kernel in
      let (work_id, k') = task_newk m.cat g.work_memory g.work_entry true said in
      if is_negative kfile
      then some (halted cant_create_kernel_terminal)
      else if eq_ℤ planned ok_code
      then (if is_negative work_id
          then some (halted task_newk_failed)
          else elim (task_set_planned first false k') [
            | none ↦ none
            | some (code, k'') ↦ some (running kfile idt' (record c { kernel = k'' }))
          ])
      else some (halted plan_init_failed)

  -- `none` where a null pointer is used. rgn_print_info comes before there is a terminal, so that
  -- kfile is 0.
  unfoldable pub finish_kernel : Given D → Machine → Option (Finish D)
  finish_kernel g m =
      let (first, k) =
        task_init m.cat g.first_memory g.killer_memory g.killer_entry (kernel_on g m) in
      let k' = handle_init k in
      let (drivers, k'') =
        drv_init first g.inits (say g.drivers (pos 0) (rgn_print_info k'.rgn) k') in
      if is_negative first
      then some (halted task_init_failed)
      else if eq_ℤ drivers ok_code
      then elim (open_path g.drivers g.handle_memory first (codes "terminal") (files_of k'')) [
        | none ↦ none
        | some (kfile, fs) ↦ finish_on g m first kfile (with_files fs k'')
      ]
      else some (halted drv_init_failed)
