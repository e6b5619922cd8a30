-- ===== src/Boot/TickTests.antt =====
-- The end of the start on a small memory, and the first tick behind it (gluKe/entry32.c).
use glu_ke.Base.{ℕ, ◌≡◌, refl, Bool, true, false, Option, none, some, List, [], ◌∷◌, replicate, set}
use glu_ke.Base.Find.{find_index}
use glu_ke.Base.Int.{pos, ok_code}
use glu_ke.Base.Text.{codes}
use glu_ke.Rgn.{unused, alloc_basic, rgn_alloc_t, count_pages}
use glu_ke.Int.Idt.{Idt}
use glu_ke.Handle.{no_handle, handle_open, handle_by_id, new_handle_id}
use glu_ke.File.{Driver, driver_of, open_path, split_path, write, file_by_handle_id}
use glu_ke.Mutex.{str_eq}
use glu_ke.Console.{kwr}
use glu_ke.Reports.{rgn_print_info}
use glu_ke.Task.{
  Task, blank_task, task_get_by_sel, task_get_by_id, task_init, task_newk, task_register_task0,
  with_stack,
}
use glu_ke.Task.Switch.{task_set_planned}
use glu_ke.Tick.{Clock, timer_round, plan_timer_handler, plan_init}
use glu_ke.Tick.Round.{Ticked}
use glu_ke.Boot.Start.{Machine}
use glu_ke.Boot.Finish.{Given, Finish, halted, running, finish_kernel, finish_on, say, drv_init}
use glu_ke.Boot.Running.{IsRunning}
use glu_ke.Boot.FirstTick.{first_tick-Ticked}

-- A driver that keeps the last text.
abbrev last_text : Driver (List ℕ)
last_text = record {
  name = codes "terminal";
  open_file = λ f arg d. (ok_code, f, d);
  read_file = none;
  write_file = some (λ f buf d. (ok_code, buf));
  ioctl_file = none;
  close_file = none;
}

abbrev given : Given (List ℕ)
given = record {
  drivers = last_text ∷ [];
  inits = [];
  devices = [];
  gdt = replicate 40 (replicate 8 0);
  killer_entry = 0x31000;
  timer_entry = 0x32000;
  work_entry = 0x33000;
  first_memory = some 0x400000;
  killer_memory = some 0x401000;
  timer_memory = some 0x402000;
  work_memory = some 0x403000;
  handle_memory = some no_handle;
  reg = 24;
}

abbrev machine : Machine
machine = record {
  ram_size = 0x200000;
  rgn = record {
    free_als = record { base = 0x100000; nof_pages = 64; task_id = pos 0 } ∷ [];
    reserved_als = replicate 4 unused;
  };
  cat = 0x1000;
  memory = λ a. 0;
  timer = record { cur_frequency = 200; cur_mksec_per_tick = 5000; speaker = 0; writes = [] };
  idt = record { base = 0x2000; size = 383; gates = replicate 48 []; stubs = [] };
  ints = record { inited = true; off_count = 0; enabled = true };
}

-- What is on the terminal at the end.
abbrev text_at_end : Option (Finish (List ℕ)) → List ℕ
text_at_end none = []
text_at_end (some (halted h)) = []
text_at_end (some (running kfile idt c)) = c.kernel.devices

comes_up : text_at_end (finish_kernel given machine) ≡ codes "kernel init complete.\n"
unfolding finish_kernel finish_on say drv_init task_init task_newk task_register_task0 with_stack
    task_set_planned driver_of find_index rgn_alloc_t alloc_basic count_pages open_path str_eq
    split_path handle_open rgn_print_info kwr write file_by_handle_id handle_by_id new_handle_id
    plan_init task_get_by_id
comes_up = refl

-- A kernel as the start leaves it.
abbrev task : ℕ → ℕ → ℕ → Bool → Task
task id selector entry plan = record blank_task {
  id = pos id;
  selector = selector;
  plan = plan;
  tss = record blank_task.tss { eip = entry };
}

abbrev clock : Clock (List ℕ)
clock = record {
  kernel = record {
    tasks =
        task 1 8 0 false
        ∷ task 2 16 0x31000 false
        ∷ task 3 24 0x32000 false
        ∷ task 4 32 0x33000 true
        ∷ [];
    gdt = replicate 40 (replicate 8 0);
    rgn = machine.rgn;
    handles = record { ints = machine.ints; handles = [] };
    devices = [];
    first_task_id = pos 1;
    killer_task_id = pos 2;
    to_kill = pos 0;
    last_planned = 0;
  };
  nof_mseconds = 0;
  timer_task_callback = some (plan_timer_handler 5000 24);
}

abbrev idt : Idt
idt = record machine.idt { gates = set machine.idt.gates 0x20 (0 ∷ 24 ∷ 0x8500 ∷ 0 ∷ []) }

abbrev clock_runs : IsRunning given machine idt clock
clock_runs = record {
  first = task 1 8 0 false;
  killer = task 2 16 0x31000 false;
  timer = task 3 24 0x32000 false;
  work = task 4 32 0x33000 true;
  tasks = refl;
  ids = (refl, refl, refl, refl);
  planned = (refl, refl, refl, refl);
  starts = (refl, refl, refl);
  awake = refl;
  first_known = refl;
  killer_known = refl;
  last = refl;
  callback = refl;
  gate = refl;
}

first_tick-Ticked_example :
    (i : ℕ) × (c' : Clock (List ℕ)) × (task_get_by_sel 24 clock.kernel.tasks ≡ some i)
    × (timer_round clock ≡ some c')
    × Ticked 5000 24 i clock 3 c'
first_tick-Ticked_example = first_tick-Ticked given machine idt clock clock_runs refl
