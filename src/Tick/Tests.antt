-- ===== src/Tick/Tests.antt =====
-- A tick on a kernel with three tasks, and the start of the timer's task (gluKe/int.c, gluKe/plan.c).
use glu_ke.Base.{
  ℕ, ◌-◌, ◌^◌, ◌<◌, ◌≤◌, ◌≡◌, refl, true, false, none, some, [], ◌∷◌, ◌++◌, ◌==◌, arith, replicate,
}
use glu_ke.Base.Find.{find_index}
use glu_ke.Base.Int.{pos, ok_code}
use glu_ke.Rgn.{unused, rgn_alloc_t, alloc_basic, alloc_found, reserve, count_pages, to_page_size}
use glu_ke.Int.Idt.{Idt}
use glu_ke.Plan.{runnable, age}
use glu_ke.Plan
use glu_ke.Task.{
  Task, Kernel, blank_task, free_descr, gdt_seg_limit, max_task_id, task_get_by_sel, kone,
}
use glu_ke.Task.Birth.{stack_of}
use glu_ke.Tick.{Clock, plan_timer_handler, timer_round, plan_init}
use glu_ke.Tick.Round.{Ticked, timer_round-Ticked, scheds, place}
use glu_ke.Tick.Setup.{Ready, plan_init-Ready}

-- The second task is asleep for two ticks, the third is the timer's.
abbrev kernel : Kernel ℕ
kernel = record {
  tasks =
      record blank_task { id = pos 1; selector = 8; plan = true }
      ∷ record blank_task { id = pos 2; selector = 16; plan = true; sleep_mksec = 9000 }
      ∷ record blank_task { id = pos 3; selector = 24 }
      ∷ [];
  gdt = replicate 40 (replicate 8 0);
  rgn = record {
    free_als = record { base = 0x100000; nof_pages = 256; task_id = pos 0 } ∷ [];
    reserved_als = replicate 2 unused;
  };
  handles = record { ints = record { inited = true; off_count = 0; enabled = true }; handles = [] };
  devices = 5;
  first_task_id = pos 1;
  killer_task_id = pos 3;
  to_kill = pos 2;
  last_planned = 1;
}

abbrev clock : Clock ℕ
clock = record {
  kernel = kernel;
  nof_mseconds = 0;
  timer_task_callback = some (plan_timer_handler 5000 24);
}

timer_current : task_get_by_sel 24 kernel.tasks ≡ some 2
unfolding task_get_by_sel find_index
timer_current = refl

first_runs : runnable (Plan.task_at (scheds 5000 24 2 clock) (place 5000 24 2 clock 2)) ≡ true
unfolding age
first_runs = refl

timer_round-Ticked_example :
    (m : ℕ) × (0 < m)
    × (m ≤ 2)
    × (runnable (Plan.task_at (scheds 5000 24 2 clock) (place 5000 24 2 clock m)) ≡ true)
    × ((j : ℕ)
        → 0 < j
        → j < m
        → runnable (Plan.task_at (scheds 5000 24 2 clock) (place 5000 24 2 clock j)) ≡ false)
    × ((c' : Clock ℕ) × (timer_round clock ≡ some c')
        × Ticked 5000 24 2 clock (place 5000 24 2 clock m) c')
timer_round-Ticked_example =
    timer_round-Ticked 5000 24 2 clock 2 refl timer_current (omega arith) (omega arith)
      (omega arith) first_runs

first_free : free_descr kernel.gdt ≡ some 1
unfolding free_descr gdt_seg_limit find_index
first_free = refl

got_stack : (stack_of 0x5000 0x9000 0x30000 false (kone kernel) 1 first_free == 0) ≡ false
unfolding rgn_alloc_t alloc_basic alloc_found reserve count_pages to_page_size find_index
got_stack = refl

small : max_task_id (kernel.tasks ++ (blank_task ∷ [])) 0 < 2 ^ 31 - 1
unfolding max_task_id
small = omega arith

abbrev idt : Idt
idt = record { base = 0x200000; size = 383; gates = replicate 48 (replicate 4 0); stubs = [] }

abbrev unset : Clock ℕ
unset = record clock { timer_task_callback = none }

plan_init-Ready_example :
    (t : Task) × (idt' : Idt) × (c' : Clock ℕ) × (plan_init 5000 24 0x5000
        (some 0x9000)
        0x30000
        idt
        unset
      ≡ (ok_code, idt', c'))
    × Ready 5000 24 0x5000 0x9000 0x30000 idt unset 1 first_free t idt' c'
plan_init-Ready_example =
    plan_init-Ready 5000 24 0x5000 0x9000 0x30000 idt unset 1 first_free small got_stack
      (omega arith)
