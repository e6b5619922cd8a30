-- ===== src/Task/Tests.antt =====
-- The birth and the death of a task (gluKe/task.c) on a machine with 16 megabytes.
use glu_ke.Base.{
  ℕ, ◌≡◌, refl, ◌⊎◌, true, false, some, [], ◌∷◌, ◌^◌, ◌/◌, arith, replicate, ◌-◌, ◌++◌, ◌<◌, ◌==◌,
  set,
}
use glu_ke.Base.Find.{find_index}
use glu_ke.Base.Int.{pos, eq_ℤ, ok_code, fail_code}
use glu_ke.Rgn.{
  page_size, rgn_init, rgn_free_task_memory, unused, rgn_alloc_t, alloc_basic, alloc_found, reserve,
  count_pages, to_page_size,
}
use glu_ke.Rgn.Init.{rgn_init-IsSound}
use glu_ke.Handle.{File, no_handle}
use glu_ke.Task.{
  Kernel, Ended, blank_task, task_get_by_id, task_kill, task_newk, task_init, task_register_task0,
  with_stack, free_descr, gdt_seg_limit, max_task_id, gdt_fill_tss_descr, tss_size, Task,
}
use glu_ke.Task.Birth.{Born, stack_of, task_newk-Born, task_newk-no_stack}
use glu_ke.Task.Kill.{Buried, task_kill-Buried}

abbrev last_closed : File → ℕ → ℕ
last_closed f d = f.idata

abbrev kernel : Kernel ℕ
kernel = record {
  tasks =
      record blank_task { id = pos 1 } ∷ record blank_task { id = pos 2; gdt_tss_descr = 4 } ∷ [];
  gdt = replicate 40 (replicate 8 0);
  rgn = rgn_init (2 ^ 24);
  handles = record {
    ints = record { inited = true; off_count = 0; enabled = true };
    handles = record no_handle { id = pos 1; task_id = pos 2; close = true } ∷ [];
  };
  devices = 5;
  first_task_id = pos 1;
  killer_task_id = pos 3;
  to_kill = pos 2;
  last_planned = 1;
}

second : task_get_by_id (pos 2) kernel.tasks ≡ some 1
unfolding task_get_by_id find_index
second = refl

task_kill-Buried_example :
    ((eq_ℤ (rgn_free_task_memory (pos 2) kernel.rgn).0 ok_code ≡ false)
      × (task_kill last_closed (pos 2) kernel ≡ Ended.dies))
    ⊎ ((k' : Kernel ℕ) × (task_kill last_closed (pos 2) kernel ≡ Ended.returns ok_code k')
        × Buried last_closed (2 ^ 24 / page_size) (pos 2) 1 kernel k')
task_kill-Buried_example =
    task_kill-Buried last_closed (2 ^ 24 / page_size) (pos 2) 1 kernel
      (rgn_init-IsSound (2 ^ 24) (omega arith)) refl second

-- One free region of 256 pages, or none.
abbrev with_memory : ℕ → Kernel ℕ
with_memory pages = record kernel {
  rgn = record {
    free_als = record { base = 0x100000; nof_pages = pages; task_id = pos 0 } ∷ [];
    reserved_als = replicate 2 unused;
  };
}

first_free : (pages : ℕ) → free_descr (with_memory pages).gdt ≡ some 1
unfolding free_descr gdt_seg_limit find_index
first_free pages = refl

got_stack : (stack_of 0 0 0 true (with_memory 256) 1 (first_free 256) == 0) ≡ false
unfolding rgn_alloc_t alloc_basic alloc_found reserve count_pages to_page_size find_index
got_stack = refl

no_memory : (stack_of 0 0 0 true (with_memory 2) 1 (first_free 2) == 0) ≡ true
unfolding rgn_alloc_t alloc_basic alloc_found reserve count_pages to_page_size find_index
no_memory = refl

small : max_task_id (kernel.tasks ++ (blank_task ∷ [])) 0 < 2 ^ 31 - 1
unfolding max_task_id
small = omega arith

task_newk-Born_example :
    (t : Task) × (k' : Kernel ℕ) × (task_newk 0x5000 (some 0x9000) 0x30000 true (with_memory 256)
      ≡ (t.id, k'))
    × Born 0x5000 0x9000 0x30000 true (with_memory 256) 1 (first_free 256) t k'
task_newk-Born_example =
    task_newk-Born 0x5000 0x9000 0x30000 true (with_memory 256) 1 (first_free 256) small got_stack

task_newk-no_stack_example :
    let (code, k') = task_newk 0x5000 (some 0x9000) 0x30000 true (with_memory 2) in
    (code ≡ fail_code)
    × (k'.tasks ≡ kernel.tasks)
    × (k'.gdt ≡ set (set kernel.gdt 1 (gdt_fill_tss_descr 0x9000 tss_size)) 1 (replicate 8 0))
task_newk-no_stack_example =
    task_newk-no_stack 0x5000 0x9000 0x30000 true (with_memory 2) 1 (first_free 2) no_memory

two_tasks : (task_init 0x1000 (some 0x2000) (some 0x3000) 0x4000 (with_memory 16)).0 ≡ pos 1
unfolding task_init task_register_task0 task_newk with_stack rgn_alloc_t find_index alloc_basic
    count_pages
two_tasks = refl
