-- ===== src/Boot/Whole.antt =====
-- All of entry32 (gluKe/entry32.c), up to its endless loop.
use glu_ke.Base.{
  ℕ, ◌+◌, ◌*◌, ◌%◌, ◌^◌, ◌≤◌, ◌<◌, ◌≡◌, refl, ap, ◌∙◌, inl, inr, false, Option, none, some, List,
  arith, Bool-cases, Option-cases, length,
}
use glu_ke.Base.Int.{ℤ, pos, ok_code, eq_ℤ, is_negative}
use glu_ke.Base.Text.{codes}
use glu_ke.Timer.{Timer}
use glu_ke.Int.{Ints}
use glu_ke.Int.Idt.{Idt}
use glu_ke.Handle.{Handle, handle_open}
use glu_ke.File.{Driver, Files, open_path, driver_of, split_path}
use glu_ke.Task.{Kernel, task_init}
use glu_ke.Task.Start.{Begun, task_init-Begun}
use glu_ke.Tick.{int_timer}
use glu_ke.Reports.{rgn_print_info}
use glu_ke.Boot.{Region}
use glu_ke.Boot.Ram.{IsRam, first_address}
use glu_ke.Boot.Start.{Death, Start, Machine, died, up, entry32}
use glu_ke.Boot.Up.{Outcome, IsUp, all_regions, entry32-Outcome}
use glu_ke.Boot.Finish.{
  Given, Finish, halted, running, task_init_failed, drv_init_failed, files_of, with_files, say,
  drv_init, kernel_on, handle_init, finish_kernel,
}
use glu_ke.Boot.SameTasks.{
  HasTwo, Begun-HasTwo, HasTwo-move, HasTwo-same, say-SameTasks, drv_init-SameTasks,
}
use glu_ke.Boot.Running.{Finished, halts, finish_on-Finished}

-- How entry32 ends: the machine or the kernel did not come up, or it runs.
pub data End (D : Type 0) : Type 0 where
  stopped : Death → End D
  ended : Finish D → End D

module _ {D : Type 0} where
  -- The parts of entry32 one behind the other.
  unfoldable pub finish_start : Given D → Start → Option (End D)
  finish_start g (died d) = some (stopped d)
  finish_start g (up m) = elim (finish_kernel g m) [ none ↦ none | some f ↦ some (ended f) ]

  -- With memory for the handle open always returns.
  open_path-some :
      (ds : List (Driver D)) (junk : Handle) (cur : ℤ) (path : List ℕ) (s : Files D)
      → (code : ℤ) × (s' : Files D) × (open_path ds (some junk) cur path s ≡ some (code, s'))
  unfolding open_path handle_open
  open_path-some ds junk cur path s = elim (Option-cases (driver_of (split_path path).0 ds)) [
    | inl missing ↦ rw (open_path, missing) (_, _, refl)
    | inr found ↦ rw (open_path, found.1) (_, _, refl)
  ]

  module _ (g : Given D) (m : Machine) where
    abbrev after_tasks : ℤ × Kernel D
    after_tasks = task_init m.cat g.first_memory g.killer_memory g.killer_entry (kernel_on g m)

    abbrev after_drivers : ℤ × Kernel D
    after_drivers =
        let k = handle_init after_tasks.1 in
        drv_init after_tasks.0 g.inits (say g.drivers (pos 0) (rgn_print_info k.rgn) k)

    -- The tasks in front of the kernel's terminal.
    after_drivers-HasTwo :
        Begun m.cat g.killer_entry (kernel_on g m) after_tasks.1
        → HasTwo g.killer_entry after_drivers.1
    after_drivers-HasTwo b =
        let k = handle_init after_tasks.1 in
        let said = say g.drivers (pos 0) (rgn_print_info k.rgn) k in
        HasTwo-same g.killer_entry said after_drivers.1
          (drv_init-SameTasks after_tasks.0 g.inits said)
          (HasTwo-same g.killer_entry k said
            (say-SameTasks g.drivers (pos 0) (rgn_print_info k.rgn) k)
            (HasTwo-move g.killer_entry after_tasks.1 k refl refl refl
              (Begun-HasTwo m.cat g.killer_entry (kernel_on g m) after_tasks.1 b)))

    pub finish_kernel-Finished :
        (junk : Handle)
        → g.handle_memory ≡ some junk
        → int_timer < length m.idt.gates
        → Finished g m (finish_kernel g m)
    unfolding finish_kernel
    finish_kernel-Finished junk memory has =
        elim (task_init-Begun m.cat g.first_memory g.killer_memory g.killer_entry (kernel_on g m)) [
          | inl fails ↦ rw (finish_kernel, fails) (halts task_init_failed)
          | inr begun ↦
              let positive : is_negative after_tasks.0 ≡ false = rw (begun.0) refl in
              elim (Bool-cases (eq_ℤ after_drivers.0 ok_code)) [
                | inr fails ↦ rw (finish_kernel, positive, fails) (halts drv_init_failed)
                | inl done ↦
                    let k = after_drivers.1 in
                    let opened =
                      open_path-some g.drivers junk after_tasks.0 (codes "terminal") (files_of k) in
                    let open_it =
                      ap (λ h. open_path g.drivers h after_tasks.0 (codes "terminal") (files_of k))
                        memory
                      ∙ opened.2 in
                    rw (finish_kernel, positive, done, open_it)
                      (finish_on-Finished g m has after_tasks.0 opened.0 (with_files opened.1 k)
                        begun.0
                        (HasTwo-move g.killer_entry k (with_files opened.1 k) refl refl refl
                          (after_drivers-HasTwo begun.1)))
              ]
        ]

  -- What entry32 leaves: a machine that is up, with the start of its tasks.
  pub data Completed (g : Given D) (regions : List Region) (size : ℕ)
      : Option (End D) → Type 0 where
    stops : (d : Death) → Completed g regions size (some (stopped d))
    ends :
        (m : Machine) (f : Finish D)
        → IsUp regions size m
        → Finished g m (some f)
        → Completed g regions size (some (ended f))

  start-Completed :
      (g : Given D) (regions : List Region) (size : ℕ) (junk : Handle) (start : Start)
      → g.handle_memory ≡ some junk
      → Outcome regions size start
      → Completed g regions size (finish_start g start)
  unfolding finish_start
  start-Completed g regions size junk _ memory (Outcome.dies d other) = stops d
  start-Completed g regions size junk _ memory (Outcome.runs m is_up) =
      let has : int_timer < length m.idt.gates = omega (arith, is_up.table) in
      of_finish (finish_kernel g m) (finish_kernel-Finished g m junk memory has) is_up
    where
      of_finish :
          (f : Option (Finish D))
          → Finished g m f
          → IsUp regions size m
          → Completed g regions size (elim f [ none ↦ none | some x ↦ some (ended x) ])
      of_finish _ (halts h) is_up = ends m (halted h) is_up (halts h)
      of_finish _ (Finished.runs kfile idt c got r) is_up =
          ends m (running kfile idt c) is_up (Finished.runs kfile idt c got r)

  module _ (g : Given D) (regions : List Region) (entry kernel_bytes stack : ℕ) (cur : ℤ)
      (no_err with_err : List ℕ) where
    -- entry32, behind the rounds of get_RAM_size.
    unfoldable pub entry32_all :
        {M : Type 0} → (M → ℕ → ℕ) → (M → ℕ → ℕ → M) → ℕ → M → Timer → Idt → Ints → Option (End D)
    entry32_all read write n m t idt s =
        elim (entry32 regions entry kernel_bytes stack cur no_err with_err read write n m t idt s) [
          | none ↦ none
          | some start ↦ finish_start g start
        ]

    -- On a machine whose memory has `size` bytes, in whole pages, at least 2 megabytes and at most
    -- 2 ^ 31, with enough rounds of get_RAM_size and memory for the handle of the kernel's terminal,
    -- entry32 ends whatever the drivers are. It dies, or the machine is up: the allocator it starts its
    -- tasks from is sound and the memory in use reserved, the memory's whole groups of 1024 pages are
    -- mapped to themselves and nothing else, each interrupt has its gate. Then the start of the tasks
    -- ends the kernel, or leaves four tasks with the ids 1 to 4, the first, the killer, the timer's and
    -- work, each at its entry, of which only work is planned, with the timer's gate to the timer's task
    -- and the scheduler as its callback.
    pub entry32_all-Completed :
        {M : Type 0} (read : M → ℕ → ℕ) (write : M → ℕ → ℕ → M) (size n : ℕ)
        → IsRam read write size
        → (m : M) (t : Timer) (idt : Idt) (s : Ints) (junk : Handle) → size % 0x1000 ≡ 0
        → first_address ≤ size
        → size ≤ 2 ^ 31
        → size < first_address + n * 0x1000
        → g.handle_memory ≡ some junk
        → Completed g
            (all_regions regions entry kernel_bytes stack cur no_err with_err)
            size
            (entry32_all read write n m t idt s)
    unfolding entry32_all
    entry32_all-Completed read write size n ram m t idt s junk whole enough small rounds memory =
        let out =
          entry32-Outcome regions entry kernel_bytes stack cur no_err with_err read write size n ram
            m t idt s whole enough small rounds in
        rw (entry32_all, out.1) (start-Completed g _ size junk out.0 memory out.2)
