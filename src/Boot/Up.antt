-- ===== src/Boot/Up.antt =====
-- What the first part of entry32 (gluKe/entry32.c) has set up when it is through.
use glu_ke.Base.{
  ℕ, ◌+◌, ◌-◌, ◌*◌, ◌/◌, ◌%◌, ◌^◌, ◌≤◌, ◌<◌, ◌≡◌, ◌≢◌, refl, inl, inr, none, some, true, List, [],
  ◌∷◌, arith, ltb, if◌then◌else◌, All, get_or, length,
}
use glu_ke.Base.Int.{ℤ, ok_code}
use glu_ke.Rgn.{rgn_init, page_size}
use glu_ke.Rgn.Invariant.{IsSound}
use glu_ke.Rgn.Init.{rgn_init-IsSound}
use glu_ke.Paging.{Memory, init_paging}
use glu_ke.Paging.Identity.{translate, init_paging-translate}
use glu_ke.Timer.{Timer, set_timer_freq, set_timer_counter}
use glu_ke.Int.{Ints}
use glu_ke.Int.Idt.{Idt, address_in, int_init, int_init-leads, length-int_init}
use glu_ke.Boot.{Region, alloc_memory_not_in_use}
use glu_ke.Boot.Ram.{IsRam, first_address, get_ram_size-finds}
use glu_ke.Boot.Reserved.{Kept-trans, IsHeld, Alls-Kept, alloc_memory_not_in_use-Reserves}
use glu_ke.Boot.Keeps.{init_paging-Kept, int_init-Kept}
use glu_ke.Boot.Start.{
  Death, Start, Machine, set_timer_freq_failed, cant_allocate_memory, init_paging_failed,
  int_init_failed, timer_frequency, died, up, start_on, entry32,
}

-- The frequency is one that the timer takes.
set_timer_freq-takes :
    (t : Timer)
    → (t' : Timer) × (set_timer_freq timer_frequency t ≡ some (ok_code, t'))
      × (t'.cur_frequency ≡ timer_frequency)
unfolding set_timer_freq set_timer_counter
set_timer_freq-takes t = (_, refl, refl)

-- The machine that is up: the memory in use is reserved and the allocator sound, each address of the
-- memory in whole groups of 1024 pages is mapped to itself, and no other, each interrupt has a gate
-- that leads to its stub, and interrupts and the timer run.
pub record IsUp (regions : List Region) (size : ℕ) (m : Machine) : Type 0 where
  pub ram : m.ram_size ≡ size
  pub sound : IsSound (size / page_size) m.rgn
  pub reserved : All (IsHeld m.rgn) regions
  pub identity :
      (va : ℕ)
      → va < 2 ^ 32
      → translate m.memory m.cat va
        ≡ (if ltb va (size / 0x400000 * 0x400000) then some va else none)
  pub gates :
      (i : ℕ) → i < 48 → address_in (get_or m.idt.gates i []) ≡ m.idt.base + m.idt.size + 1 + i * 16
  pub table : length m.idt.gates ≡ 48
  pub enabled : m.ints.enabled ≡ true
  pub frequency : m.timer.cur_frequency ≡ timer_frequency

-- How a start can end.
pub data Outcome (regions : List Region) (size : ℕ) : Start → Type 0 where
  dies : (d : Death) → d ≢ set_timer_freq_failed → Outcome regions size (died d)
  runs : (m : Machine) → IsUp regions size m → Outcome regions size (up m)

not_alloc : cant_allocate_memory ≢ set_timer_freq_failed
not_alloc e = cc

not_paging : init_paging_failed ≢ set_timer_freq_failed
not_paging e = cc

not_int : int_init_failed ≢ set_timer_freq_failed
not_int e = cc

module _ (regions : List Region) (entry kernel_bytes stack : ℕ) (cur : ℤ)
    (no_err with_err : List ℕ) where
  -- The reserved regions, with the kernel's code and its stack.
  abbrev pub all_regions : List Region
  all_regions =
      record { base = entry; bytes = kernel_bytes }
      ∷ record { base = entry - stack; bytes = stack }
      ∷ regions

  start_on-Outcome :
      (size : ℕ) (m : Memory) (t : Timer) (idt : Idt) (s : Ints)
      → size ≤ 2 ^ 31
      → (out : Start) × (start_on regions entry kernel_bytes stack cur no_err with_err size m t idt
            s
          ≡ some out)
        × Outcome all_regions size out
  unfolding start_on
  start_on-Outcome size m t idt s small =
      let ram = size / page_size in
      let begin = rgn_init size in
      let reserve =
        alloc_memory_not_in_use-Reserves ram regions entry kernel_bytes stack begin
          (rgn_init-IsSound size small) in
      let r = (alloc_memory_not_in_use regions entry kernel_bytes stack begin).1 in
      let r' = (init_paging cur size r m).2.rgn in
      let paging = init_paging-Kept ram cur size r m reserve.kept.sound in
      let ints = int_init-Kept no_err with_err ram cur idt s r' paging.sound in
      let timed = set_timer_freq-takes t in
      let last = int_init no_err with_err cur idt s r' in
      let m' : Machine = record {
        ram_size = size;
        rgn = last.3;
        cat = (init_paging cur size r m).1;
        memory = (init_paging cur size r m).2.memory;
        timer = timed.0;
        idt = last.1;
        ints = last.2;
      } in
      elim reserve.outcome [
        | inl fails ↦ (_, rw (start_on, fails) refl, dies cant_allocate_memory not_alloc)
        | inr done ↦
            elim (init_paging-translate ram cur size r m reserve.kept.sound (omega arith)) [
              | inl fails ↦
                  (_, rw (start_on, done.0, fails) refl, dies init_paging_failed not_paging)
              | inr paged ↦ elim (int_init-leads no_err with_err cur idt s r').1 [
                | inl fails ↦ (
                  _,
                  rw (start_on, done.0, paged.0, timed.1, fails.1) refl,
                  dies int_init_failed not_int,
                )
                | inr gates ↦ (
                  up m',
                  rw (start_on, done.0, paged.0, timed.1, gates.1) refl,
                  runs m' (record {
                    ram = refl;
                    sound = ints.sound;
                    reserved = Alls-Kept all_regions (Kept-trans paging ints) done.1;
                    identity = paged.1;
                    gates = λ i h. omega (arith, (gates.5 i h).address, gates.2, gates.3);
                    table = length-int_init no_err with_err cur idt s r' gates.1;
                    enabled = rw (gates.4) refl;
                    frequency = timed.2;
                  }),
                )
              ]
            ]
      ]

  -- On a machine whose memory has `size` bytes, in whole pages, at least 2 megabytes and at most
  -- 2 ^ 31, with a round of get_RAM_size for each page above 2 megabytes and one more, the start up to
  -- int_init ends. It either dies, and never over the timer, or it leaves the machine up with the
  -- size of the memory found, the allocator sound, the regions in use reserved, the memory's whole
  -- groups of 1024 pages mapped to themselves and nothing else, a gate for each interrupt, and
  -- interrupts on.
  pub entry32-Outcome :
      {M : Type 0} (read : M → ℕ → ℕ) (write : M → ℕ → ℕ → M) (size n : ℕ)
      → IsRam read write size
      → (m : M) (t : Timer) (idt : Idt) (s : Ints) → size % 0x1000 ≡ 0
      → first_address ≤ size
      → size ≤ 2 ^ 31
      → size < first_address + n * 0x1000
      → (out : Start) × (entry32 regions entry kernel_bytes stack cur no_err with_err read write n m
            t idt s
          ≡ some out)
        × Outcome all_regions size out
  unfolding entry32
  entry32-Outcome read write size n ram m t idt s whole enough small rounds =
      let found = get_ram_size-finds read write size ram n m whole enough (omega arith) rounds in
      let start = start_on-Outcome size (λ a. read found.0 a) t idt s small in
      (start.0, rw (entry32, found.1) start.1, start.2)
