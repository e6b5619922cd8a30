-- ===== src/Boot/Start.antt =====
-- The first part of entry32 (gluKe/entry32.c), from get_RAM_size to int_init. Where it ends the
-- kernel, the text that it gives to `die` is a constructor here. init_GDT, which loads a register, is
-- left out, and rgn_init, which returns 0 always, has no branch.
use glu_ke.Base.{ℕ, Option, none, some, List, if◌then◌else◌}
use glu_ke.Base.Int.{ℤ, ok_code, eq_ℤ}
use glu_ke.Rgn.{Rgn, rgn_init}
use glu_ke.Paging.{Memory, init_paging}
use glu_ke.Timer.{Timer, set_timer_freq}
use glu_ke.Int.{Ints}
use glu_ke.Int.Idt.{Idt, int_init}
use glu_ke.Boot.{Region, alloc_memory_not_in_use}
use glu_ke.Boot.Ram.{get_ram_size}

abbrev pub timer_frequency : ℕ
timer_frequency = 200

-- What `die` says.
pub data Death : Type 0 where
  cant_allocate_memory : Death
  init_paging_failed : Death
  set_timer_freq_failed : Death
  int_init_failed : Death

-- What the start has set up. `memory` is as init_paging leaves it; the table of interrupts and its
-- stubs are in `idt`.
pub record Machine : Type 0 where
  pub ram_size : ℕ
  pub rgn : Rgn
  pub cat : ℕ
  pub memory : Memory
  pub timer : Timer
  pub idt : Idt
  pub ints : Ints

pub data Start : Type 0 where
  died : Death → Start
  up : Machine → Start

-- The arguments are the reserved regions, the place and size of the kernel's code and the size of its
-- stack, what task_cur_id returns, and the stubs of the interrupts.
module _ (regions : List Region) (entry kernel_bytes stack : ℕ) (cur : ℤ)
    (no_err with_err : List ℕ) where
  -- Behind get_RAM_size; `none` where a division faults.
  unfoldable pub start_on : ℕ → Memory → Timer → Idt → Ints → Option Start
  start_on size m t idt s =
      let (reserved, r) =
        alloc_memory_not_in_use regions entry kernel_bytes stack (rgn_init size) in
      let (paged, cat, p) = init_paging cur size r m in
      let (gates, idt', s', r') = int_init no_err with_err cur idt s p.rgn in
      if eq_ℤ reserved ok_code
      then (if eq_ℤ paged ok_code
          then elim (set_timer_freq timer_frequency t) [
            | none ↦ none
            | some (timed, t') ↦
                if eq_ℤ timed ok_code
                then (if eq_ℤ gates ok_code
                    then some (
                        up (record {
                          ram_size = size;
                          rgn = r';
                          cat = cat;
                          memory = p.memory;
                          timer = t';
                          idt = idt';
                          ints = s';
                        }))
                    else some (died int_init_failed))
                else some (died set_timer_freq_failed)
          ]
          else some (died init_paging_failed))
      else some (died cant_allocate_memory)

  -- `none` also where get_RAM_size does not end in `n` rounds.
  unfoldable pub entry32 :
      {M : Type 0} → (M → ℕ → ℕ) → (M → ℕ → ℕ → M) → ℕ → M → Timer → Idt → Ints → Option Start
  entry32 read write n m t idt s = elim (get_ram_size read write n m) [
    | none ↦ none
    | some (size, m') ↦ start_on size (λ a. read m' a) t idt s
  ]
