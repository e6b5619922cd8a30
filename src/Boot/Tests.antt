-- ===== src/Boot/Tests.antt =====
-- The start on a machine with 16 megabytes (gluKe/entry32.c).
use glu_ke.Base.{
  ◌+◌, ℕ, ◌^◌, ◌%◌, ◌≡◌, refl, Bool, true, false, Option, none, some, [], ◌∷◌, arith, ltb,
  if◌then◌else◌, replicate,
}
use glu_ke.Base.Find.{find_index}
use glu_ke.Base.Int.{ok_code, fail_code}
use glu_ke.Paging.{Memory, write_word, fill_table, catalogue_entry, fill_catalogue, init_paging}
use glu_ke.Timer.{Timer, set_timer_freq, set_timer_counter}
use glu_ke.Int.{Ints}
use glu_ke.Int.Idt.{Idt, int_init}
use glu_ke.Rgn.{rgn_init, rgn_alloc_base, rgn_alloc, rgn_alloc_t, alloc_basic, count_pages}
use glu_ke.Boot.{Region, alloc_regions, alloc_memory_not_in_use}
use glu_ke.Boot.Ram.{IsRam, get_ram_size, ram_loop}
use glu_ke.Boot.Start.{Start, died, up, start_on}
use glu_ke.Boot.Up.{all_regions}
use glu_ke.Boot.Finish.{Given, halted, running, finish_kernel, finish_on, say, drv_init}
use glu_ke.Task.{task_get_by_id, task_init, task_newk, task_register_task0, with_stack}
use glu_ke.Task.Switch.{task_set_planned}
use glu_ke.Mutex.{str_eq}
use glu_ke.Console.{kwr}
use glu_ke.Reports.{rgn_print_info}
use glu_ke.Tick.{plan_init}
use glu_ke.Boot.Whole.{
  End, stopped, ended, finish_start, Completed, entry32_all, entry32_all-Completed,
}
use glu_ke.Base.Text.{codes}
use glu_ke.Handle.{no_handle, handle_open, handle_by_id, new_handle_id}
use glu_ke.File.{Driver, driver_of, open_path, split_path, write, file_by_handle_id}
use glu_ke.Term.Driver.{term_open, term_write}
use glu_ke.Term.Keyboard.{Keyboard}
use glu_ke.Term.Start.{term_init_driver}

-- The video memory and the table of the descriptors, as in reserved_regions.
abbrev video : Region
video = record { base = 0xA0000; bytes = 0x15FFFF }

abbrev descriptors : Region
descriptors = record { base = 0x98000; bytes = 0x800 }

-- A word of a memory with 16 megabytes; what is not there reads as 0.
abbrev read_16 : Memory → ℕ → ℕ
read_16 m a = if ltb a (2 ^ 24) then m a % 2 ^ 32 else 0

abbrev write_16 : Memory → ℕ → ℕ → Memory
write_16 m a v = write_word m a v

memory_16-IsRam : IsRam read_16 write_16 (2 ^ 24)
unfolding write_word
memory_16-IsRam = record {
  word = λ m a. ground arith;
  keeps = λ m a v h h'. ground arith;
  beyond = λ m a h e. ground arith;
  others = λ m a b v i j ne. ground arith;
}

abbrev cleared : Memory
cleared a = 0

abbrev timer : Timer
timer = record { cur_frequency = 0; cur_mksec_per_tick = 0; speaker = 0; writes = [] }

abbrev no_idt : Idt
no_idt = record { base = 0; size = 0; gates = []; stubs = [] }

abbrev off : Ints
off = record { inited = false; off_count = 0; enabled = false }

-- The driver of the terminals, for texts.
abbrev terminal : Driver Keyboard
terminal = record {
  name = codes "terminal";
  open_file = λ f arg k.
      let (place, ts) = term_open k.terms in
      elim place [
        | none ↦ (fail_code, f, record k { terms = ts })
        | some i ↦ (ok_code, record f { idata = i }, record k { terms = ts })
      ];
  read_file = none;
  write_file = some (λ f buf k.
      let (code, ts) = term_write f.idata buf k.terms in (code, record k { terms = ts }));
  ioctl_file = none;
  close_file = none;
}

abbrev keyboard : Keyboard
keyboard = record {
  pressed = [];
  terms = record {
    terms = [];
    active = fail_code;
    screen = record { vidmem = []; cursor = 0; cursor_on = true };
    ints = off;
    strays = [];
  };
}

abbrev given : Given Keyboard
given = record {
  drivers = terminal ∷ [];
  inits = term_init_driver ∷ [];
  devices = keyboard;
  gdt = replicate 40 (replicate 8 0);
  killer_entry = 0x31000;
  timer_entry = 0x32000;
  work_entry = 0x33000;
  first_memory = some 0x400000;
  killer_memory = some 0x401000;
  timer_memory = some 0x402000;
  work_memory = some 0x403000;
  handle_memory = some no_handle;
  reg = 24;
}

entry32_all-Completed_example :
    Completed given
      (all_regions
        (video ∷ descriptors ∷ [])
        0x30000
        0x8000
        0x10000
        fail_code
        (replicate 16 0)
        (replicate 16 0))
      (2 ^ 24)
      (entry32_all given
        (video ∷ descriptors ∷ [])
        0x30000
        0x8000
        0x10000
        fail_code
        (replicate 16 0)
        (replicate 16 0)
        read_16
        write_16
        4000
        cleared
        timer
        no_idt
        off)
entry32_all-Completed_example =
    entry32_all-Completed given (video ∷ descriptors ∷ []) 0x30000 0x8000 0x10000 fail_code
      (replicate 16 0) (replicate 16 0) read_16 write_16 (2 ^ 24) 4000 memory_16-IsRam cleared timer
      no_idt off no_handle refl (omega arith) (omega arith) (omega arith) refl

-- A memory that has a page behind 2 megabytes only.
abbrev read_small : Memory → ℕ → ℕ
read_small m a = if ltb a 0x201000 then m a % 2 ^ 32 else 0

abbrev size_found : Option (ℕ × Memory) → ℕ
size_found none = 0
size_found (some (size, m)) = size

two_rounds : size_found (get_ram_size read_small write_16 2 cleared) ≡ 0x201000
unfolding get_ram_size ram_loop write_word
two_rounds = refl

-- The machine comes up.
abbrev is_up : Option Start → Bool
is_up none = false
is_up (some (died d)) = false
is_up (some (up m)) = true

comes_up :
    is_up (
      start_on
        (video ∷ descriptors ∷ [])
        0x30000
        0x8000
        0x10000
        fail_code
        (replicate 16 0)
        (replicate 16 0)
        (2 ^ 24)
        cleared
        timer
        no_idt
        off)
    ≡ true
unfolding start_on rgn_init alloc_memory_not_in_use alloc_regions rgn_alloc_base init_paging
    fill_catalogue catalogue_entry fill_table int_init rgn_alloc alloc_basic set_timer_freq
    find_index count_pages set_timer_counter
comes_up = refl

-- A driver that counts the texts it is given, and what it counted by the end.
abbrev given_text : Given ℕ
given_text = record {
  drivers =
      record {
        name = codes "terminal";
        open_file = λ f arg d. (ok_code, f, d);
        read_file = none;
        write_file = some (λ f buf d. (ok_code, d + 1));
        ioctl_file = none;
        close_file = none;
      }
      ∷ [];
  inits = [];
  devices = 0;
  gdt = replicate 40 (replicate 8 0);
  killer_entry = 0x31000;
  timer_entry = 0x32000;
  work_entry = 0x33000;
  first_memory = some 0x400000;
  killer_memory = some 0x401000;
  timer_memory = some 0x402000;
  work_memory = some 0x403000;
  handle_memory = some no_handle;
  reg = 24;
}

abbrev texts_of : Option (End ℕ) → ℕ
texts_of none = 0
texts_of (some (stopped d)) = 0
texts_of (some (ended (halted h))) = 0
texts_of (some (ended (running kfile idt c))) = c.kernel.devices

abbrev started : Option Start → Option (End ℕ)
started none = none
started (some s) = finish_start given_text s

-- The whole start on 16 megabytes: the kernel runs, and four texts were printed.
runs_16 :
    texts_of (
      started (
        start_on
          (video ∷ descriptors ∷ [])
          0x30000
          0x8000
          0x10000
          fail_code
          (replicate 16 0)
          (replicate 16 0)
          (2 ^ 24)
          cleared
          timer
          no_idt
          off))
    ≡ 4
unfolding start_on rgn_init alloc_memory_not_in_use alloc_regions rgn_alloc_base init_paging
    fill_catalogue catalogue_entry fill_table int_init rgn_alloc alloc_basic set_timer_freq
    find_index count_pages set_timer_counter finish_start finish_kernel finish_on say drv_init
    task_init task_newk task_register_task0 with_stack task_set_planned driver_of rgn_alloc_t
    open_path str_eq split_path handle_open rgn_print_info kwr write file_by_handle_id handle_by_id
    new_handle_id plan_init task_get_by_id
runs_16 = refl
