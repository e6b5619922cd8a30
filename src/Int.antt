-- ===== src/Int.antt =====
-- gluKe/int.c: the nesting of critical sections (`one` and `all` of int.h) and the dispatch of
-- interrupts. The processor's interrupt flag stands for `cli` and `sti`.
pub mod Nesting
pub mod Idt
mod Tests
use glu_ke.Base.{
  ℕ, zero, suc, ◌+◌, ◌-◌, ◌%◌, ◌^◌, Bool, true, false, not, ◌&&◌, ◌||◌, List, [], ◌∷◌, ltb, leb,
  ◌==◌, if◌then◌else◌,
}
use glu_ke.Base.Int.{ℤ, ok_code, fail_code}

-- `int_inited`, `off_count` and the interrupt flag. `off_count` is never negative between calls.
pub record Ints : Type 0 where
  pub inited : Bool
  pub off_count : ℕ
  pub enabled : Bool

pub int_off : Ints → ℤ × Ints
int_off s =
    if s.inited
    then (ok_code, record s { off_count = s.off_count + 1; enabled = false })
    else (fail_code, s)

pub int_off_noinc : Ints → ℤ × Ints
int_off_noinc s = if s.inited then (ok_code, record s { enabled = false }) else (fail_code, s)

-- `off_count--; if(off_count<0) off_count=0; if(off_count==0) asm("sti");`
pub release : Ints → Ints
release s = record s { off_count = s.off_count - 1; enabled = s.off_count - 1 == 0 || s.enabled }

pub int_on : Ints → ℤ × Ints
unfolding release
int_on s = if s.inited then (ok_code, release s) else (fail_code, s)

-- The flag and the count after the `iret`, which leaves them to the code above it.
pub int_on_iret : Ints → Ints
unfolding release
int_on_iret s = if s.inited then release s else s

-- What the handler of an interrupt does. `die` ends the kernel.
pub data Reply : Type 0 where
  dies : Reply
  counts_time : Reply
  reads_key : Reply
  nothing : Reply

-- Which controller gets the end of the interrupt.
pub data Eoi : Type 0 where
  master slave : Eoi

pub data Handled : Type 0 where
  dead : Handled
  done : Reply → Eoi → Handled

abbrev pub is_exception : ℕ → Bool
is_exception x = ltb x 0x20

abbrev pub is_hardware : ℕ → Bool
is_hardware x = leb 32 x && ltb x 48

-- `switch` of `int_handle` on a hardware interrupt; `handler` says that a keyboard handler is set.
pub hardware_reply : Bool → ℕ → Reply
hardware_reply handler number =
    if number == 0x20
    then counts_time
    else if number == 0x21
    then (if handler then reads_key else nothing)
    else if number == 0x28
    then nothing
    else dies

-- int_complete
abbrev pub eoi : ℕ → Eoi
eoi number = if ltb number 40 then master else slave

complete : Reply → ℕ → Handled
complete dies number = dead
complete counts_time number = done counts_time (eoi number)
complete reads_key number = done reads_key (eoi number)
complete nothing number = done nothing (eoi number)

pub int_handle : Bool → ℕ → Handled
unfolding hardware_reply complete
int_handle handler number =
    if is_exception number
    then dead
    else if is_hardware number
    then complete (hardware_reply handler number) number
    else dead

-- `nof_mseconds` after the handler: 55 more for a tick, as a 32-bit word.
pub mseconds_after : Handled → ℕ → ℕ
mseconds_after (done counts_time e) n = (n + 55) % 2 ^ 32
mseconds_after (done reads_key e) n = n
mseconds_after (done nothing e) n = n
mseconds_after (done dies e) n = n
mseconds_after dead n = n
