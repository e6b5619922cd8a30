-- ===== src/Term.antt =====
-- gluKe/drivers/term.c: the terminals. This file has the screen, a terminal's buffers and its input;
-- Term/Driver has the driver's calls and Term/Keyboard the keyboard handler.
pub mod Driver
pub mod Keyboard
pub mod Start
pub mod Output
pub mod Input
pub mod Control
pub mod Separate
pub mod Opening
mod Tests
use glu_ke.Base.{
  ℕ, zero, suc, ◌+◌, ◌-◌, ◌*◌, ◌/◌, ◌%◌, ◌^◌, Bool, true, false, not, ◌&&◌, ◌||◌, Option, none,
  some, List, [], ◌∷◌, ◌++◌, ltb, leb, ◌==◌, if◌then◌else◌, length, set, take, drop, replicate,
}

abbrev pub bytes_per_line : ℕ
bytes_per_line = 160

abbrev pub vidmem_size : ℕ
vidmem_size = 4000

abbrev pub input_bsize : ℕ
input_bsize = 100

-- `kmemset4(p, 0x0F000F00, n)`: `n` times four bytes, the lowest one first.
pub blank4 : ℕ → List ℕ
blank4 zero = []
blank4 (suc n) = 0 ∷ 0x0F ∷ 0 ∷ 0x0F ∷ blank4 n

-- A buffer of `vidmem_size` bytes and the position in it. The position is even, so that a
-- backspace, which takes 2 from a position above 0, does not make it negative.
pub record Out : Type 0 where
  pub buf : List ℕ
  pub osize : ℕ

abbrev pub line_start : ℕ → ℕ
line_start n = n - n % bytes_per_line

-- One character, before the test for the end of the buffer.
pub put_char : ℕ → Out → Out
put_char c o =
    if c == b'\n'
    then record o { osize = line_start (o.osize + bytes_per_line) }
    else if c == 13
    then record o { osize = line_start o.osize }
    else if c == 8
    then (if ltb 0 o.osize
        then record { buf = set o.buf (o.osize - 2) b' '; osize = o.osize - 2 }
        else o)
    else record { buf = set o.buf o.osize c; osize = o.osize + 2 }

-- The lines move up by one when the position is behind the last one.
pub scroll : Out → Out
unfolding blank4
scroll o =
    if leb vidmem_size o.osize
    then record {
      buf = drop bytes_per_line o.buf ++ blank4 (bytes_per_line / 4);
      osize = o.osize - bytes_per_line;
    }
    else o

unfoldable pub append_to_buffer : List ℕ → Out → Out
unfolding put_char scroll
append_to_buffer [] o = o
append_to_buffer (c ∷ tail) o = append_to_buffer tail (scroll (put_char c o))

pub data Mode : Type 0 where
  text pixel : Mode

pub record Term : Type 0 where
  pub osize : ℕ
  pub iend : ℕ
  pub output_mode : Mode
  pub show : Bool
  pub input : List ℕ
  pub output : List ℕ
  pub used : Bool
  pub read_block : Bool
  pub read_line : Bool

unfoldable pub clear_term : Term → Term
unfolding blank4
clear_term t = record t { output = blank4 (vidmem_size / 4); osize = 0; iend = 0 }

-- `key_pressed` on the active terminal; `none` where it returns and shows nothing.
unfoldable pub take_key : ℕ → Term → Option Term
take_key symbol t =
    if symbol == 8
    then (if ltb 0 t.iend then some (record t { iend = t.iend - 1 }) else none)
    else if leb input_bsize t.iend || (t.iend == input_bsize - 1 && not (symbol == b'\n'))
    then none
    else some (record t { input = set t.input t.iend symbol; iend = t.iend + 1 })

-- `kmemcpy(td->input, td->input+n, n); td->iend-=n`. Behind the input lies the output.
unfoldable pub drop_input : ℕ → Term → Term
drop_input n t = record t {
  input = take n (drop n (t.input ++ t.output)) ++ drop n t.input;
  iend = t.iend - n;
}

pub record Screen : Type 0 where
  pub vidmem : List ℕ
  pub cursor : ℕ
  pub cursor_on : Bool

-- to_screen: the cursor registers get the position of the character as 16 bits.
unfoldable pub to_screen : List ℕ → ℕ → Screen → Screen
to_screen buf bsize sc = record sc { vidmem = buf; cursor = bsize / 2 % 2 ^ 16 }

unfoldable pub show_text : Term → Screen → Screen
unfolding append_to_buffer to_screen
show_text t sc =
    let o = append_to_buffer (take t.iend t.input) (record { buf = t.output; osize = t.osize }) in
    to_screen o.buf o.osize sc

unfoldable pub show_no_check : Term → Screen → Screen
unfolding show_text to_screen
show_no_check t sc = elim t.output_mode [ pixel ↦ to_screen t.output 0 sc | text ↦ show_text t sc ]

unfoldable pub show_term : Term → Screen → Screen
unfolding show_no_check
show_term t sc = if t.show then show_no_check t sc else sc
