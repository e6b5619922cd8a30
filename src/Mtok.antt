-- ===== src/Mtok.antt =====
-- mylib/mtok.c: the tokenizer of the kernel's command line. A text is the list of its codes up to
-- the NUL, the buffer a list of as many elements as it has bytes. Only `input`, `usep` and `jsep`
-- can be null pointers (`none`); the callers pass the addresses of variables for the others.
pub mod Words
pub mod Calls
pub mod Buffer
mod Tests
use glu_ke.Base.{
  ℕ, zero, suc, ◌+◌, ◌-◌, Bool, true, false, not, ◌||◌, Option, none, some, List, [], ◌∷◌, ltb,
  ◌==◌, if◌then◌else◌, set, drop,
}
use glu_ke.Base.Int.{ℤ, pos, negsuc}

-- The codes of mylib/include/my_err.h and mtok.h.
abbrev pub mtok_end : ℤ
mtok_end = pos 1

abbrev pub e_barg : ℤ
e_barg = negsuc 1

abbrev pub e_buf_2small : ℤ
e_buf_2small = negsuc 2

unfoldable pub contains : List ℕ → ℕ → Bool
contains [] c = false
contains (x ∷ s) c = x == c || contains s c

-- `sep ? strchr(sep, c) : 0`
unfoldable pub is_sep : Option (List ℕ) → ℕ → Bool
unfolding contains
is_sep none c = false
is_sep (some s) c = contains s c

-- How the loop ends: at the end of the text, at a separator that is a token, or behind a word of
-- `count` characters that ends before position `i`.
pub data Stop : Type 0 where
  at_end : Stop
  at_sep : (c : ℕ) → Stop
  at_word : (i count : ℕ) (buf : List ℕ) → Stop

-- `if(cur_buf_size<*buf_size-1) buf[cur_buf_size]=c`
abbrev pub put : ℕ → List ℕ → ℕ → ℕ → List ℕ
put size buf n c = if ltb n (size - 1) then set buf n c else buf

-- The loop over the rest of the text.
pub scan : Option (List ℕ) → Option (List ℕ) → ℕ → List ℕ → ℕ → ℕ → Bool → List ℕ → Stop
scan usep jsep size [] i n taking buf = if taking then at_word i n buf else at_end
scan usep jsep size (c ∷ cs) i n taking buf =
    let joins = is_sep jsep c in
    let rest =
      scan usep jsep size cs (i + 1) (if joins then n else n + 1) (not joins || taking)
        (if joins then buf else put size buf n c) in
    if joins
    then (if taking then at_word i n buf else rest)
    else if is_sep usep c
    then (if taking then at_word i n buf else at_sep c)
    else rest

-- What a call returns and leaves behind its pointers.
pub record Call : Type 0 where
  pub code : ℤ
  pub cur_pos : ℕ
  pub buf : List ℕ
  pub buf_size : ℕ

pub finish : Stop → ℕ → List ℕ → ℕ → Call
finish at_end cur_pos buf size = record {
  code = mtok_end;
  cur_pos = cur_pos;
  buf = buf;
  buf_size = size;
}
finish (at_sep c) cur_pos buf size = record {
  code = pos 0;
  cur_pos = cur_pos + 1;
  buf = set (set buf 0 c) 1 0;
  buf_size = size;
}
finish (at_word i n written) cur_pos buf size =
    if ltb n size
    then record { code = pos 0; cur_pos = i; buf = set written n 0; buf_size = size }
    else record { code = e_buf_2small; cur_pos = i; buf = written; buf_size = n + 1 }

pub bad_args : Option (List ℕ) → Option (List ℕ) → Option (List ℕ) → Bool
bad_args none usep jsep = true
bad_args (some s) none none = true
bad_args (some s) (some u) jsep = false
bad_args (some s) none (some j) = false

abbrev text_of : Option (List ℕ) → List ℕ
text_of none = []
text_of (some s) = s

pub mtok : Option (List ℕ) → ℕ → List ℕ → ℕ → Option (List ℕ) → Option (List ℕ) → Call
unfolding bad_args finish
mtok input cur_pos buf size usep jsep =
    let refused : Call = record { code = e_barg; cur_pos = cur_pos; buf = buf; buf_size = size } in
    if bad_args input usep jsep || ltb size 2
    then refused
    else finish (scan usep jsep size (drop cur_pos (text_of input)) cur_pos 0 false buf) cur_pos buf
        size
