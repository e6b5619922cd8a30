-- ===== src/Term/Driver.antt =====
-- The calls of the terminal driver in gluKe/drivers/term.c. A `struct file` of it is the index
-- `idata` of a terminal. A read that blocks on too little input waits: the call is made again when
-- keys have come in.
use glu_ke.Base.{
  ◌-◌, ◌++◌, ◌∷◌, ℕ, ◌+◌, ◌*◌, Bool, true, false, not, ◌&&◌, ◌||◌, Option, none, some, List, [],
  ltb, leb, ◌==◌, if◌then◌else◌, length, get_or, set, take, replicate,
}
use glu_ke.Base.Find.{find_index}
use glu_ke.Base.Int.{is_negative, ℤ, pos, negsuc, scale, ◌+ℤ◌, eq_ℤ, ok_code, fail_code}
use glu_ke.Int.{Ints, int_off, int_on}
use glu_ke.Term.{
  append_to_buffer, Mode, text, pixel, Term, Screen, clear_term, show_term, drop_input,
}

abbrev pub max_nof_terms : ℕ
max_nof_terms = 10

pub record Terms : Type 0 where
  pub terms : List Term
  -- `active_term_index`, -1 at first
  pub active : ℤ
  pub screen : Screen
  pub ints : Ints
  -- The bytes written in front of a terminal's output: the terminal, the index and the byte.
  pub strays : List (ℕ × ℤ × ℕ)

-- A terminal that was never opened, after `kmemset`.
abbrev pub no_term : Term
no_term = record {
  osize = 0;
  iend = 0;
  output_mode = text;
  show = false;
  input = replicate 100 0;
  output = replicate 4000 0;
  used = false;
  read_block = false;
  read_line = false;
}

abbrev pub term_at : Terms → ℕ → Term
term_at s i = get_or s.terms i no_term

abbrev pub set_term : ℕ → Term → Terms → Terms
set_term i t s = record s { terms = set s.terms i t }

abbrev pub one : Terms → Terms
one s = record s { ints = (int_off s.ints).1 }

abbrev pub all : Terms → Terms
all s = record s { ints = (int_on s.ints).1 }

abbrev pub is_active : ℕ → Terms → Bool
is_active i s = eq_ℤ (pos i) s.active

-- What `term_open` sets in the terminal that it takes.
unfoldable pub opened : Term → Term
opened t = record (clear_term (record t { used = true; read_block = true; iend = 0; osize = 0 })) {
  output_mode = text;
  show = true;
}

-- The section that `st_show_pixel` enters and leaves.
unfoldable pub pixel_section : Term → Terms → Terms
pixel_section t s = elim t.output_mode [ pixel ↦ all (one s) | text ↦ s ]

-- st_show of terminal `i`
unfoldable pub st_show : ℕ → Terms → Terms
unfolding pixel_section
st_show i s =
    if (term_at s i).show
    then pixel_section (term_at s i) (record s { screen = show_term (term_at s i) s.screen })
    else s

abbrev pub is_open : ℕ → Terms → Bool
is_open i s = ltb i max_nof_terms && (term_at s i).used

abbrev in_text : Mode → Bool
in_text text = true
in_text pixel = false

-- switch_to_term; the index of the caller is not negative.
unfoldable pub switch_to_term : ℕ → Terms → Terms
unfolding st_show
switch_to_term i s =
    if is_open i s
    then (let on = in_text (term_at s i).output_mode in
        all (
          st_show i
            (record (one s) { active = pos i; screen = record s.screen { cursor_on = on } })))
    else all (one s)

-- The end of `term_close`: the first terminal that is still used is shown.
switch_to_used : Terms → Terms
unfolding switch_to_term
switch_to_used s = elim (find_index (λ t. t.used) s.terms) [
  | none ↦ s
  | some k ↦ switch_to_term k s
]

-- term_close. The index is checked against `> MAX_NOF_TERMS`; one place behind the last terminal is
-- read as an unused one here.
pub term_close : ℕ → Terms → ℤ × Terms
unfolding switch_to_used
term_close i s =
    if ltb max_nof_terms i || not (term_at s i).used then (fail_code, all (one s)) else (
      ok_code,
      all (switch_to_used (set_term i (record (term_at s i) { used = false }) (one s))),
    )

-- With the index for `fl->idata`; `none` is -1.
unfoldable pub term_open : Terms → Option ℕ × Terms
unfolding opened
term_open s = elim (find_index (λ t. not t.used) s.terms) [
  | none ↦ (none, all (one s))
  | some i ↦ (
    some i,
    set_term i (opened (term_at s i))
        (record (all (one s)) { active = if is_negative s.active then pos i else s.active }),
  )
]

-- Show terminal `i` if it is the active one.
unfoldable pub show_active : ℕ → Terms → Terms
unfolding st_show
show_active i s = if is_active i s then st_show i s else s

-- st_text_add_to_output
unfoldable pub text_out : ℕ → List ℕ → Terms → Terms
unfolding show_active
text_out i buf s =
    let t = term_at s i in
    let o = append_to_buffer buf (record { buf = t.output; osize = t.osize }) in
    let s' = set_term i (record t { output = o.buf; osize = o.osize }) s in
    if is_active i s then all (show_active i (one s')) else s'

abbrev pub byte : List ℕ → ℕ → ℕ
byte buf k = get_or buf k 0

-- A `char` of the buffer as an `int` is at least the limit: it is not negative.
abbrev pub reaches : ℕ → ℕ → Bool
reaches limit c = leb limit c && ltb c 128

-- A `char` as an `int`
abbrev pub signed : ℕ → ℤ
signed c = if ltb c 128 then pos c else negsuc (255 - c)

-- `y*80*2+x*2`
abbrev pub pixel_place : ℕ → ℕ → ℤ
pixel_place x y = scale (signed y) (80 * 2) +ℤ scale (signed x) 2

-- `td->output[at]=v` for terminal `i`. In front of the output lie the other fields and the other
-- terminals: such a byte is kept in `strays`, and what it changes there is not modelled.
unfoldable pub put_byte : ℕ → ℤ → ℕ → Terms → Terms
put_byte i (pos p) v s =
    let t = term_at s i in set_term i (record t { output = set t.output p v }) s
put_byte i (negsuc d) v s = record s { strays = (i, negsuc d, v) ∷ s.strays }

unfoldable pub put_pixel : ℕ → List ℕ → Terms → Terms
unfolding put_byte
put_pixel i buf s =
    let place = pixel_place (byte buf 0) (byte buf 1) in
    put_byte i (place +ℤ pos 1) (byte buf 3) (put_byte i place (byte buf 2) s)

-- st_pixel_add_to_output. Out of the screen it returns within the section.
unfoldable pub pixel_out : ℕ → List ℕ → Terms → Terms
unfolding show_active put_pixel
pixel_out i buf s =
    if not (length buf == 4) || (ltb max_nof_terms i || not (term_at s i).used)
    then s
    else if reaches 25 (byte buf 1) || reaches 80 (byte buf 0)
    then one s
    else all (show_active i (put_pixel i buf (one s)))

unfoldable pub add_to_output : ℕ → List ℕ → Terms → Terms
unfolding text_out pixel_out
add_to_output i buf s = elim (term_at s i).output_mode [
  | pixel ↦ pixel_out i buf s
  | text ↦ text_out i buf s
]

unfoldable pub term_write : ℕ → List ℕ → Terms → ℤ × Terms
unfolding add_to_output
term_write i buf s =
    if is_open i s then (ok_code, all (add_to_output i buf (one s))) else (fail_code, s)

-- What a read gives: its code and the bytes for the caller's buffer, which end in a NUL for a line,
-- or it waits.
pub data Read : Type 0 where
  waits : Read
  gives : (code : ℤ) (buf : List ℕ) → Read

-- The bytes are taken from the input and shown.
pub consume : ℕ → ℕ → Terms → Terms
unfolding add_to_output
consume i n s =
    add_to_output i (take n (term_at s i).input) (set_term i (drop_input n (term_at s i)) s)

abbrev newline_in : Term → Option ℕ
newline_in t = find_index (λ c. c == b'\n') (take t.iend t.input)

read_bytes : ℕ → ℕ → Terms → Read × Terms
unfolding consume
read_bytes i bytes s =
    let t = term_at s i in
    if leb bytes t.iend
    then (gives (pos bytes) (take bytes t.input), consume i bytes s)
    else if t.read_block
    then (waits, s)
    else if t.iend == 0
    then (gives (pos 0) [], s)
    else (gives (pos t.iend) (take t.iend t.input), consume i t.iend s)

read_a_line : ℕ → ℕ → Terms → Read × Terms
unfolding consume
read_a_line i bytes s =
    let t = term_at s i in
    elim (newline_in t) [
      | none ↦ (if t.read_block then waits else gives (pos 0) [], all (one s))
      | some k ↦ if ltb bytes (k + 1) then (gives fail_code [], all (one s)) else (
        gives (pos (k + 1)) (take (k + 1) t.input ++ (0 ∷ [])),
        consume i (k + 1) (all (one s)),
      )
    ]

pub term_read : ℕ → ℕ → Terms → Read × Terms
unfolding read_bytes read_a_line
term_read i bytes s =
    if is_open i s
    then (if (term_at s i).read_line then read_a_line i bytes s else read_bytes i bytes s)
    else (gives fail_code [], s)
