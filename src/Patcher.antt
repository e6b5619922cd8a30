-- ===== src/Patcher.antt =====
-- gluKe/build_utils/patcher.c, the tool that writes bytes into an image. The C library is an
-- argument: `scan_word`, `scan_repeat` and `scan_hex` are sscanf with " %s ", with "(%x)" and with
-- "%x", where `none` is that nothing was converted; `malloc` gives the number of bytes of its block,
-- which may be more than asked for, and the bytes from its block on; the calls on the file act on a
-- state of its own. A write behind a buffer or a block ends a run here as such: what it does in C is
-- not modelled. Null pointers do not come.
pub mod Pairs
pub mod Bytes
pub mod Patched
mod Tests
use glu_ke.Base.{
  ℕ, zero, suc, ◌+◌, ◌*◌, ◌/◌, ◌%◌, ◌^◌, Option, none, some, List, [], ◌∷◌, ◌++◌, ◌==◌, ◌||◌, ltb,
  leb, if◌then◌else◌, length, get_or, set, drop,
}
use glu_ke.Base.Find.{find_index}
use glu_ke.Work.{text_in}

-- The bytes from a pointer on.
abbrev pub Heap : Type 0
Heap = ℕ → ℕ

-- What the conversion "%x" writes: the four bytes of an `unsigned int`, the lowest first.
unfoldable pub write_int : Heap → ℕ → ℕ → Heap
write_int m at v a =
    if a == at
    then v % 2 ^ 8
    else if a == at + 1
    then v / 2 ^ 8 % 2 ^ 8
    else if a == at + 2
    then v / 2 ^ 16 % 2 ^ 8
    else if a == at + 3
    then v / 2 ^ 24 % 2 ^ 8
    else m a

-- The bytes that are read for a file.
unfoldable pub bytes : Heap → ℕ → ℕ → List ℕ
bytes m at zero = []
bytes m at (suc n) = m at ∷ bytes m (at + 1) n

-- How the loops of parse_patch_string end: there is no number, a write goes behind the block, or all
-- pairs are read.
pub data Loop : Type 0 where
  no_number : Loop
  beyond : Loop
  went : (byte_count : ℕ) (s : List ℕ) (m : Heap) → Loop

-- What parse_patch_string does: it ends the program, writes behind its block, or returns a block and
-- its size.
pub data Parsed : Type 0 where
  usage : Parsed
  no_memory : Parsed
  behind_block : Parsed
  parsed : (block : Heap) (size : ℕ) → Parsed

-- The string behind the first closing brace, or all of it.
unfoldable pub behind_brace : List ℕ → List ℕ
behind_brace s = elim (find_index (λ c. c == 41) (text_in s)) [ none ↦ s | some i ↦ drop (i + 1) s ]

module _ (scan_hex : List ℕ → Option ℕ) (room : ℕ) where
  -- The loop over `i`, for `n` pairs of symbols from `i` on. A NUL behind the pair ends what sscanf
  -- reads, and is taken back. The conversion writes four bytes of the block, which has `room`.
  unfoldable pub pairs_loop : ℕ → ℕ → ℕ → List ℕ → Heap → Loop
  pairs_loop zero i byte_count s m = went byte_count s m
  pairs_loop (suc n) i byte_count s m =
      let temp = get_or s (i + 2) 0 in
      let s' = set s (i + 2) 0 in
      elim (scan_hex (text_in (drop i s'))) [
        | none ↦ no_number
        | some v ↦
            let rest =
              pairs_loop n (i + 2) (byte_count + 1) (set s' (i + 2) temp)
                (write_int m byte_count v) in
            if ltb room (byte_count + 4) then beyond else rest
      ]

  -- The loop over `repeat`.
  unfoldable pub repeat_loop : ℕ → ℕ → ℕ → List ℕ → Heap → Loop
  repeat_loop zero n byte_count s m = went byte_count s m
  repeat_loop (suc r) n byte_count s m = elim (pairs_loop n 0 byte_count s m) [
    | no_number ↦ no_number
    | beyond ↦ beyond
    | went byte_count' s' m' ↦ repeat_loop r n byte_count' s' m'
  ]

module _ (scan_hex : List ℕ → Option ℕ) (malloc : ℕ → Option (ℕ × Heap)) where
  -- Behind the repetition.
  unfoldable pub parse_bytes : ℕ → List ℕ → Parsed
  parse_bytes repeat s =
      let slen = length (text_in s) in
      let size = repeat * slen % 2 ^ 32 / 2 in
      if slen % 2 == 1 || slen == 0 || repeat == 0 then usage else elim (malloc size) [
        | none ↦ no_memory
        | some (room, m) ↦ elim (repeat_loop scan_hex room repeat (slen / 2) 0 s m) [
          | no_number ↦ usage
          | beyond ↦ behind_block
          | went byte_count s' m' ↦ parsed m' size
        ]
      ]

module _ (scan_repeat scan_hex : List ℕ → Option ℕ) (malloc : ℕ → Option (ℕ × Heap)) where
  unfoldable pub parse_patch_string : List ℕ → Parsed
  unfolding parse_bytes behind_brace
  parse_patch_string s = elim (scan_repeat s) [
    | none ↦ parse_bytes scan_hex malloc 1 s
    | some repeat ↦ parse_bytes scan_hex malloc repeat (behind_brace s)
  ]

-- sizeof(fname) and sizeof(patch_string)
abbrev pub fname_size : ℕ
fname_size = 300

abbrev pub patch_string_size : ℕ
patch_string_size = 1000

-- How a run of the program ends; `overruns` where it writes behind a buffer or a block.
pub data Run (W : Type 0) : Type 0 where
  dies : W → Run W
  overruns : W → Run W
  ends : W → Run W

-- The loop of main over the arguments behind the file name, and main. The file: `lseek` says whether it
-- moved, and a write that fails is only reported. An argument without another behind it is left. What
-- an earlier string leaves in `patch_string` behind the NUL is not read.
module _ {W : Type 0} (scan_word : List ℕ → Option (List ℕ))
    (scan_repeat scan_hex : List ℕ → Option ℕ) (malloc : ℕ → Option (ℕ × Heap))
    (lseek : ℕ → W → Option W) (write : List ℕ → W → W) where
  unfoldable pub patch_args : List (List ℕ) → W → Run W
  patch_args [] w = ends w
  patch_args (offset ∷ []) w = ends w
  patch_args (offset ∷ (value ∷ rest)) w = elim (scan_hex offset) [
    | none ↦ dies w
    | some at ↦ elim (scan_word value) [
      | none ↦ dies w
      | some string ↦
          if leb patch_string_size (length string)
          then overruns w
          else elim (parse_patch_string scan_repeat scan_hex malloc (string ++ (0 ∷ []))) [
            | usage ↦ dies w
            | no_memory ↦ dies w
            | behind_block ↦ overruns w
            | parsed m size ↦ elim (lseek at w) [
              | none ↦ dies w
              | some w' ↦ patch_args rest (write (bytes m 0 size) w')
            ]
          ]
    ]
  ]

  -- main behind the name of the program: it needs a file name and two arguments.
  unfoldable pub main : (List ℕ → W → Option W) → List (List ℕ) → W → Run W
  unfolding patch_args
  main open_file [] w = dies w
  main open_file (name ∷ rest) w = if ltb (length rest) 2 then dies w else elim (scan_word name) [
    | none ↦ dies w
    | some fname ↦
        if leb fname_size (length fname)
        then overruns w
        else elim (open_file fname w) [ none ↦ dies w | some w' ↦ patch_args rest w' ]
  ]
