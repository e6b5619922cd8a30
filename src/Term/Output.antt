-- ===== src/Term/Output.antt =====
-- The output buffer of a terminal (append_to_buffer of gluKe/drivers/term.c).
use glu_ke.Base.{
  ℕ, ◌+◌, ◌-◌, ◌/◌, ◌%◌, ◌≤◌, ◌<◌, ◌≡◌, refl, inl, inr, List, [], ◌∷◌, arith, ltb, leb, ◌==◌,
  length, drop, length-set, length-drop, length-append, Bool-cases,
}
use glu_ke.Term.{Out, vidmem_size, bytes_per_line, blank4, put_char, scroll, append_to_buffer}

-- The position is that of a character on the screen.
pub record IsScreen (o : Out) : Type 0 where
  pub buf_len : length o.buf ≡ vidmem_size
  pub on_screen : o.osize < vidmem_size
  pub even : o.osize % 2 ≡ 0

-- Before the test for the end: the position may be one line further.
record IsAlmost (o : Out) : Type 0 where
  buf_len : length o.buf ≡ vidmem_size
  below : o.osize < vidmem_size + bytes_per_line
  even : o.osize % 2 ≡ 0

put_char-IsAlmost : (c : ℕ) (o : Out) → IsScreen o → IsAlmost (put_char c o)
unfolding put_char
put_char-IsAlmost c o v = elim (Bool-cases (c == b'\n')) [
  | inl nl ↦
      rw nl (record { buf_len = v.buf_len; below = omega (arith, v.on_screen); even = omega arith })
  | inr c1 ↦ elim (Bool-cases (c == 13)) [
    | inl cr ↦
        rw (c1, cr)
          (record { buf_len = v.buf_len; below = omega (arith, v.on_screen); even = omega arith })
    | inr c2 ↦ elim (Bool-cases (c == 8)) [
      | inr c3 ↦
          rw (c1, c2, c3)
            (record {
              buf_len = omega (arith, length-set o.buf o.osize c, v.buf_len);
              below = omega (arith, v.on_screen);
              even = omega (arith, v.even);
            })
      | inl bs ↦ elim (Bool-cases (ltb 0 o.osize)) [
        | inl some_left ↦
            rw (c1, c2, bs, some_left)
              (record {
                buf_len = omega (arith, length-set o.buf (o.osize - 2) b' ', v.buf_len);
                below = omega (arith, v.on_screen);
                even = omega (arith, v.even);
              })
        | inr at_start ↦
            rw (c1, c2, bs, at_start)
              (record { buf_len = v.buf_len; below = omega (arith, v.on_screen); even = v.even })
      ]
    ]
  ]
]

line_bytes : length (blank4 (bytes_per_line / 4)) ≡ bytes_per_line
unfolding blank4
line_bytes = refl

scroll-IsScreen : (o : Out) → IsAlmost o → IsScreen (scroll o)
unfolding scroll blank4
scroll-IsScreen o v = elim (Bool-cases (leb vidmem_size o.osize)) [
  | inl over ↦ rw over (record {
    buf_len = omega (
      arith,
      length-append (drop bytes_per_line o.buf) (blank4 (bytes_per_line / 4)),
      length-drop bytes_per_line o.buf,
      v.buf_len,
      line_bytes,
    );
    on_screen = omega (arith, v.below);
    even = let le : vidmem_size ≤ o.osize = ground arith in omega (arith, v.even);
  })
  | inr fits ↦ rw fits (record { buf_len = v.buf_len; on_screen = ground arith; even = v.even })
]

-- `append_to_buffer` keeps the buffer's length and leaves the position at a character of the screen.
pub append_to_buffer-IsScreen :
    (tail : List ℕ) (o : Out) → IsScreen o → IsScreen (append_to_buffer tail o)
unfolding append_to_buffer
append_to_buffer-IsScreen [] o v = v
append_to_buffer-IsScreen (c ∷ tail) o v =
    append_to_buffer-IsScreen tail (scroll (put_char c o))
      (scroll-IsScreen (put_char c o) (put_char-IsAlmost c o v))
