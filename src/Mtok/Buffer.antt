-- ===== src/Mtok/Buffer.antt =====
-- What every call of `mtok` (mylib/mtok.c) keeps of the buffer that it is given.
use glu_ke.Base.{
  ℕ, ◌+◌, ◌≡◌, ◌∙◌, refl, ◌⊎◌, inl, inr, Bool, true, false, ◌||◌, Option, List, [], ◌∷◌, arith, ltb,
  length, set, length-set, Bool-cases,
}
use glu_ke.Base.Int.{pos, eq_ℤ}
use glu_ke.Mtok.{at_word, at_end, at_sep, Stop, Call, is_sep, put, scan, finish, mtok, bad_args}

length-put : (size : ℕ) (buf : List ℕ) (n c : ℕ) → length (put size buf n c) ≡ length buf
length-put size buf n c = ground (arith, length-set buf n c)

-- The buffer that the loop has written has the length of the one that it got.
abbrev KeepsLength : ℕ → Stop → Type 0
KeepsLength l at_end = Unit {0}
KeepsLength l (at_sep c) = Unit {0}
KeepsLength l (at_word i n buf) = length buf ≡ l

scan-KeepsLength :
    (usep jsep : Option (List ℕ)) (size : ℕ) (cs : List ℕ) (i n : ℕ) (taking : Bool) (buf : List ℕ)
    (l : ℕ)
    → length buf ≡ l
    → KeepsLength l (scan usep jsep size cs i n taking buf)
unfolding scan
scan-KeepsLength usep jsep size [] i n true buf l h = h
scan-KeepsLength usep jsep size [] i n false buf l h = tt
scan-KeepsLength usep jsep size (c ∷ cs) i n taking buf l h = elim (Bool-cases (is_sep jsep c)) [
  | inl joins ↦ elim (Bool-cases taking) [
    | inl t ↦ rw (joins, t) h
    | inr t ↦ rw (joins, t) (scan-KeepsLength usep jsep size cs (i + 1) n false buf l h)
  ]
  | inr other ↦
      let rest =
        scan-KeepsLength usep jsep size cs (i + 1) (n + 1) true (put size buf n c) l
          (length-put size buf n c ∙ h) in
      elim (Bool-cases (is_sep usep c)) [
        | inl sep ↦ elim (Bool-cases taking) [
          | inl t ↦ rw (other, sep, t) h
          | inr t ↦ rw (other, sep, t) tt
        ]
        | inr ordinary ↦ rw (other, ordinary) rest
      ]
]

-- A call that succeeds leaves the size of the buffer as it was, and no call changes its length.
abbrev Kept : ℕ → ℕ → Call → Type 0
Kept size l r = (length r.buf ≡ l) × ((eq_ℤ r.code (pos 0) ≡ false) ⊎ (r.buf_size ≡ size))

finish-Kept :
    (s : Stop) (cur_pos : ℕ) (buf : List ℕ) (size : ℕ)
    → KeepsLength (length buf) s
    → Kept size (length buf) (finish s cur_pos buf size)
unfolding finish
finish-Kept at_end cur_pos buf size h = (refl, inl refl)
finish-Kept (at_sep c) cur_pos buf size h =
    (length-set (set buf 0 c) 1 0 ∙ length-set buf 0 c, inr refl)
finish-Kept (at_word i n written) cur_pos buf size h = elim (Bool-cases (ltb n size)) [
  | inl fits ↦ rw fits (length-set written n 0 ∙ h, inr refl)
  | inr large ↦ rw large (h, inl refl)
]

pub mtok-Kept :
    (input : Option (List ℕ)) (cur_pos : ℕ) (buf : List ℕ) (size : ℕ) (usep jsep : Option (List ℕ))
    → Kept size (length buf) (mtok input cur_pos buf size usep jsep)
unfolding mtok
mtok-Kept input cur_pos buf size usep jsep =
    elim (Bool-cases (bad_args input usep jsep || ltb size 2)) [
      | inl bad ↦ rw bad (refl, inr refl)
      | inr good ↦ rw good (
          finish-Kept _ cur_pos buf size
            (scan-KeepsLength usep jsep size _ cur_pos 0 false buf (length buf) refl))
    ]
