-- ===== src/Patcher/Tests.antt =====
-- The command "patcher image 1f (3)a00c" (gluKe/build_utils/patcher.c), with a small sscanf.
use glu_ke.Base.{
  ℕ, ◌+◌, ◌-◌, ◌*◌, ◌≡◌, refl, ◌&&◌, Option, none, some, List, [], ◌∷◌, arith, ltb, leb,
  if◌then◌else◌, length,
}
use glu_ke.Base.Text.{codes}
use glu_ke.Work.{text_in}
use glu_ke.Patcher.{Heap, main, ends, beyond, pairs_loop}
use glu_ke.Patcher.Pairs.{Pair}
use glu_ke.Patcher.Patched.{Patch, IsPatch, arguments, apply, braces, main-apply}

abbrev hex_digit : ℕ → Option ℕ
hex_digit c =
    if leb 48 c && ltb c 58
    then some (c - 48)
    else if leb 97 c && ltb c 103
    then some (c - 87)
    else none

abbrev hex_from : List ℕ → ℕ → ℕ
hex_from [] n = n
hex_from (c ∷ cs) n = elim (hex_digit c) [ none ↦ n | some d ↦ hex_from cs (n * 16 + d) ]

abbrev scan_hex : List ℕ → Option ℕ
scan_hex [] = none
scan_hex (c ∷ cs) = elim (hex_digit c) [ none ↦ none | some d ↦ some (hex_from cs d) ]

abbrev scan_repeat : List ℕ → Option ℕ
scan_repeat [] = none
scan_repeat (c ∷ cs) = if leb 40 c && leb c 40 then scan_hex cs else none

-- The blocks have eight bytes more than asked for.
abbrev malloc : ℕ → Option (ℕ × Heap)
malloc n = some (n + 8, λ a. 7)

abbrev to_blank : List ℕ → List ℕ
to_blank [] = []
to_blank (c ∷ cs) = let rest = to_blank cs in if leb c 32 then [] else c ∷ rest

abbrev scan_word : List ℕ → Option (List ℕ)
scan_word [] = none
scan_word (c ∷ cs) = let rest = scan_word cs in if leb c 32 then rest else some (c ∷ to_blank cs)

-- The file: its position, and what was written where, the last first.
abbrev Image : Type 0
Image = ℕ × List (ℕ × List ℕ)

abbrev seek : ℕ → Image → Image
seek at w = (at, w.1)

abbrev write : List ℕ → Image → Image
write bs w = (w.0 + length bs, (w.0, bs) ∷ w.1)

abbrev pair_a0 : Pair
pair_a0 = record { first = 97; second = 48; value = 0xa0 }

abbrev pair_0c : Pair
pair_0c = record { first = 48; second = 99; value = 0x0c }

abbrev patch : Patch
patch = record {
  offset = codes "1f";
  string = codes " (3)a00c 1";
  at = 0x1f;
  word = codes "(3)a00c";
  repeat = 3;
  pairs = pair_a0 ∷ pair_0c ∷ [];
  room = 14;
  heap = λ a. 7;
}

patch-IsPatch : IsPatch scan_word scan_repeat scan_hex malloc patch
patch-IsPatch = record {
  offset = refl;
  reads = refl;
  short = omega arith;
  memory = refl;
  fits = omega arith;
  value = record {
    pairs = (
      record { first = ground arith; second = ground arith; byte = omega arith; reads = refl },
      (
        record { first = ground arith; second = ground arith; byte = omega arith; reads = refl },
        tt,
      ),
    );
    some_pairs = omega arith;
    once = omega arith;
    small = omega arith;
    prefix =
        braces (40 ∷ 51 ∷ []) (97 ∷ 48 ∷ 48 ∷ 99 ∷ 0 ∷ []) 3
          (
            record { symbol = ground arith; no_brace = ground arith },
            (record { symbol = ground arith; no_brace = ground arith }, tt),
          )
          refl;
  };
}

main-apply_example :
    main scan_word scan_repeat scan_hex malloc
      (λ at w. some (seek at w))
      write
      (λ fname w. some w)
      (codes "image" ∷ arguments (patch ∷ []))
      (0, [])
    ≡ ends (apply seek write (patch ∷ []) (0, []))
main-apply_example =
    main-apply scan_word scan_repeat scan_hex malloc seek write (λ at w. some (seek at w))
      (λ fname w. some w) (codes "image") (codes "image") (patch ∷ []) (0, []) (0, []) refl
      (omega arith) refl (λ at w. refl) (omega arith) (patch-IsPatch, tt)

-- A value of one byte, in a block of one byte, is written behind the block.
writes_behind : pairs_loop scan_hex 1 1 0 0 (97 ∷ 48 ∷ 0 ∷ []) (λ a. 7) ≡ beyond
unfolding pairs_loop text_in
writes_behind = refl
