-- ===== src/Patcher/Bytes.antt =====
-- The bytes that parse_patch_string (gluKe/build_utils/patcher.c) writes behind the repetition.
use glu_ke.Base.{
  ℕ, zero, suc, ◌+◌, ◌*◌, ◌/◌, ◌%◌, ◌^◌, ◌≤◌, ◌<◌, ◌≡◌, refl, ap, Option, some, List, [], ◌∷◌, ◌++◌,
  arith, false, ◌==◌, length, All, length-append,
}
use glu_ke.Work.{text_in}
use glu_ke.Patcher.{Heap, parsed, went, repeat_loop, parse_bytes}
use glu_ke.Patcher.Pairs.{
  Pair, IsPair, symbols, values, Wrote, Wrote-append, Wrote-nil, pairs_loop-Wrote,
}

-- A list some times.
unfoldable pub copies : ℕ → List ℕ → List ℕ
copies zero vs = []
copies (suc n) vs = vs ++ copies n vs

pub length-copies : (n : ℕ) (vs : List ℕ) → length (copies n vs) ≡ n * length vs
unfolding copies
length-copies zero vs = omega arith
length-copies (suc n) vs = omega (arith, length-append vs (copies n vs), length-copies n vs)

pub length-values : (ps : List Pair) → length (values ps) ≡ length ps
length-values [] = refl
length-values (p ∷ ps) = ap suc (length-values ps)

length-symbols : (ps : List Pair) → length (symbols ps) ≡ 2 * length ps
length-symbols [] = omega arith
length-symbols (p ∷ ps) = omega (arith, length-symbols ps)

module _ (scan_hex : List ℕ → Option ℕ) where
  -- The pairs end at the NUL.
  text_in-symbols :
      (ps : List Pair) (rest : List ℕ)
      → All (IsPair scan_hex) ps
      → text_in (symbols ps ++ (0 ∷ rest)) ≡ symbols ps
  unfolding text_in
  text_in-symbols [] rest h = refl
  text_in-symbols (p ∷ ps) rest h =
      let a : (p.first == 0) ≡ false = let ne = h.0.first in ground arith in
      let b : (p.second == 0) ≡ false = let ne = h.0.second in ground arith in
      rw (a, b, text_in-symbols ps rest h.1) refl

  repeat_loop-Wrote :
      (room r : ℕ) (ps : List Pair) (rest s : List ℕ) (at : ℕ) (m : Heap)
      → All (IsPair scan_hex) ps
      → s ≡ symbols ps ++ rest
      → at + r * length ps + 3 ≤ room
      → (m' : Heap) × (byte_count : ℕ) × (repeat_loop scan_hex room r (length ps) at s m
          ≡ went byte_count s m')
        × Wrote m at (copies r (values ps)) m'
  unfolding repeat_loop copies
  repeat_loop-Wrote room zero ps rest s at m h e fits = (m, at, refl, Wrote-nil m at)
  repeat_loop-Wrote room (suc r) ps rest s at m h e fits =
      let one = pairs_loop-Wrote scan_hex room ps [] rest s 0 at m h e refl (omega (arith, fits)) in
      let n : at + length ps ≡ at + length (values ps) = omega (arith, length-values ps) in
      let more =
        repeat_loop-Wrote room r ps rest s (at + length (values ps)) one.0 h e
          (omega (arith, fits, n)) in
      (
        more.0,
        more.1,
        rw (repeat_loop, one.1, n) more.2,
        Wrote-append m one.0 more.0 at (values ps) (copies r (values ps)) one.2 more.3,
      )

  module _ (malloc : ℕ → Option (ℕ × Heap)) where
    pub parse_bytes-Wrote :
        (repeat : ℕ) (ps : List Pair) (rest : List ℕ) (room : ℕ) (m : Heap)
        → All (IsPair scan_hex) ps
        → 1 ≤ length ps
        → 1 ≤ repeat
        → repeat * (2 * length ps) < 2 ^ 32
        → malloc (repeat * length ps) ≡ some (room, m)
        → repeat * length ps + 3 ≤ room
        → (m' : Heap) × (parse_bytes scan_hex malloc repeat (symbols ps ++ (0 ∷ rest))
            ≡ parsed m' (repeat * length ps))
          × Wrote m 0 (copies repeat (values ps)) m'
    unfolding parse_bytes
    parse_bytes-Wrote repeat ps rest room m h some_pairs once small got fits =
        let s = symbols ps ++ (0 ∷ rest) in
        let loop = repeat_loop-Wrote room repeat ps (0 ∷ rest) s 0 m h refl (omega (arith, fits)) in
        let even : 2 * length ps % 2 ≡ 0 = omega arith in
        let half : 2 * length ps / 2 ≡ length ps = omega arith in
        let not_empty : (2 * length ps == 0) ≡ false = ground arith in
        let not_never : (repeat == 0) ≡ false = ground arith in
        let size : repeat * (2 * length ps) % 2 ^ 32 / 2 ≡ repeat * length ps = omega arith in
        (
          loop.0,
          rw
              (
                parse_bytes,
                text_in-symbols ps rest h,
                length-symbols ps,
                size,
                even,
                not_empty,
                not_never,
                got,
                text_in-symbols ps rest h,
                length-symbols ps,
                half,
                loop.2,
                text_in-symbols ps rest h,
                length-symbols ps,
                size,
              )
              refl,
          loop.3,
        )
