-- ===== src/Patcher/Pairs.antt =====
-- The loop of parse_patch_string (gluKe/build_utils/patcher.c) over the pairs of a string.
use mathlib.Core.List.{append_assoc}
use glu_ke.Base.{
  ℕ, zero, suc, ◌+◌, ◌^◌, ◌≤◌, ◌<◌, ◌≡◌, ◌≢◌, refl, ap, sym, ◌∙◌, Option, some, ltb, false, List,
  [], ◌∷◌, ◌++◌, arith, length, get_or, set, drop, All, length-append,
}
use glu_ke.Work.{text_in}
use glu_ke.Patcher.{Heap, write_int, bytes, pairs_loop, went}

-- Two symbols and the byte that they are.
pub record Pair : Type 0 where
  pub first : ℕ
  pub second : ℕ
  pub value : ℕ

-- The string of the pairs.
abbrev pub symbols : List Pair → List ℕ
symbols [] = []
symbols (p ∷ ps) = p.first ∷ p.second ∷ symbols ps

abbrev pub values : List Pair → List ℕ
values [] = []
values (p ∷ ps) = p.value ∷ values ps

-- What sscanf reads from the pair alone.
pub record IsPair (scan_hex : List ℕ → Option ℕ) (p : Pair) : Type 0 where
  pub first : p.first ≢ 0
  pub second : p.second ≢ 0
  pub byte : p.value < 2 ^ 8
  pub reads : scan_hex (p.first ∷ p.second ∷ []) ≡ some p.value

set-restore : (s : List ℕ) (i v : ℕ) → set (set s i v) i (get_or s i 0) ≡ s
set-restore [] i v = refl
set-restore (x ∷ s) zero v = refl
set-restore (x ∷ s) (suc i) v = ap (λ l. x ∷ l) (set-restore s i v)

-- With a NUL behind it, the pair is all that is read.
pair_text :
    (xs : List ℕ) (a b : ℕ) (rest : List ℕ) (j : ℕ)
    → a ≢ 0
    → b ≢ 0
    → j ≡ suc (suc (length xs))
    → text_in (drop (length xs) (set (xs ++ (a ∷ b ∷ rest)) j 0)) ≡ a ∷ b ∷ []
unfolding text_in
pair_text [] a b [] j ha hb zero_j = rw zero_j (ground arith)
pair_text [] a b (c ∷ rest) j ha hb e = rw e (ground arith)
pair_text (x ∷ xs) a b rest zero ha hb e = absurd (omega arith)
pair_text (x ∷ xs) a b rest (suc j) ha hb e = pair_text xs a b rest j ha hb (omega arith)

bytes-same :
    (m m' : Heap) (at n : ℕ)
    → ((a : ℕ) → at ≤ a → a < at + n → m' a ≡ m a)
    → bytes m' at n ≡ bytes m at n
unfolding bytes
bytes-same m m' at zero h = refl
bytes-same m m' at (suc n) h =
    let one = h at (omega arith) (omega arith) in
    let rest = bytes-same m m' (at + 1) n (λ a l u. h a (omega arith) (omega arith)) in
    rw (one, rest) refl

pub bytes-append : (m : Heap) (at n k : ℕ) → bytes m at (n + k) ≡ bytes m at n ++ bytes m (at + n) k
unfolding bytes
bytes-append m at zero k =
    let a : zero + k ≡ k = omega arith in let b : at + zero ≡ at = omega arith in rw (a, b) refl
bytes-append m at (suc n) k =
    let a : suc n + k ≡ suc (n + k) = omega arith in
    let b : at + suc n ≡ (at + 1) + n = omega arith in
    rw (a, b) (ap (λ l. m at ∷ l) (bytes-append m (at + 1) n k))

-- What the writes from `at` on leave: the bytes of `vs`, all before them, and all but three behind.
pub record Wrote (m : Heap) (at : ℕ) (vs : List ℕ) (m' : Heap) : Type 0 where
  pub written : bytes m' at (length vs) ≡ vs
  pub before : (a : ℕ) → a < at → m' a ≡ m a
  pub behind : (a : ℕ) → at + length vs + 3 ≤ a → m' a ≡ m a

pub Wrote-nil : (m : Heap) (at : ℕ) → Wrote m at [] m
unfolding bytes
Wrote-nil m at = record { written = refl; before = λ a h. refl; behind = λ a h. refl }

-- Later writes leave the earlier bytes, and make up for the zeros behind them.
pub Wrote-append :
    (m m' m'' : Heap) (at : ℕ) (vs ws : List ℕ)
    → Wrote m at vs m'
    → Wrote m' (at + length vs) ws m''
    → Wrote m at (vs ++ ws) m''
Wrote-append m m' m'' at vs ws w w' =
    let l = length-append vs ws in
    record {
      written =
          ap (λ (n : ℕ). bytes m'' at n) l
          ∙ bytes-append m'' at (length vs) (length ws)
          ∙ rw (bytes-same m' m'' at (length vs) (λ a lo hi. w'.before a hi), w.written, w'.written)
              refl;
      before = λ a h. w'.before a (omega arith) ∙ w.before a h;
      behind = λ a h. w'.behind a (omega (arith, l)) ∙ w.behind a (omega (arith, l));
    }

write_int-Wrote : (m : Heap) (at v : ℕ) → v < 2 ^ 8 → Wrote m at (v ∷ []) (write_int m at v)
unfolding write_int bytes
write_int-Wrote m at v h = record {
  written = let e : write_int m at v at ≡ v = ground arith in rw e refl;
  before = λ a lo. ground arith;
  behind = λ a lo. ground arith;
}

module _ (scan_hex : List ℕ → Option ℕ) (room : ℕ) where
  pub pairs_loop-Wrote :
      (ps : List Pair) (xs rest s : List ℕ) (i at : ℕ) (m : Heap)
      → All (IsPair scan_hex) ps
      → s ≡ xs ++ (symbols ps ++ rest)
      → i ≡ length xs
      → at + length ps + 3 ≤ room
      → (m' : Heap) × (pairs_loop scan_hex room (length ps) i at s m ≡ went (at + length ps) s m')
        × Wrote m at (values ps) m'
  unfolding pairs_loop
  pairs_loop-Wrote [] xs rest s i at m h e l fits =
      let z : at + 0 ≡ at = omega arith in (m, rw z refl, Wrote-nil m at)
  pairs_loop-Wrote (p ∷ ps) xs rest s i at m h e l fits =
      let a = p.first in
      let b = p.second in
      let two = xs ++ (a ∷ b ∷ []) in
      let text : text_in (drop i (set s (i + 2) 0)) ≡ a ∷ b ∷ [] =
        rw (e, l) (pair_text xs a b (symbols ps ++ rest) _ h.0.first h.0.second (omega arith)) in
      let more =
        pairs_loop-Wrote ps two rest s (i + 2) (at + 1) (write_int m at p.value) h.1
          (e ∙ sym (append_assoc xs (a ∷ b ∷ []) (symbols ps ++ rest)))
          (omega (arith, length-append xs (a ∷ b ∷ []))) (omega (arith, fits)) in
      let inside : ltb room (at + 4) ≡ false = ground (arith, fits) in
      let count : at + suc (length ps) ≡ at + 1 + length ps = omega arith in
      (
        more.0,
        rw (pairs_loop, text, h.0.reads, set-restore s (i + 2) 0, inside, count) more.1,
        Wrote-append m _ more.0 at (p.value ∷ []) (values ps)
            (write_int-Wrote m at p.value h.0.byte) more.2,
      )
