-- ===== src/Patcher/Patched.antt =====
-- What parse_patch_string and main (gluKe/build_utils/patcher.c) write for arguments that are right.
use glu_ke.Base.{
  ℕ, zero, suc, ◌+◌, ◌*◌, ◌^◌, ◌≤◌, ◌<◌, ◌≡◌, ◌≢◌, refl, ap, sym, ◌∙◌, Option, none, some, List, [],
  ◌∷◌, ◌++◌, arith, false, ltb, leb, ◌==◌, length, drop, All,
}
use glu_ke.Base.Find.{find_index}
use glu_ke.Work.{text_in}
use glu_ke.Patcher.{
  Heap, parsed, bytes, parse_bytes, behind_brace, parse_patch_string, ends, patch_args, main,
  fname_size, patch_string_size,
}
use glu_ke.Patcher.Pairs.{Pair, IsPair, symbols, values, Wrote}
use glu_ke.Patcher.Bytes.{copies, length-copies, length-values, parse_bytes-Wrote}

-- A symbol in front of the closing brace.
pub record IsInside (c : ℕ) : Type 0 where
  pub symbol : c ≢ 0
  pub no_brace : c ≢ 41

find_brace :
    (ds rest : List ℕ)
    → All IsInside ds
    → find_index (λ c. c == 41) (text_in (ds ++ (41 ∷ rest))) ≡ some (length ds)
unfolding find_index text_in
find_brace [] rest h = refl
find_brace (d ∷ ds) rest h =
    let a : (d == 0) ≡ false = let ne = h.0.symbol in ground arith in
    let b : (d == 41) ≡ false = let ne = h.0.no_brace in ground arith in
    rw (a, b, find_brace ds rest h.1) refl

drop-behind : (ds rest : List ℕ) (n : ℕ) → n ≡ suc (length ds) → drop n (ds ++ (41 ∷ rest)) ≡ rest
drop-behind [] rest n e = rw e refl
drop-behind (d ∷ ds) rest zero e = absurd (omega arith)
drop-behind (d ∷ ds) rest (suc n) e = drop-behind ds rest n (omega arith)

behind_brace-braces : (ds s : List ℕ) → All IsInside ds → behind_brace (ds ++ (41 ∷ s)) ≡ s
unfolding behind_brace
behind_brace-braces ds s h =
    rw (behind_brace, find_brace ds s h) (drop-behind ds s (length ds + 1) (omega arith))

module _ (scan_repeat scan_hex : List ℕ → Option ℕ) where
  -- What sscanf reads in front of the pairs: nothing, or a number that a brace ends.
  pub data Prefixed : List ℕ → ℕ → List ℕ → Type 0 where
    plain : (s : List ℕ) → scan_repeat s ≡ none → Prefixed s 1 s
    braces :
        (ds s : List ℕ) (repeat : ℕ)
        → All IsInside ds
        → scan_repeat (ds ++ (41 ∷ s)) ≡ some repeat
        → Prefixed (ds ++ (41 ∷ s)) repeat s

  -- A value that is right: pairs of symbols, repeated at least once, in less than 2 ^ 31 bytes.
  pub record IsValue (s : List ℕ) (repeat : ℕ) (ps : List Pair) : Type 0 where
    pub pairs : All (IsPair scan_hex) ps
    pub some_pairs : 1 ≤ length ps
    pub once : 1 ≤ repeat
    pub small : repeat * (2 * length ps) < 2 ^ 32
    pub prefix : Prefixed s repeat (symbols ps ++ (0 ∷ []))

  module _ (malloc : ℕ → Option (ℕ × Heap)) where
    prefix-parse :
        (s body : List ℕ) (repeat : ℕ)
        → Prefixed s repeat body
        → parse_patch_string scan_repeat scan_hex malloc s ≡ parse_bytes scan_hex malloc repeat body
    unfolding parse_patch_string
    prefix-parse _ _ _ (plain s e) = rw (parse_patch_string, e) refl
    prefix-parse _ _ _ (braces ds s repeat h e) =
        rw (parse_patch_string, e)
          (ap (parse_bytes scan_hex malloc repeat) (behind_brace-braces ds s h))

    -- For a value that is right and with a block that has three bytes more than asked for,
    -- parse_patch_string returns a block of the bytes of the pairs, as often as the number in braces
    -- says, and their count; it writes at most three bytes behind them.
    pub parse_patch_string-Wrote :
        (s : List ℕ) (repeat : ℕ) (ps : List Pair) (room : ℕ) (m : Heap)
        → IsValue s repeat ps
        → malloc (repeat * length ps) ≡ some (room, m)
        → repeat * length ps + 3 ≤ room
        → (m' : Heap) × (parse_patch_string scan_repeat scan_hex malloc s
            ≡ parsed m' (repeat * length ps))
          × Wrote m 0 (copies repeat (values ps)) m'
    parse_patch_string-Wrote s repeat ps room m v got fits =
        let r =
          parse_bytes-Wrote scan_hex malloc repeat ps [] room m v.pairs v.some_pairs v.once v.small
            got fits in
        (r.0, prefix-parse s _ repeat v.prefix ∙ r.1, r.2)

-- Two arguments: bytes at an offset. `word` is what is read of the second one, `room` and `heap` the
-- block for it.
pub record Patch : Type 0 where
  pub offset : List ℕ
  pub string : List ℕ
  pub at : ℕ
  pub word : List ℕ
  pub repeat : ℕ
  pub pairs : List Pair
  pub room : ℕ
  pub heap : Heap

abbrev pub arguments : List Patch → List (List ℕ)
arguments [] = []
arguments (p ∷ ps) = p.offset ∷ p.string ∷ arguments ps

-- The patches one by one.
unfoldable pub apply : {W : Type 0} → (ℕ → W → W) → (List ℕ → W → W) → List Patch → W → W
apply seek write [] w = w
apply seek write (p ∷ ps) w =
    apply seek write ps (write (copies p.repeat (values p.pairs)) (seek p.at w))

module _ (scan_word : List ℕ → Option (List ℕ)) (scan_repeat scan_hex : List ℕ → Option ℕ)
    (malloc : ℕ → Option (ℕ × Heap)) where
  -- Arguments that are right: an offset, and a value that fits its buffer, with a block that has the
  -- three bytes behind the last one that the conversion writes too.
  pub record IsPatch (p : Patch) : Type 0 where
    pub offset : scan_hex p.offset ≡ some p.at
    pub reads : scan_word p.string ≡ some p.word
    pub short : length p.word < patch_string_size
    pub value : IsValue scan_repeat scan_hex (p.word ++ (0 ∷ [])) p.repeat p.pairs
    pub memory : malloc (p.repeat * length p.pairs) ≡ some (p.room, p.heap)
    pub fits : p.repeat * length p.pairs + 3 ≤ p.room

  module _ {W : Type 0} (seek : ℕ → W → W) (write : List ℕ → W → W) where
    patch_args-apply :
        (lseek : ℕ → W → Option W) (ps : List Patch) (w : W)
        → ((at : ℕ) (v : W) → lseek at v ≡ some (seek at v))
        → All IsPatch ps
        → patch_args scan_word scan_repeat scan_hex malloc lseek write (arguments ps) w
          ≡ ends (apply seek write ps w)
    unfolding patch_args apply
    patch_args-apply lseek [] w seeks h = refl
    patch_args-apply lseek (p ∷ ps) w seeks h =
        let r =
          parse_patch_string-Wrote scan_repeat scan_hex malloc (p.word ++ (0 ∷ [])) p.repeat p.pairs
            p.room p.heap h.0.value h.0.memory h.0.fits in
        let count : p.repeat * length p.pairs ≡ length (copies p.repeat (values p.pairs)) = sym (
          length-copies p.repeat (values p.pairs)
          ∙ ap (λ (n : ℕ). p.repeat * n) (length-values p.pairs)) in
        let written : bytes r.0 0 (p.repeat * length p.pairs) ≡ copies p.repeat (values p.pairs) =
          ap (λ (n : ℕ). bytes r.0 0 n) count ∙ r.2.written in
        let short : leb patch_string_size (length p.word) ≡ false = ground (arith, h.0.short) in
        rw (patch_args, h.0.offset, h.0.reads, short, r.1, seeks p.at w, written)
          (patch_args-apply lseek ps _ seeks h.1)

    -- On a file whose name has less than 300 symbols and that can be opened and positioned, and for
    -- arguments that are right, at least two, each value of less than 1000 symbols and with memory for
    -- three bytes more than its own, the program ends without a write behind a buffer or a block, and
    -- has written the bytes of each value, repeated, at its offset, in the order of the arguments.
    pub main-apply :
        (lseek : ℕ → W → Option W) (open_file : List ℕ → W → Option W) (name fname : List ℕ)
        (ps : List Patch) (w w' : W)
        → scan_word name ≡ some fname
        → length fname < fname_size
        → open_file fname w ≡ some w'
        → ((at : ℕ) (v : W) → lseek at v ≡ some (seek at v))
        → 1 ≤ length ps
        → All IsPatch ps
        → main scan_word scan_repeat scan_hex malloc lseek write open_file (name ∷ arguments ps) w
          ≡ ends (apply seek write ps w')
    unfolding main
    main-apply lseek open_file name fname [] w w' named short opens seeks more h =
        absurd (omega arith)
    main-apply lseek open_file name fname (p ∷ ps) w w' named short opens seeks more h =
        let enough : ltb (length (arguments (p ∷ ps))) 2 ≡ false = ground arith in
        let fits : leb fname_size (length fname) ≡ false = ground (arith, short) in
        rw (main, enough, named, fits, opens) (patch_args-apply lseek (p ∷ ps) w' seeks h)
