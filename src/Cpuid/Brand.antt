-- ===== src/Cpuid/Brand.antt =====
-- The brand string of mylib/cpuid.c: what the buffer holds.
use glu_ke.Base.{
  ℕ, suc, ◌+◌, ◌*◌, ◌/◌, ◌%◌, ◌^◌, ◌≤◌, ◌<◌, ◌≡◌, refl, ap, sym, ◌∙◌, false, Option, some, List, [],
  ◌∷◌, ◌++◌, ltb, arith, length, set, take, length-set, take-set_self,
}
use mathlib.Core.List.{append_assoc}
use glu_ke.Base.Int.{ok_code}
use glu_ke.Cpuid.{
  FourRegs, pentium4, family_of, cpuid, word_bytes, put_word, put_regs, ia32_family, brand_loop,
  cpuid_brand_string, number_of,
}

-- The bytes of the four words in memory.
unfoldable pub regs_bytes : FourRegs → List ℕ
unfolding word_bytes
regs_bytes r = word_bytes r.eax ++ (word_bytes r.ebx ++ (word_bytes r.ecx ++ word_bytes r.edx))

length-put_word : (k w : ℕ) (s : List ℕ) → length (put_word k w s) ≡ length s
unfolding put_word
length-put_word k w s = omega (arith, length-set {0} {A = ℕ})

-- One byte more of a buffer that is filled from its start.
take-set_next :
    (m n : ℕ) (s : List ℕ) (v : ℕ)
    → m ≡ n + 1
    → n < length s
    → take m (set s n v) ≡ take n s ++ (v ∷ [])
take-set_next m n s v e h = let e' : m ≡ suc n = omega arith in rw e' (take-set_self s n v h)

take-put_word :
    (k w : ℕ) (s : List ℕ)
    → k * 4 + 4 ≤ length s
    → take (k * 4 + 4) (put_word k w s) ≡ take (k * 4) s ++ word_bytes w
unfolding put_word word_bytes
take-put_word k w s h =
    let s0 = set s (k * 4) (w % 256) in
    let s1 = set s0 (k * 4 + 1) (w / 2 ^ 8 % 256) in
    let s2 = set s1 (k * 4 + 2) (w / 2 ^ 16 % 256) in
    let l0 = length-set s (k * 4) (w % 256) in
    let l1 = length-set s0 (k * 4 + 1) (w / 2 ^ 8 % 256) in
    let l2 = length-set s1 (k * 4 + 2) (w / 2 ^ 16 % 256) in
    let a = take-set_next (k * 4 + 1) (k * 4) s (w % 256) (omega arith) (omega arith) in
    let b =
      take-set_next (k * 4 + 2) (k * 4 + 1) s0 (w / 2 ^ 8 % 256) (omega arith) (omega arith) in
    let c =
      take-set_next (k * 4 + 3) (k * 4 + 2) s1 (w / 2 ^ 16 % 256) (omega arith) (omega arith) in
    let d =
      take-set_next (k * 4 + 4) (k * 4 + 3) s2 (w / 2 ^ 24 % 256) (omega arith) (omega arith) in
    rw (d, c, b, a) (simp append_assoc)

length-put_regs : (i : ℕ) (r : FourRegs) (s : List ℕ) → length (put_regs i r s) ≡ length s
unfolding put_regs
length-put_regs i r s = omega (arith, length-put_word)

take-put_regs :
    (i : ℕ) (r : FourRegs) (s : List ℕ)
    → i * 16 + 16 ≤ length s
    → take (i * 16 + 16) (put_regs i r s) ≡ take (i * 16) s ++ regs_bytes r
unfolding put_regs regs_bytes
take-put_regs i r s h =
    let s0 = put_word (i * 4) r.eax s in
    let s1 = put_word (i * 4 + 1) r.ebx s0 in
    let s2 = put_word (i * 4 + 2) r.ecx s1 in
    let l0 = length-put_word (i * 4) r.eax s in
    let l1 = length-put_word (i * 4 + 1) r.ebx s0 in
    let l2 = length-put_word (i * 4 + 2) r.ecx s1 in
    let a = take-put_word (i * 4) r.eax s (omega arith) in
    let b = take-put_word (i * 4 + 1) r.ebx s0 (omega arith) in
    let c = take-put_word (i * 4 + 2) r.ecx s1 (omega arith) in
    let d = take-put_word (i * 4 + 3) r.edx s2 (omega arith) in
    let at0 : i * 16 ≡ i * 4 * 4 = omega arith in
    let at1 : (i * 4 + 1) * 4 ≡ i * 4 * 4 + 4 = omega arith in
    let at2 : (i * 4 + 2) * 4 ≡ (i * 4 + 1) * 4 + 4 = omega arith in
    let at3 : (i * 4 + 3) * 4 ≡ (i * 4 + 2) * 4 + 4 = omega arith in
    let at4 : i * 16 + 16 ≡ (i * 4 + 3) * 4 + 4 = omega arith in
    rw (at4, d, at3, c, at2, b, at1, a, at0) (simp append_assoc)

take-all : (s : List ℕ) → take (length s) s ≡ s
take-all [] = refl
take-all (c ∷ s) = ap (λ l. c ∷ l) (take-all s)

module _ {P : Type 0} (cpuid_s : ℕ → P → Option (ℕ × ℕ × ℕ × ℕ) × P) (answers : ℕ → FourRegs)
    (steady : (n : ℕ) (q : P) → (cpuid cpuid_s n q).0 ≡ some (answers n)) where
  -- What three rounds leave in a buffer of 48 bytes.
  pub brand_bytes : List ℕ
  brand_bytes =
      regs_bytes (answers 0x80000002)
      ++ (regs_bytes (answers 0x80000003) ++ regs_bytes (answers 0x80000004))

  three_rounds : List ℕ → List ℕ
  three_rounds s =
      put_regs 2 (answers 0x80000004)
        (put_regs 1 (answers 0x80000003) (put_regs 0 (answers 0x80000002) s))

  three_rounds-bytes : (s : List ℕ) → length s ≡ 48 → three_rounds s ≡ brand_bytes
  unfolding three_rounds brand_bytes
  three_rounds-bytes s h =
      let s0 = put_regs 0 (answers 0x80000002) s in
      let s1 = put_regs 1 (answers 0x80000003) s0 in
      let s2 = put_regs 2 (answers 0x80000004) s1 in
      let l0 = length-put_regs 0 (answers 0x80000002) s in
      let l1 = length-put_regs 1 (answers 0x80000003) s0 in
      let l2 = length-put_regs 2 (answers 0x80000004) s1 in
      let a = take-put_regs 0 (answers 0x80000002) s (omega arith) in
      let b = take-put_regs 1 (answers 0x80000003) s0 (omega arith) in
      let c = take-put_regs 2 (answers 0x80000004) s1 (omega arith) in
      let full : length s2 ≡ 48 = omega arith in
      let whole : take 48 s2 ≡ s2 = rw full at (take-all s2) in
      sym whole ∙ rw (c, b, a) (simp append_assoc)

  brand_loop-bytes :
      (s : List ℕ) (p : P)
      → ((brand_loop cpuid_s 3 0 s p).0 ≡ ok_code)
        × ((brand_loop cpuid_s 3 0 s p).1 ≡ set (three_rounds s) 47 0)
  unfolding brand_loop three_rounds
  brand_loop-bytes s p =
      let p0 = (cpuid cpuid_s 0x80000002 p).1 in
      let p1 = (cpuid cpuid_s 0x80000003 p0).1 in
      (
        rw (brand_loop, steady 0x80000002 p, steady 0x80000003 p0, steady 0x80000004 p1) refl,
        rw (brand_loop, steady 0x80000002 p, steady 0x80000003 p0, steady 0x80000004 p1) refl,
      )

  -- On a Pentium 4 that has the three questions and answers a question always alike, the buffer
  -- of 48 bytes gets the bytes of the twelve registers in their order, the last one 0.
  pub cpuid_brand_string-bytes :
      (s : List ℕ) (p : P)
      → length s ≡ 48
      → family_of (answers 1) ≡ pentium4
      → 0x80000004 ≤ (answers 0x80000000).eax
      → ((cpuid_brand_string cpuid_s s p).0 ≡ ok_code)
        × ((cpuid_brand_string cpuid_s s p).1 ≡ set brand_bytes 47 0)
  unfolding cpuid_brand_string ia32_family number_of
  cpuid_brand_string-bytes s p len family has =
      let p0 = (cpuid cpuid_s 1 p).1 in
      let p1 = (cpuid cpuid_s 0x80000000 p0).1 in
      let b = brand_loop-bytes s p1 in
      let enough : ltb (answers 0x80000000).eax 0x80000004 ≡ false = ground arith in
      let whole = three_rounds-bytes s len in
      (
        rw (cpuid_brand_string, steady 1 p, family, steady 0x80000000 p0, enough) b.0,
        rw (cpuid_brand_string, steady 1 p, family, steady 0x80000000 p0, enough, ← whole) b.1,
      )
