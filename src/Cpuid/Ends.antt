-- ===== src/Cpuid/Ends.antt =====
-- The loop over the caches of mylib/cpuid_print.c: it ends, and what it prints for a processor that
-- always answers with the same number of rounds.
use glu_ke.Base.{
  ℕ, zero, suc, ◌+◌, ◌≤◌, ◌<◌, ◌≡◌, ◌≢◌, refl, inl, inr, true, false, Option, none, some, List, [],
  ◌∷◌, ◌++◌, leb, ltb, ◌==◌, if◌then◌else◌, All, arith, Bool-cases, Option-cases, length,
}
use mathlib.Core.List.{append-nil, append_assoc}
use glu_ke.Cpuid.{FourRegs, Family, field, family_of, cpuid}
use glu_ke.Cpuid.Lines.{Out, says_number, put_vendor, byte_lines, descriptor_bytes}
use glu_ke.Cpuid.Report.{breaks, fails, cache_loop, cache_report, cpuid_print}

module _ {P : Type 0} (cpuid_s : ℕ → P → Option (ℕ × ℕ × ℕ × ℕ) × P) where
  -- The number of rounds is a byte of an answer.
  cache_loop-ends :
      (fuel iter : ℕ) (p : P)
      → iter < 256
      → 256 ≤ iter + fuel
      → cache_loop cpuid_s fuel iter p ≢ none
  unfolding cache_loop
  cache_loop-ends zero iter p lt h = absurd (omega arith)
  cache_loop-ends (suc fuel) iter p lt h = elim (Option-cases (cpuid cpuid_s 2 p).0) [
    | inl e ↦ rw (e, cache_loop) (λ z. cc)
    | inr (regs, e) ↦ elim (Bool-cases (leb (field regs.eax 0 8) iter)) [
      | inl last ↦ rw (e, cache_loop, last) (λ z. cc)
      | inr more ↦ elim (Option-cases (cache_loop cpuid_s fuel (iter + 1) (cpuid cpuid_s 2 p).1)) [
        | inl out ↦
            absurd (
              cache_loop-ends fuel (iter + 1) (cpuid cpuid_s 2 p).1 (ground arith) (omega arith)
                out)
        | inr (rest, found) ↦ rw (e, cache_loop, more, found) (λ z. cc)
      ]
    ]
  ]

  -- What the loop has printed does not matter.
  cache_report-ends :
      (max_query : ℕ) (family : Family) (s : List ℕ) (p : P)
      → cache_report cpuid_s max_query family s p ≢ none
  unfolding cache_report
  cache_report-ends max_query family s p = elim (Bool-cases (ltb max_query 2)) [
    | inl few ↦ rw few (λ z. cc)
    | inr many ↦ elim (Option-cases (cache_loop cpuid_s 256 0 p)) [
      | inl out ↦ absurd (cache_loop-ends 256 0 p (omega arith) (omega arith) out)
      | inr (breaks os p', found) ↦ rw (many, cache_report, found) (λ z. cc)
      | inr (fails os p', found) ↦ rw (many, cache_report, found) (λ z. cc)
    ]
  ]

  -- Whatever the processor answers, the report comes to its end.
  pub cpuid_print-ends : (stack : List ℕ) (p : P) → cpuid_print cpuid_s stack p ≢ none
  unfolding cpuid_print
  cpuid_print-ends stack p = elim (Option-cases (cpuid cpuid_s 0 p).0) [
    | inl e ↦ rw (e, cpuid_print) (λ z. cc)
    | inr (first, e) ↦ elim (Option-cases (cpuid cpuid_s 1 (cpuid cpuid_s 0 p).1).0) [
      | inl e' ↦ rw (e, e', cpuid_print) (λ z. cc)
      | inr (regs, e') ↦
          let p' = (cpuid cpuid_s 1 (cpuid cpuid_s 0 p).1).1 in
          let s = put_vendor first stack in
          elim (Option-cases (cache_report cpuid_s first.eax (family_of regs) s p')) [
            | inl out ↦ absurd (cache_report-ends first.eax (family_of regs) s p' out)
            | inr ((os, p''), found) ↦ rw (e, e', cpuid_print, found) (λ z. cc)
          ]
    ]
  ]

-- The answers of the processor to the question about its caches, one after another.
pub data Answers {P : Type 0} (cpuid_s : ℕ → P → Option (ℕ × ℕ × ℕ × ℕ) × P)
    : P → List FourRegs → P → Type 0 where
  last : {p : P} → Answers cpuid_s p [] p
  asked :
      {p q : P} {regs : FourRegs} {rest : List FourRegs}
      → (cpuid cpuid_s 2 p).0 ≡ some regs
      → Answers cpuid_s (cpuid cpuid_s 2 p).1 rest q
      → Answers cpuid_s p (regs ∷ rest) q

-- The lines of some answers.
abbrev pub lines_of : List FourRegs → List Out
lines_of [] = []
lines_of (regs ∷ rest) = byte_lines (descriptor_bytes regs) ++ lines_of rest

-- The line in front of the first round.
abbrev pub head_line : ℕ → ℕ → List Out
head_line count iter =
    if iter == 0 then says_number "number of cache and tlb info queries: %u\n" count ∷ [] else []

abbrev pub HasCount : ℕ → FourRegs → Type 0
HasCount count regs = field regs.eax 0 8 ≡ count

module _ {P : Type 0} (cpuid_s : ℕ → P → Option (ℕ × ℕ × ℕ × ℕ) × P) where
  cache_loop-head_line :
      (count fuel iter : ℕ) (rest : List FourRegs) (end : FourRegs) {p q : P}
      → Answers cpuid_s p rest q
      → (cpuid cpuid_s 2 q).0 ≡ some end
      → All (HasCount count) rest
      → HasCount count end
      → iter + length rest ≡ count
      → length rest < fuel
      → cache_loop cpuid_s fuel iter p
        ≡ some (breaks (head_line count iter ++ lines_of rest) (cpuid cpuid_s 2 q).1)
  unfolding cache_loop
  cache_loop-head_line count zero iter rest end answers e h he len f = absurd (omega arith)
  cache_loop-head_line count (suc fuel) iter [] end last e h he len f =
      let done : leb (field end.eax 0 8) iter ≡ true = ground arith in
      rw (e, cache_loop, done, he, append-nil) refl
  cache_loop-head_line count (suc fuel) iter (regs ∷ rest) end (asked a answers) e h he len f =
      let more : leb (field regs.eax 0 8) iter ≡ false = ground arith in
      let ih =
        cache_loop-head_line count fuel (iter + 1) rest end answers e h.1 he (omega arith)
          (omega arith) in
      let z : (iter + 1 == 0) ≡ false = ground arith in
      rw (a, cache_loop, more, ih, z, h.0) (simp append_assoc)

  -- If the processor has answered with one and the same number of rounds, that many times and once
  -- more, then the report has the number and the lines of all these answers but the last.
  pub cache_loop-lines :
      (rest : List FourRegs) (end : FourRegs) {p q : P}
      → Answers cpuid_s p rest q
      → (cpuid cpuid_s 2 q).0 ≡ some end
      → All (HasCount (length rest)) rest
      → HasCount (length rest) end
      → cache_loop cpuid_s 256 0 p
        ≡ some (
            breaks
              (says_number "number of cache and tlb info queries: %u\n" (length rest)
                ∷ lines_of rest)
              (cpuid cpuid_s 2 q).1)
  cache_loop-lines rest end answers e h he =
      cache_loop-head_line (length rest) 256 0 rest end answers e h he (omega arith) (omega arith)
