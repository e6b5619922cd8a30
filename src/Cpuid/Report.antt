-- ===== src/Cpuid/Report.antt =====
-- mylib/cpuid_print.c: the report about the processor, as the list of what is printed.
use glu_ke.Base.{
  ℕ, zero, suc, ◌+◌, Option, none, some, List, [], ◌∷◌, ◌++◌, ltb, leb, ◌==◌, if◌then◌else◌,
}
use glu_ke.Base.Int.{eq_ℤ, ok_code}
use glu_ke.Work.{text_in}
use glu_ke.Cpuid.{Family, is_pentium4, field, family_of, cpuid, cpuid_brand_string}
use glu_ke.Cpuid.Lines.{
  Out, says, says_number, says_text, pause, put_vendor, vendor_lines, signature_lines, brand_lines,
  feature_lines, byte_lines, descriptor_bytes,
}

-- How the loop over the caches ends: by its `break`, or by a `return` of the function.
pub data Ending (P : Type 0) : Type 0 where
  breaks : List Out → P → Ending P
  fails : List Out → P → Ending P

abbrev behind : {P : Type 0} → List Out → Ending P → Ending P
behind os (breaks os' p) = breaks (os ++ os') p
behind os (fails os' p) = fails (os ++ os') p

abbrev failure : List Out
failure = says "'cpuid' failed\n" ∷ pause ∷ []

module _ {P : Type 0} (cpuid_s : ℕ → P → Option (ℕ × ℕ × ℕ × ℕ) × P) where
  -- The loop over the caches from the round `iter` on; `none` when the fuel is gone.
  unfoldable pub cache_loop : ℕ → ℕ → P → Option (Ending P)
  unfolding cpuid
  cache_loop zero iter p = none
  cache_loop (suc fuel) iter p =
      let (answer, p') = cpuid cpuid_s 2 p in
      elim answer [
        | none ↦ some (fails failure p')
        | some regs ↦
            let count = field regs.eax 0 8 in
            let head =
              if iter == 0
              then says_number "number of cache and tlb info queries: %u\n" count ∷ []
              else [] in
            let rest = cache_loop fuel (iter + 1) p' in
            if leb count iter then some (breaks head p') else elim rest [
              | none ↦ none
              | some e ↦ some (behind (head ++ byte_lines (descriptor_bytes regs)) e)
            ]
      ]

  -- From `perform_extended_query` on.
  unfoldable pub extended_report : Family → List ℕ → P → List Out × P
  unfolding cpuid cpuid_brand_string
  extended_report family print_string p =
      let (answer, p0) = cpuid cpuid_s 0x80000000 p in
      if is_pentium4 family
      then elim answer [
        | none ↦ (failure, p0)
        | some regs ↦
            let (code, s, p1) = cpuid_brand_string cpuid_s print_string p0 in
            let brand = says_text "brand string: \"%s\"\n" (text_in s) ∷ [] in
            (
              (says_number "maximum input value for extended info: 0x%x\n" regs.eax ∷ [])
                  ++ ((if eq_ℤ code ok_code then brand else []) ++ (pause ∷ [])),
              p1,
            )
      ]
      else (pause ∷ [], p)

  -- The part behind the first two questions, with the greatest number of a question.
  unfoldable pub cache_report : ℕ → Family → List ℕ → P → Option (List Out × P)
  unfolding cache_loop extended_report
  cache_report max_query family print_string p =
      if ltb max_query 2
      then some (extended_report family print_string p)
      else elim (cache_loop 256 0 p) [
        | none ↦ none
        | some (fails os p') ↦ some (pause ∷ os, p')
        | some (breaks os p') ↦
            let (os', p'') = extended_report family print_string p' in
            some (pause ∷ (os ++ ((says "\n" ∷ []) ++ os')), p'')
      ]

  -- `stack` is what the bytes of `print_string` are at first.
  unfoldable pub cpuid_print : List ℕ → P → Option (List Out × P)
  unfolding cpuid put_vendor vendor_lines signature_lines brand_lines feature_lines cache_report
      family_of
  cpuid_print stack p =
      let (answer, p0) = cpuid cpuid_s 0 p in
      let (answer', p1) = cpuid cpuid_s 1 p0 in
      elim answer [
        | none ↦ some (says "cpuid processor command not supported\n" ∷ pause ∷ [], p0)
        | some first ↦ elim answer' [
          | none ↦ some (vendor_lines first (put_vendor first stack) ++ failure, p1)
          | some regs ↦ elim (cache_report first.eax (family_of regs) (put_vendor first stack) p1) [
            | none ↦ none
            | some (os, p2) ↦ some (
              vendor_lines first (put_vendor first stack)
                  ++ (signature_lines regs ++ (brand_lines regs ++ (feature_lines regs ++ os))),
              p2,
            )
          ]
        ]
      ]
