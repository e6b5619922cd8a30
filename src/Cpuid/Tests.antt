-- ===== src/Cpuid/Tests.antt =====
-- A Pentium 4 that answers all questions (mylib/cpuid.c and mylib/cpuid_print.c).
use glu_ke.Base.{
  ℕ, ◌≡◌, ◌≢◌, refl, some, none, Option, [], ◌∷◌, arith, ◌==◌, if◌then◌else◌, set, replicate,
}
use glu_ke.Base.Int.{ok_code}
use glu_ke.Cpuid.{FourRegs, cpuid, cpuid_brand_string, family_of, pentium4, codes}
use glu_ke.Cpuid.Lines.{says_number, says_text, descriptor_bytes, byte_lines, brand_text}
use glu_ke.Cpuid.Report.{breaks, cache_loop, cpuid_print}
use glu_ke.Cpuid.Brand.{brand_bytes, cpuid_brand_string-bytes}
use glu_ke.Cpuid.Ends.{last, asked, lines_of, cache_loop-lines, cpuid_print-ends}

-- EAX of the answer to a question. The first descriptor of a cache is 0x50, the next is not known.
abbrev eax_of : ℕ → ℕ
eax_of n = if n == 1 then 0xf12 else if n == 2 then 0x5b905001 else 0x80000004

abbrev answers : ℕ → FourRegs
answers n = record { eax = eax_of n; ebx = 0x20202020; ecx = 0; edx = 0x20202020 }

abbrev machine : ℕ → ℕ → Option (ℕ × ℕ × ℕ × ℕ) × ℕ
machine n clock = (some (eax_of n, 0x20202020, 0, 0x20202020), clock)

machine-steady : (n q : ℕ) → (cpuid machine n q).0 ≡ some (answers n)
unfolding cpuid
machine-steady n q = refl

pentium4_answers : family_of (answers 1) ≡ pentium4
unfolding family_of
pentium4_answers = refl

cpuid_brand_string-bytes_example :
    ((cpuid_brand_string machine (replicate 48 0) 7).0 ≡ ok_code)
    × ((cpuid_brand_string machine (replicate 48 0) 7).1
        ≡ set (brand_bytes machine answers machine-steady) 47 0)
cpuid_brand_string-bytes_example =
    cpuid_brand_string-bytes machine answers machine-steady (replicate 48 0) 7 refl pentium4_answers
      (omega arith)

one_query :
    cache_loop machine 256 0 7
    ≡ some (
        breaks
          (says_number "number of cache and tlb info queries: %u\n" 1 ∷ lines_of (answers 2 ∷ []))
          7)
unfolding cpuid
one_query =
    cache_loop-lines machine (answers 2 ∷ []) (answers 2) (asked (machine-steady 2 7) last)
      (machine-steady 2 7) (refl, tt) refl

cpuid_print-ends_example : cpuid_print machine (replicate 48 0) 7 ≢ none
cpuid_print-ends_example = cpuid_print-ends machine (replicate 48 0) 7

-- A descriptor above 0x7f has no line, although the switch has a case for it.
shown :
    byte_lines (descriptor_bytes (record { eax = 0x82665001; ebx = 0; ecx = 0; edx = 0 }))
    ≡ says_text "%s\n" (codes "Instruction TLB: 4-KByte and 2-MByte or 4-MByte pages, 64 entries")
      ∷ says_text "%s\n"
          (codes "1st-level data cache: 8KB, 4-way set associative, 64 byte line size")
      ∷ []
unfolding byte_lines descriptor_bytes
shown = refl

-- The last entry of the brands is one behind the greatest number that the test lets pass.
pentium_m_unknown : brand_text 0x16 ≡ codes "unknown"
unfolding brand_text
pentium_m_unknown = refl
