-- ===== src/Cpuid.antt =====
-- mylib/cpuid.c: what the processor says about itself. `cpuid_s`, the assembly of cpuid.S, is an
-- argument: it gets the number of a question and the processor's state, and writes four words or
-- fails. A buffer is the list of its bytes.
pub mod Descriptors
pub mod Lines
pub mod Report
pub mod Brand
pub mod Ends
mod Tests
use glu_ke.Base.{
  ℕ, zero, suc, ◌+◌, ◌*◌, ◌/◌, ◌%◌, ◌^◌, Bool, Option, none, some, List, [], ◌∷◌, ◌++◌, ltb, ◌==◌,
  if◌then◌else◌, set,
}
pub use glu_ke.Base.Text.{codes}
use glu_ke.Base.Int.{ℤ, pos, ok_code, fail_code}

-- struct four_regs
pub record FourRegs : Type 0 where
  pub eax : ℕ
  pub ebx : ℕ
  pub ecx : ℕ
  pub edx : ℕ

-- enum IA32_family
pub data Family : Type 0 where
  i386 : Family
  i486 : Family
  pentium : Family
  pentium_pro : Family
  pentium4 : Family
  unknown : Family
  not_supported : Family

-- The number that C gives an enumerator.
unfoldable pub number_of : Family → ℕ
number_of i386 = 0
number_of i486 = 1
number_of pentium = 2
number_of pentium_pro = 3
number_of pentium4 = 4
number_of unknown = 5
number_of not_supported = 6

abbrev pub is_pentium4 : Family → Bool
is_pentium4 f = number_of f == 4

-- `(word >> at_bit) & mask` for a mask of `bits` ones.
abbrev pub field : ℕ → ℕ → ℕ → ℕ
field word at_bit bits = word / 2 ^ at_bit % 2 ^ bits

-- The switch of IA32_family.
unfoldable pub family_of : FourRegs → Family
family_of regs =
    let n = field regs.eax 8 4 in
    if n == 0x03
    then i386
    else if n == 0x04
    then i486
    else if n == 0x05
    then pentium
    else if n == 0x06
    then pentium_pro
    else if n == 0x0f
    then pentium4
    else unknown

-- The switch of IA32_family_string. The last named case has no `break`, so that it ends as the
-- default does.
unfoldable pub string_of : Family → List ℕ
string_of i386 = codes "386"
string_of i486 = codes "486"
string_of pentium = codes "Pentium"
string_of pentium_pro = codes "PentiumPro"
string_of pentium4 = codes "Pentium4"
string_of not_supported = codes "unknown"
string_of unknown = codes "unknown"

-- The bytes of a word in memory.
unfoldable pub word_bytes : ℕ → List ℕ
word_bytes w = w % 256 ∷ w / 2 ^ 8 % 256 ∷ w / 2 ^ 16 % 256 ∷ w / 2 ^ 24 % 256 ∷ []

-- `((unsigned int*)s)[k]=w`
unfoldable pub put_word : ℕ → ℕ → List ℕ → List ℕ
put_word k w s =
    let s0 = set s (k * 4) (w % 256) in
    let s1 = set s0 (k * 4 + 1) (w / 2 ^ 8 % 256) in
    let s2 = set s1 (k * 4 + 2) (w / 2 ^ 16 % 256) in set s2 (k * 4 + 3) (w / 2 ^ 24 % 256)

-- The four writes of a round of cpuid_brand_string.
unfoldable pub put_regs : ℕ → FourRegs → List ℕ → List ℕ
unfolding put_word
put_regs i regs s =
    put_word (i * 4 + 3) regs.edx
      (put_word (i * 4 + 2) regs.ecx (put_word (i * 4 + 1) regs.ebx (put_word (i * 4) regs.eax s)))

module _ {P : Type 0} (cpuid_s : ℕ → P → Option (ℕ × ℕ × ℕ × ℕ) × P) where
  -- `none` stands for the result -1.
  unfoldable pub cpuid : ℕ → P → Option FourRegs × P
  cpuid num p =
      let (answer, p') = cpuid_s num p in
      (
        elim answer [
          | none ↦ none
          | some (a, b, c, d) ↦ some (record { eax = a; ebx = b; ecx = c; edx = d })
        ],
        p',
      )

  -- Without registers it asks for them.
  unfoldable pub ia32_family : Option FourRegs → P → Family × P
  unfolding family_of cpuid
  ia32_family (some regs) p = (family_of regs, p)
  ia32_family none p =
      let (answer, p') = cpuid 1 p in
      (elim answer [ none ↦ not_supported | some regs ↦ family_of regs ], p')

  unfoldable pub ia32_family_string : P → List ℕ × P
  unfolding ia32_family string_of
  ia32_family_string p = let (f, p') = ia32_family none p in (string_of f, p')

  -- The loop of cpuid_brand_string, for the `n` rounds from `i` on.
  unfoldable pub brand_loop : ℕ → ℕ → List ℕ → P → ℤ × List ℕ × P
  unfolding cpuid put_regs
  brand_loop zero i s p = (ok_code, set s 47 0, p)
  brand_loop (suc n) i s p =
      let (answer, p') = cpuid (0x80000000 + i + 2) p in
      elim answer [
        | none ↦ (fail_code, s, p')
        | some regs ↦ brand_loop n (i + 1) (put_regs i regs s) p'
      ]

  unfoldable pub cpuid_brand_string : List ℕ → P → ℤ × List ℕ × P
  unfolding ia32_family brand_loop
  cpuid_brand_string s p =
      let (f, p0) = ia32_family none p in
      let (f', p1) = ia32_family none p0 in
      let (answer, p2) = cpuid 0x80000000 p0 in
      if is_pentium4 f
      then elim answer [
        | none ↦ (fail_code, s, p2)
        | some regs ↦ if ltb regs.eax 0x80000004 then (fail_code, s, p2) else brand_loop 3 0 s p2
      ]
      else (pos (number_of f'), s, p1)
