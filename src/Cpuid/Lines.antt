-- ===== src/Cpuid/Lines.antt =====
-- The lines of the report of mylib/cpuid_print.c about what the processor has answered. A pause is a
-- line that is read and dropped.
use Prim.Native.String.{String}
use glu_ke.Base.{
  ℕ, ◌*◌, Option, none, some, List, [], ◌∷◌, ◌++◌, map, leb, ◌==◌, if◌then◌else◌, get_or, set,
}
use glu_ke.Work.{text_in}
use glu_ke.Cpuid.{
  FourRegs, Family, i386, i486, pentium, pentium_pro, pentium4, unknown, not_supported, is_pentium4,
  field, codes, family_of, put_word, word_bytes,
}
use glu_ke.Cpuid.Descriptors.{descriptor_text}

-- A PRINTF with its format and what it converts.
pub data Out : Type 0 where
  says : String → Out
  says_number : String → ℕ → Out
  says_text : String → List ℕ → Out
  pause : Out

-- A number of the processor's brands; where the source has 0 there is no text.
pub brand_strings : List (Option String)
brand_strings =
    some "This processor does not support the brand identification feature"
    ∷ some "Intel Celeron processor"
    ∷ some "Intel Pentium III processor"
    ∷ some "Intel Pentium III XeonTM processor"
    ∷ some "Intel Pentium III processor"
    ∷ none
    ∷ some "Mobile Intel Pentium III processor-M"
    ∷ some "Mobile Intel Celeron processor"
    ∷ some "Intel Pentium 4 processor"
    ∷ some "Intel Pentium 4 processor"
    ∷ some "Intel Celeron processor"
    ∷ some "Intel XeonTM processor"
    ∷ some "Intel XeonTM processor MP"
    ∷ none
    ∷ some "Mobile Intel Pentium 4 processor-M"
    ∷ none
    ∷ some "Mobile Intel Celeron processor"
    ∷ none
    ∷ none
    ∷ none
    ∷ some "Mobile Intel Celeron processor"
    ∷ none
    ∷ none
    ∷ some "Intel Pentium M processor"
    ∷ []

abbrev pub number_of_brand_strings : ℕ
number_of_brand_strings = 0x16

-- The bits of ECX with the formats of their lines.
pub ecx_features : List (ℕ × String)
ecx_features =
    (0, "SSE3 extensions: %s\n")
    ∷ (3, "MONITOR/MWAIT: %s\n")
    ∷ (4, "CPL Qualified Debug Store: %s\n")
    ∷ (7, "Enhanced Intel SpeedStep Technology: %s\n")
    ∷ (8, "Thermal monitor 2: %s\n")
    ∷ (10, "L1ContextID support: %s\n")
    ∷ []

-- The bits of EDX up to the first pause.
pub edx_features : List (ℕ × String)
edx_features =
    (0, "FPU on chip: %s\n")
    ∷ (1, "Virtual 8086 mode enhancements: %s\n")
    ∷ (2, "Debugging extensions: %s\n")
    ∷ (3, "Page size extension: %s\n")
    ∷ (4, "Time step counter: %s\n")
    ∷ (5, "RDMSR and WRMSR instructions: %s\n")
    ∷ (6, "Physical address extension: %s\n")
    ∷ (7, "Machine check exception: %s\n")
    ∷ (8, "CMPXCHG8B instruction: %s\n")
    ∷ (9, "APIC on chip: %s\n")
    ∷ (11, "SYSENTER and SYSEXIT instructions: %s\n")
    ∷ (12, "Memory type range registers: %s\n")
    ∷ (13, "PTE global bit: %s\n")
    ∷ (14, "Machine check architecture: %s\n")
    ∷ (15, "Conditional move instructions: %s\n")
    ∷ (16, "Page attribute table: %s\n")
    ∷ []

-- The bits of EDX behind it.
pub more_edx_features : List (ℕ × String)
more_edx_features =
    (17, "32-bit page size extension: %s\n")
    ∷ (18, "Processor serial number support: %s\n")
    ∷ (19, "CLFLUSH instruction: %s\n")
    ∷ (21, "Debug store: %s\n")
    ∷ (22, "Thermal monitor and software controlled clock facilities: %s\n")
    ∷ (23, "Intel MMX technology: %s\n")
    ∷ (24, "FXSAVE and FXRSTOR instructions: %s\n")
    ∷ (25, "SSE: %s\n")
    ∷ (26, "SSE2: %s\n")
    ∷ (27, "Self snoop: %s\n")
    ∷ (28, "Hyper-Threading: %s\n")
    ∷ (29, "Thermal monitor: %s\n")
    ∷ (31, "Pending break enable: %s\n")
    ∷ []

-- The line of a bit, "yes" or "no".
unfoldable pub feature_line : ℕ → ℕ × String → Out
feature_line word (at_bit, format) =
    says_text format (if field word at_bit 1 == 0 then codes "no" else codes "yes")

-- `print_string` with the name of the vendor.
unfoldable pub put_vendor : FourRegs → List ℕ → List ℕ
unfolding put_word
put_vendor regs s = set (put_word 2 regs.ecx (put_word 1 regs.edx (put_word 0 regs.ebx s))) 12 0

unfoldable pub vendor_lines : FourRegs → List ℕ → List Out
unfolding text_in
vendor_lines regs print_string =
    says_number "max query number for basic info: %u\n" regs.eax
    ∷ says_text "vendor: %s\n" (text_in print_string)
    ∷ says "\n"
    ∷ []

abbrev family_name : Family → List ℕ
family_name i386 = codes "386"
family_name i486 = codes "486"
family_name pentium = codes "Pentium"
family_name pentium_pro = codes "Pentium Pro"
family_name pentium4 = codes "Pentium 4"
family_name unknown = codes "unknown"
family_name not_supported = codes "unknown"

abbrev type_name : ℕ → List ℕ
type_name n =
    if n == 0
    then codes "Original OEM Processor"
    else if n == 1
    then codes "Intel OverDrive Processor"
    else if n == 2
    then codes "Dual Processor"
    else codes "Reserved processor type(unknown)"

-- The lines about EAX.
unfoldable pub signature_lines : FourRegs → List Out
unfolding family_of
signature_lines regs =
    let extended =
      says_number "extended model: %u\n" (field regs.eax 16 4)
      ∷ says_number "extended family: %u\n" (field regs.eax 20 8)
      ∷ [] in
    (says_number "modification: %u\n" (field regs.eax 0 4)
      ∷ says_number "model: %u\n" (field regs.eax 4 4)
      ∷ says_text "family: %s\n" (family_name (family_of regs))
      ∷ says_text "processor type: %s\n" (type_name (field regs.eax 12 2))
      ∷ [])
    ++ ((if is_pentium4 (family_of regs) then extended else []) ++ (says "\n" ∷ []))

unfoldable pub brand_text : ℕ → List ℕ
unfolding brand_strings
brand_text n =
    if leb n number_of_brand_strings
    then elim (get_or brand_strings n none) [ none ↦ codes "unknown" | some s ↦ codes s ]
    else codes "unknown"

-- The lines about EBX.
unfoldable pub brand_lines : FourRegs → List Out
unfolding family_of brand_text
brand_lines regs =
    let pentium4_lines =
      says_number "CFLUSH instruction cache line size in bytes: %u\n" (field regs.ebx 8 8 * 8)
      ∷ says_number "Local APIC ID: %u\n" (field regs.ebx 24 8)
      ∷ [] in
    (says_text "brand: %s\n" (brand_text (field regs.ebx 0 8)) ∷ [])
    ++ ((if is_pentium4 (family_of regs) then pentium4_lines else [])
        ++ (says_number "logical processors in package: %u\n" (field regs.ebx 16 8)
            ∷ says "\n"
            ∷ []))

-- The lines about ECX and EDX.
unfoldable pub feature_lines : FourRegs → List Out
unfolding feature_line ecx_features edx_features more_edx_features
feature_lines regs =
    map (feature_line regs.ecx) ecx_features
    ++ ((says "\n" ∷ pause ∷ [])
        ++ (map (feature_line regs.edx) edx_features
            ++ ((pause ∷ [])
                ++ (map (feature_line regs.edx) more_edx_features ++ (says "\n" ∷ [])))))

-- The line of each byte that the switch has a text for.
unfoldable pub byte_lines : List ℕ → List Out
unfolding descriptor_text
byte_lines [] = []
byte_lines (b ∷ bs) = elim (descriptor_text b) [
  | none ↦ byte_lines bs
  | some s ↦ says_text "%s\n" (codes s) ∷ byte_lines bs
]

-- The loops over the registers and their bytes, which pass over the lowest byte of EAX.
unfoldable pub descriptor_bytes : FourRegs → List ℕ
unfolding word_bytes
descriptor_bytes regs =
    elim (word_bytes regs.eax) [ [] ↦ [] | b ∷ bs ↦ bs ]
    ++ (word_bytes regs.ebx ++ (word_bytes regs.ecx ++ word_bytes regs.edx))
