-- ===== src/Cpuid/Descriptors.antt =====
-- The switch over a descriptor of a cache in mylib/cpuid_print.c.
use Prim.Native.String.{String}
use glu_ke.Base.{ℕ, ◌-◌, Option, none, some, List, [], ◌∷◌, ltb, if◌then◌else◌}
use glu_ke.Base.Int.{ℤ, pos, negsuc, eq_ℤ}

-- The cases with a text.
pub descriptors : List (ℕ × String)
descriptors =
    (0x01, "Instruction TLB: 4K-Byte Pages, 4-way set associative, 32 entries")
    ∷ (0x02, "Instruction TLB: 4M-Byte Pages, 4-way set associative, 2 entries")
    ∷ (0x03, "Data TLB: 4K-Byte Pages, 4-way set associative, 64 entries")
    ∷ (0x04, "Data TLB: 4M-Byte Pages, 4-way set associative, 8 entries")
    ∷ (0x06, "1st-level instruction cache: 8K Bytes, 4-way set associative, 32byte line size")
    ∷ (0x08, "1st-level instruction cache: 16K Bytes, 4-way set associative, 32 byte line size")
    ∷ (0x0A, "1st-level data cache: 8K Bytes, 2-way set associative, 32 byte line size")
    ∷ (0x0C, "1st-level data cache: 16K Bytes, 4-way set associative, 32 byte line size")
    ∷ (
      0x22,
      "3rd-level cache: 512K Bytes, 4-way set associative, 64 byte line size, 128 byte sector size",
    )
    ∷ (
      0x23,
      "3rd-level cache: 1M Bytes, 8-way set associative, 64 byte line size, 128 byte sector size",
    )
    ∷ (
      0x25,
      "3rd-level cache: 2M Bytes, 8-way set associative, 64 byte line size, 128 byte sector size",
    )
    ∷ (0x2C, "1st-level data cache: 32K Bytes, 8-way set associative, 64 byte line size")
    ∷ (0x30, "1st-level instruction cache: 32K Bytes, 8-way set associative, 64 byte line size")
    ∷ (
      0x40,
      "No 2nd-level cache or, if processor contains a valid 2nd-level cache, no 3rd-level cache",
    )
    ∷ (0x41, "2nd-level cache: 128K Bytes, 4-way set associative, 32 byte line size")
    ∷ (0x42, "2nd-level cache: 256K Bytes, 4-way set associative, 32 byte line size")
    ∷ (0x43, "2nd-level cache: 512K Bytes, 4-way set associative, 32 byte line size")
    ∷ (0x44, "2nd-level cache: 1M Byte, 4-way set associative, 32 byte line size")
    ∷ (0x45, "2nd-level cache: 2M Byte, 4-way set associative, 32 byte line size")
    ∷ (0x50, "Instruction TLB: 4-KByte and 2-MByte or 4-MByte pages, 64 entries")
    ∷ (0x51, "Instruction TLB: 4-KByte and 2-MByte or 4-MByte pages, 128 entries")
    ∷ (0x52, "Instruction TLB: 4-KByte and 2-MByte or 4-MByte pages, 256 entries")
    ∷ (0x5B, "Data TLB: 4-KByte and 4-MByte pages, 64 entries")
    ∷ (0x5C, "Data TLB: 4-KByte and 4-MByte pages,128 entries")
    ∷ (0x5D, "Data TLB: 4-KByte and 4-MByte pages,256 entries")
    ∷ (0x66, "1st-level data cache: 8KB, 4-way set associative, 64 byte line size")
    ∷ (0x67, "1st-level data cache: 16KB, 4-way set associative, 64 byte line size")
    ∷ (0x68, "1st-level data cache: 32KB, 4-way set associative, 64 byte line size")
    ∷ (0x70, "Trace cache: 12K-uop, 8-way set associative")
    ∷ (0x71, "Trace cache: 16K-uop, 8-way set associative")
    ∷ (0x72, "Trace cache: 32K-uop, 8-way set associative")
    ∷ (0x78, "2nd-level cache: 1M Byte, 8-way set associative, 64byte line size")
    ∷ (
      0x79,
      "2nd-level cache: 128KB, 8-way set associative, 64 byte line size, 128 byte sector size",
    )
    ∷ (
      0x7A,
      "2nd-level cache: 256KB, 8-way set associative, 64 byte line size, 128 byte sector size",
    )
    ∷ (
      0x7B,
      "2nd-level cache: 512KB, 8-way set associative, 64 byte line size, 128 byte sector size",
    )
    ∷ (0x7C, "2nd-level cache: 1MB, 8-way set associative, 64 byte line size, 128 byte sector size")
    ∷ (0x7D, "2nd-level cache: 2M Byte, 8-way set associative, 64byte line size")
    ∷ (0x82, "2nd-level cache: 256K Byte, 8-way set associative, 32 byte line size")
    ∷ (0x83, "2nd-level cache: 512K Byte, 8-way set associative, 32 byte line size")
    ∷ (0x84, "2nd-level cache: 1M Byte, 8-way set associative, 32 byte line size")
    ∷ (0x85, "2nd-level cache: 2M Byte, 8-way set associative, 32 byte line size")
    ∷ (0x86, "2nd-level cache: 512K Byte, 4-way set associative, 64 byte line size")
    ∷ (0x87, "2nd-level cache: 1M Byte, 8-way set associative, 64 byte line size")
    ∷ (0xB0, "Instruction TLB: 4M-Byte Pages, 4-way set associative, 128 entries")
    ∷ (0xB3, "Data TLB: 4M-Byte Pages, 4-way set associative, 128 entries")
    ∷ []

-- A byte read as a char, which is signed.
unfoldable pub as_char : ℕ → ℤ
as_char b = if ltb b 128 then pos b else negsuc (255 - b)

-- The case of a table for the value `c`.
unfoldable pub case_of : ℤ → List (ℕ × String) → Option String
case_of c [] = none
case_of c ((n, s) ∷ cases) = if eq_ℤ (pos n) c then some s else case_of c cases

-- `s` after the switch.
unfoldable pub descriptor_text : ℕ → Option String
unfolding as_char case_of descriptors
descriptor_text b = case_of (as_char b) descriptors
