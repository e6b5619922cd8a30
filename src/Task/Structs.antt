-- ===== src/Task/Structs.antt =====
-- The task structures of gluKe/task.h, and the descriptors of gluKe/sys_utils.c, a descriptor as its
-- eight bytes.
use glu_ke.Base.{ℕ, ◌+◌, ◌*◌, ◌/◌, ◌%◌, ◌^◌, Bool, false, List, [], ◌∷◌, leb, if◌then◌else◌, get_or}
use glu_ke.Base.Int.{ℤ, pos}

-- What the source sets of `struct TSS`.
pub record Tss : Type 0 where
  pub prev_task : ℕ
  pub cr3 : ℕ
  pub eip : ℕ
  pub eflags : ℕ
  pub esp : ℕ
  pub es : ℕ
  pub cs : ℕ
  pub ss : ℕ
  pub ds : ℕ
  pub fs : ℕ
  pub gs : ℕ

-- `gdt_tss_descr` is the index of the descriptor, `plan` says whether the member is not 0.
pub record Task : Type 0 where
  pub tss : Tss
  pub gdt_tss_descr : ℕ
  pub selector : ℕ
  pub plan : Bool
  pub id : ℤ
  pub sleep_mksec : ℕ

-- A task cleared by `kmemset`.
abbrev pub blank_task : Task
blank_task = record {
  tss = record {
    prev_task = 0;
    cr3 = 0;
    eip = 0;
    eflags = 0;
    esp = 0;
    es = 0;
    cs = 0;
    ss = 0;
    ds = 0;
    fs = 0;
    gs = 0;
  };
  gdt_tss_descr = 0;
  selector = 0;
  plan = false;
  id = pos 0;
  sleep_mksec = 0;
}

abbrev byte : List ℕ → ℕ → ℕ
byte d i = get_or d i 0

-- `sizeof(struct TSS)`: the struct is packed.
abbrev pub tss_size : ℕ
tss_size = 104

unfoldable pub gdt_fill_tss_descr : ℕ → ℕ → List ℕ
gdt_fill_tss_descr tss limit =
    limit % 256
    ∷ limit / 256 % 256
    ∷ tss % 256
    ∷ tss / 2 ^ 8 % 256
    ∷ tss / 2 ^ 16 % 256
    ∷ 0x89
    ∷ 0x40
    ∷ tss / 2 ^ 24 % 256
    ∷ []

unfoldable pub gdt_seg_limit : List ℕ → ℕ
gdt_seg_limit d =
    let s = byte d 0 + byte d 1 * 256 + byte d 6 % 16 * 0x10000 in
    if leb 128 (byte d 6) then s * 0x1000 % 2 ^ 32 else s

unfoldable pub gdt_selector : ℕ → ℕ
gdt_selector index = index * 8
