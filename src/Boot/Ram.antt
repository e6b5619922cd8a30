-- ===== src/Boot/Ram.antt =====
-- get_RAM_size of gluKe/sys_utils.c. The memory is an argument with its reads and writes of words,
-- since what an address behind its end answers is up to the machine.
use glu_ke.Base.{
  ℕ, zero, suc, ◌+◌, ◌*◌, ◌%◌, ◌^◌, ◌≤◌, ◌<◌, ◌≡◌, ◌≢◌, refl, ap, ◌∙◌, inl, inr, Option, none, some,
  false, arith, ltb, ◌==◌, if◌then◌else◌, Bool-cases,
}

-- get_RAM_size_TEST_VAL, and the address from which the memory is checked.
abbrev pub test_val : ℕ
test_val = 0x11223344

abbrev pub first_address : ℕ
first_address = 0x200000

module _ {M : Type 0} (read : M → ℕ → ℕ) (write : M → ℕ → ℕ → M) where
  -- The loop from `p` on; `none` where it does not end in the rounds that are given.
  unfoldable pub ram_loop : ℕ → ℕ → M → Option (ℕ × M)
  ram_loop zero p m = none
  ram_loop (suc n) p m =
      let temp = read m p in
      let m' = write m p test_val in
      let rest = ram_loop n ((p + 0x1000) % 2 ^ 32) (write m' p temp) in
      if read m' p == test_val then rest else some (p, m')

  unfoldable pub get_ram_size : ℕ → M → Option (ℕ × M)
  get_ram_size n m = ram_loop n first_address m

  -- A machine with `size` bytes: words below keep what is written, and from there on the value of the
  -- test does not come back. A write changes no other word.
  pub record IsRam (size : ℕ) : Type 0 where
    pub word : (m : M) (a : ℕ) → read m a < 2 ^ 32
    pub keeps : (m : M) (a v : ℕ) → a < size → v < 2 ^ 32 → read (write m a v) a ≡ v
    pub beyond : (m : M) (a : ℕ) → size ≤ a → read (write m a test_val) a ≢ test_val
    pub others :
        (m : M) (a b v : ℕ) → a % 4 ≡ 0 → b % 4 ≡ 0 → a ≢ b → read (write m a v) b ≡ read m b

  -- The words below `size` are the same.
  abbrev pub IsSame : ℕ → M → M → Type 0
  IsSame size m m' = (a : ℕ) → a % 4 ≡ 0 → a < size → read m' a ≡ read m a

  module _ (size : ℕ) (ram : IsRam size) where
    -- A round below the end restores its word.
    restored :
        (p : ℕ) (m : M)
        → p % 4 ≡ 0
        → p < size
        → IsSame size m (write (write m p test_val) p (read m p))
    restored p m al below a al' h = elim (Bool-cases (a == p)) [
      | inl same ↦
          let e : a ≡ p = ground arith in
          rw e (ram.keeps (write m p test_val) p (read m p) below (ram.word m p))
      | inr other ↦
          let ne : p ≢ a = ground arith in
          ram.others (write m p test_val) p a (read m p) al al' ne
          ∙ ram.others m p a test_val al al' ne
    ]

    ram_loop-finds :
        (n p : ℕ) (m : M)
        → p % 0x1000 ≡ 0
        → size % 0x1000 ≡ 0
        → p ≤ size
        → size < 2 ^ 32
        → size < p + n * 0x1000
        → (m' : M) × (ram_loop n p m ≡ some (size, m')) × IsSame size m m'
    unfolding ram_loop
    ram_loop-finds zero p m al al' le small enough = absurd (omega arith)
    ram_loop-finds (suc n) p m al al' le small enough = elim (Bool-cases (ltb p size)) [
      | inl below ↦
          let h : p < size = ground arith in
          let kept = ram.keeps m p test_val h (omega arith) in
          let next : (p + 0x1000) % 2 ^ 32 ≡ p + 0x1000 = omega arith in
          let m1 = write (write m p test_val) p (read m p) in
          let rest =
            ram_loop-finds n (p + 0x1000) m1 (omega arith) al' (omega arith) small (omega arith) in
          (
            rest.0,
            rw (ram_loop, kept) (ap (λ (q : ℕ). ram_loop n q m1) next ∙ rest.1),
            λ a i j. rest.2 a i j ∙ restored p m (omega arith) h a i j,
          )
      | inr behind ↦
          let e : p ≡ size = ground arith in
          let lost : (read (write m p test_val) p == test_val) ≡ false =
            let ne = ram.beyond m p (omega arith) in ground arith in
          (
            write m p test_val,
            rw (ram_loop, lost) (ap (λ (q : ℕ). some (q, write m p test_val)) e),
            λ a i j. ram.others m p a test_val (omega arith) i (omega arith),
          )
    ]

    -- On a machine with `size` bytes, in whole pages and at least 2 megabytes, get_RAM_size returns
    -- `size` with a round for each page above 2 megabytes and one more, and leaves the words of the
    -- memory as they were.
    pub get_ram_size-finds :
        (n : ℕ) (m : M)
        → size % 0x1000 ≡ 0
        → first_address ≤ size
        → size < 2 ^ 32
        → size < first_address + n * 0x1000
        → (m' : M) × (get_ram_size n m ≡ some (size, m')) × IsSame size m m'
    unfolding get_ram_size
    get_ram_size-finds n m al enough small rounds =
        ram_loop-finds n first_address m refl al enough small rounds
