-- ===== src/Int/Idt.antt =====
-- int_init of gluKe/int.c: the interrupt descriptor table and the stubs behind it. A gate is its four
-- 16-bit words, a stub its bytes. The two stubs that are copied are assembly and arguments here.
use glu_ke.Base.{
  ℕ, zero, suc, ◌+◌, ◌-◌, ◌*◌, ◌/◌, ◌%◌, ◌^◌, ◌<◌, ◌≡◌, refl, ap, ◌∙◌, ◌⊎◌, inl, inr, Bool, true,
  false, ◌||◌, ◌≤◌, ◌≢◌, List, [], ◌∷◌, arith, leb, ◌==◌, length, if◌then◌else◌, get_or, set,
  Bool-cases,
}
use glu_ke.Base.Int.{ℤ, pos, ok_code, fail_code}
use glu_ke.Rgn.{Rgn, rgn_alloc}
use glu_ke.Int.{Ints}

abbrev pub idt_entry_size : ℕ
idt_entry_size = 8

abbrev pub idt_nof_entries : ℕ
idt_nof_entries = 0x30

abbrev pub handler_size : ℕ
handler_size = 0x10

abbrev pub k_cs_sel : ℕ
k_cs_sel = 0x08

-- The words that the loop writes to a gate for the stub at `handler`.
unfoldable pub gate_for : ℕ → List ℕ
gate_for handler = handler % 2 ^ 16 ∷ k_cs_sel ∷ 0x8e00 ∷ handler / 2 ^ 16 ∷ []

-- The address that a gate leads to.
abbrev pub address_in : List ℕ → ℕ
address_in g = get_or g 0 0 + get_or g 3 0 * 2 ^ 16

-- The test for an interrupt whose stub is the one without an error code.
abbrev pub has_no_err : ℕ → Bool
has_no_err i = leb i 7 || i == 15 || i == 16 || leb 18 i

-- The interrupts that the stub with an error code is for, and the others.
abbrev pub WithError : ℕ → Type 0
WithError i = ((8 ≤ i) × (i ≤ 14)) ⊎ (i ≡ 17)

abbrev pub Plain : ℕ → Type 0
Plain i = (i < 8) ⊎ ((i ≡ 15) ⊎ ((i ≡ 16) ⊎ (17 < i)))

Plain-of : (i : ℕ) → has_no_err i ≡ true → Plain i
Plain-of i e = ground arith

WithError-of : (i : ℕ) → has_no_err i ≡ false → WithError i
WithError-of i e = ground arith

-- What loading the table needs, with the memory that the loop has written.
pub record Idt : Type 0 where
  pub base : ℕ
  pub size : ℕ
  pub gates : List (List ℕ)
  pub stubs : List (List ℕ)

module _ (no_err with_err : List ℕ) where
  -- The copy of a stub with the number of its interrupt in it.
  unfoldable pub stub_for : ℕ → List ℕ
  stub_for i = if has_no_err i then set no_err 4 i else set with_err 2 i

  -- The loop, for `n` interrupts from `i` on.
  unfoldable pub fill_gates : ℕ → ℕ → ℕ → List (List ℕ) × List (List ℕ)
  unfolding gate_for stub_for
  fill_gates zero i handler = ([], [])
  fill_gates (suc n) i handler =
      let (gates, stubs) = fill_gates n (i + 1) (handler + handler_size) in
      (gate_for handler ∷ gates, stub_for i ∷ stubs)

  -- `cur` is what task_cur_id returns; behind the loop interrupts are turned on.
  unfoldable pub int_init : ℤ → Idt → Ints → Rgn → ℤ × Idt × Ints × Rgn
  int_init cur old s r =
      let table_bytes : ℕ = idt_entry_size * idt_nof_entries in
      let (base, r') = rgn_alloc cur (pos (table_bytes + handler_size * idt_nof_entries)) r in
      let (gates, stubs) = fill_gates idt_nof_entries 0 (base + table_bytes) in
      if base == 0 then (fail_code, old, s, r') else (
        ok_code,
        record { base = base; size = table_bytes - 1; gates = gates; stubs = stubs },
        record s { inited = true; enabled = true },
        r',
      )

  fill_gates-at :
      (n i handler k : ℕ)
      → k < n
      → let (gates, stubs) = fill_gates n i handler in
        (get_or gates k [] ≡ gate_for (handler + k * handler_size))
        × (get_or stubs k [] ≡ stub_for (i + k))
  unfolding fill_gates
  fill_gates-at zero i handler k h = absurd (omega arith)
  fill_gates-at (suc n) i handler zero h =
      let a : handler ≡ handler + 0 * handler_size = omega arith in
      let b : i ≡ i + 0 = omega arith in (ap gate_for a, ap stub_for b)
  fill_gates-at (suc n) i handler (suc k) h =
      let r = fill_gates-at n (i + 1) (handler + handler_size) k (omega arith) in
      let a : handler + handler_size + k * handler_size ≡ handler + suc k * handler_size =
        omega arith in
      let b : i + 1 + k ≡ i + suc k = omega arith in (r.0 ∙ ap gate_for a, r.1 ∙ ap stub_for b)

  length-fill_gates : (n i handler : ℕ) → length (fill_gates n i handler).0 ≡ n
  unfolding fill_gates
  length-fill_gates zero i handler = refl
  length-fill_gates (suc n) i handler =
      ap suc (length-fill_gates n (i + 1) (handler + handler_size))

  pub length-int_init :
      (cur : ℤ) (old : Idt) (s : Ints) (r : Rgn)
      → let out = int_init cur old s r in out.0 ≡ ok_code → length out.1.gates ≡ 48
  unfolding int_init
  length-int_init cur old s r =
      let base = (rgn_alloc cur (pos 1152) r).0 in
      elim (Bool-cases (base == 0)) [
        | inl no_page ↦ rw (int_init, no_page) (λ e. cc)
        | inr page ↦ rw (int_init, page) (λ e. length-fill_gates 48 0 (base + 384))
      ]

  gate_for-address : (a : ℕ) → address_in (gate_for a) ≡ a
  unfolding gate_for
  gate_for-address a = omega arith

  gate_words : (a : ℕ) → (get_or (gate_for a) 1 0 ≡ 0x08) × (get_or (gate_for a) 2 0 ≡ 0x8e00)
  unfolding gate_for
  gate_words a = (refl, refl)

  stub_for-copy :
      (i : ℕ)
      → ((WithError i) × (stub_for i ≡ set with_err 2 i))
        ⊎ ((Plain i) × (stub_for i ≡ set no_err 4 i))
  unfolding stub_for
  stub_for-copy i = elim (Bool-cases (has_no_err i)) [
    | inl plain ↦ rw (stub_for, plain) (inr (Plain-of i plain, refl))
    | inr other ↦ rw (stub_for, other) (inl (WithError-of i other, refl))
  ]

  -- The gate of interrupt `i` in the block at `base`, and the stub that it leads to.
  pub record Stubbed (base i : ℕ) (g stub : List ℕ) : Type 0 where
    pub address : address_in g ≡ base + 384 + i * 16
    pub segment : get_or g 1 0 ≡ 0x08
    pub kind : get_or g 2 0 ≡ 0x8e00
    pub copy : ((WithError i) × (stub ≡ set with_err 2 i)) ⊎ ((Plain i) × (stub ≡ set no_err 4 i))

  -- int_init asks the allocator for 1152 bytes and changes it by nothing else. Where it gets none, it
  -- fails and changes neither the table nor the sections. Where it gets a block, it succeeds and turns
  -- interrupts on, the table is the first 384 bytes of the block, and each of the 48 interrupts has an
  -- interrupt gate of the kernel's segment, which leads to the 16 bytes of its own stub behind the
  -- table: for the interrupts 8 to 14 and 17 the copy of the stub with an error code with the number in
  -- its byte 2, for the others the copy of the one without, with the number in its byte 4.
  pub int_init-leads :
      (cur : ℤ) (old : Idt) (s : Ints) (r : Rgn)
      → let out = int_init cur old s r in
        let block = rgn_alloc cur (pos 1152) r in
        (out.3 ≡ block.1)
        × (((block.0 ≡ 0) × (out.0 ≡ fail_code) × (out.1 ≡ old) × (out.2 ≡ s))
            ⊎ ((block.0 ≢ 0)
                × (out.0 ≡ ok_code)
                × (out.1.base ≡ block.0)
                × (out.1.size ≡ 383)
                × (out.2 ≡ record s { inited = true; enabled = true })
                × ((i : ℕ)
                    → i < 48
                    → Stubbed block.0 i (get_or out.1.gates i []) (get_or out.1.stubs i []))))
  unfolding int_init
  int_init-leads cur old s r =
      let base = (rgn_alloc cur (pos 1152) r).0 in
      elim (Bool-cases (base == 0)) [
        | inl no_page ↦ rw (int_init, no_page) (refl, inl (ground arith, refl, refl, refl))
        | inr page ↦
            rw (int_init, page)
              (
                refl,
                inr (λ e. absurd (ground arith), refl, refl, refl, refl, λ i h. leads base i h),
              )
      ]
    where
      leads :
          (base i : ℕ)
          → i < 48
          → let (gates, stubs) = fill_gates 48 0 (base + 384) in
            Stubbed base i (get_or gates i []) (get_or stubs i [])
      leads base i h =
          let r = fill_gates-at 48 0 (base + 384) i h in
          record {
            address = ap address_in r.0 ∙ gate_for-address (base + 384 + i * 16);
            segment = ap (λ (g : List ℕ). get_or g 1 0) r.0 ∙ (gate_words (base + 384 + i * 16)).0;
            kind = ap (λ (g : List ℕ). get_or g 2 0) r.0 ∙ (gate_words (base + 384 + i * 16)).1;
            copy = let e : 0 + i ≡ i = omega arith in rw (r.1 ∙ ap stub_for e) (stub_for-copy i);
          }
