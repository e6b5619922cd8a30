-- ===== src/Paging/Rounds.antt =====
-- The rounds of init_paging (gluKe/sys_utils.c): which tables the catalogue has in front of each.
use glu_ke.Base.{
  ℕ, ◌+◌, ◌-◌, ◌*◌, ◌/◌, ◌%◌, ◌≤◌, ◌<◌, ◌≡◌, ◌≢◌, refl, ap, sym, ◌∙◌, ◌⊎◌, inl, inr, Bool, true,
  false, arith, ltb, ◌==◌, Bool-cases,
}
use glu_ke.Base.Int.{ℤ, pos}
use glu_ke.Rgn.{Rgn, rgn_alloc}
use glu_ke.Rgn.Pages.{held}
use glu_ke.Rgn.Invariant.{IsSound}
use glu_ke.Paging.{Memory, Paging, write_word, entry_of, catalogue_entry}
use glu_ke.Paging.Table.{Filled, fill_table-Filled}
use glu_ke.Paging.Catalogue.{IsReserved, NewPage, rgn_alloc-NewPage}

-- Entry `k` of the catalogue leads to the table of the pages from `k * 1024` on.
pub record IsTable (cat k : ℕ) (s : Paging) : Type 0 where
  pub table : ℕ
  pub aligned : table % 0x1000 ≡ 0
  pub reserved : IsReserved s.rgn (table / 0x1000)
  pub apart : table / 0x1000 ≢ cat / 0x1000
  pub entry : s.memory (cat + 4 * k) ≡ table + 3
  pub pages : (j : ℕ) → j < 1024 → s.memory (table + 4 * j) ≡ (k * 1024 + j) * 0x1000 + 3

-- The variables in front of round `i` for a table.
pub record IsAt (ram nof cat i : ℕ) (s : Paging) : Type 0 where
  pub sound : IsSound ram s.rgn
  pub cat_aligned : cat % 0x1000 ≡ 0
  pub cat_reserved : IsReserved s.rgn (cat / 0x1000)
  pub tables : (k : ℕ) → k < i → k < nof → IsTable cat k s
  pub absent : (k : ℕ) → k < i → nof ≤ k → s.memory (cat + 4 * k) ≡ 0
  pub left : i < nof → (1024 * (nof - i) ≤ s.total_pages) × (s.pg ≡ i * 0x400000)

-- An address in the same page.
in_page : (p x : ℕ) → p % 0x1000 ≡ 0 → x < 0x1000 → (p + x) / 0x1000 ≡ p / 0x1000
in_page p x al h = omega arith

away :
    (p q x y : ℕ)
    → p % 0x1000 ≡ 0
    → q % 0x1000 ≡ 0
    → x < 0x1000
    → y < 0x1000
    → p / 0x1000 ≢ q / 0x1000
    → p + x ≢ q + y
away p q x y a b h h' ne e = ne (omega arith)

-- A table stays where reserved pages change in entry `i` of the catalogue only.
IsTable-move :
    (cat k i : ℕ) (s s' : Paging)
    → cat % 0x1000 ≡ 0
    → k < 1024
    → k ≢ i
    → i < 1024
    → IsReserved s.rgn (cat / 0x1000)
    → ((p : ℕ) → held s.rgn.reserved_als p ≤ held s'.rgn.reserved_als p)
    → ((a : ℕ) → a ≢ cat + 4 * i → IsReserved s.rgn (a / 0x1000) → s'.memory a ≡ s.memory a)
    → IsTable cat k s
    → IsTable cat k s'
IsTable-move cat k i s s' al hk ne hi cat_res grows same t =
    let al' = t.aligned in
    let res = t.reserved in
    record {
      table = t.table;
      aligned = al';
      reserved = omega (arith, grows (t.table / 0x1000));
      apart = t.apart;
      entry =
          same (cat + 4 * k) (omega arith) (rw (in_page cat (4 * k) al (omega arith)) cat_res)
          ∙ t.entry;
      pages = λ j h.
          same (t.table + 4 * j)
            (away t.table cat (4 * j) (4 * i) al' al (omega arith) (omega arith) t.apart)
            (rw (in_page t.table (4 * j) al' (omega arith)) res)
          ∙ t.pages j h;
    }

-- What a round leaves.
abbrev pub Round : ℕ → ℕ → ℕ → ℕ → Bool × Paging → Type 0
Round ram nof cat i out = (out.0 ≡ false) ⊎ ((out.0 ≡ true) × IsAt ram nof cat (i + 1) out.1)

-- A round behind the last table.
round_absent :
    (ram nof cat i : ℕ) (s : Paging)
    → i < 1024
    → nof ≤ i
    → IsAt ram nof cat i s
    → IsAt ram nof cat (i + 1) (record s { memory = write_word s.memory (cat + 4 * i) 0 })
unfolding write_word
round_absent ram nof cat i s hi behind v = record {
  sound = v.sound;
  cat_aligned = v.cat_aligned;
  cat_reserved = v.cat_reserved;
  tables = λ k hk hk'.
      IsTable-move cat k i s _ v.cat_aligned (omega arith) (omega arith) hi v.cat_reserved
        (λ p. omega arith) (λ a ne res. ground arith) (v.tables k (omega arith) hk');
  absent = λ k hk hk'. elim (Bool-cases (k == i)) [
    | inl same ↦ ground arith
    | inr other ↦ let e = v.absent k (ground arith) hk' in ground (arith, e)
  ];
  left = λ h. absurd (omega arith);
}

-- A full table leaves the other pages.
out_of_page :
    (table pg : ℕ) (m : Memory) (out : ℕ × Memory) (a : ℕ)
    → Filled 1024 0 table pg m out
    → table % 0x1000 ≡ 0
    → a / 0x1000 ≢ table / 0x1000
    → out.1 a ≡ m a
out_of_page table pg m out a f al ne = elim (Bool-cases (ltb a table)) [
  | inl below ↦ f.low a (ground arith)
  | inr above ↦ elim (Bool-cases (ltb a (table + 0x1000))) [
    | inl within ↦ absurd (ne (ground arith))
    | inr behind ↦ f.high a (ground arith)
  ]
]

-- A round that gets a page for its table.
round_table :
    (ram nof cat i : ℕ) (s : Paging) (table : ℕ) (rgn' : Rgn) (out : ℕ × Memory)
    → nof ≤ 1023
    → i < nof
    → IsAt ram nof cat i s
    → NewPage ram s.rgn table rgn'
    → Filled 1024 0 table s.pg (write_word s.memory (cat + 4 * i) (entry_of table)) out
    → IsAt ram nof cat
        (i + 1)
        (record { total_pages = s.total_pages - 1024; pg = out.0; rgn = rgn'; memory = out.1 })
unfolding write_word
round_table ram nof cat i s table rgn' out few hi v new f =
    let al = v.cat_aligned in
    let al' = new.aligned in
    let cat_res = v.cat_reserved in
    let left = v.left hi in
    let s' : Paging = record {
      total_pages = s.total_pages - 1024;
      pg = out.0;
      rgn = rgn';
      memory = out.1;
    } in
    let free = new.was_free in
    let apart : table / 0x1000 ≢ cat / 0x1000 =
      λ e. absurd (omega (arith, ap (λ (p : ℕ). held s.rgn.reserved_als p) e)) in
    let m = write_word s.memory (cat + 4 * i) (entry_of table) in
    let entry : out.1 (cat + 4 * i) ≡ table + 3 =
      out_of_page table s.pg m out (cat + 4 * i) f al'
        (λ e. apart (sym e ∙ in_page cat (4 * i) al (omega arith)))
      ∙ ground (arith, al') in
    record {
      sound = new.sound;
      cat_aligned = al;
      cat_reserved = omega (arith, new.kept (cat / 0x1000));
      tables = λ k hk hk'. elim (Bool-cases (k == i)) [
        | inr other ↦
            IsTable-move cat k i s s' al (omega arith) (ground arith) (omega arith) cat_res new.kept
              (λ a ne res.
                out_of_page table s.pg m out a f al'
                  (λ e. absurd (omega (arith, ap (λ (p : ℕ). held s.rgn.reserved_als p) e)))
                ∙ ground arith)
              (v.tables k (ground arith) hk')
        | inl same ↦
            let e : k ≡ i = ground arith in
            record {
              table = table;
              aligned = al';
              reserved = new.now_reserved;
              apart = apart;
              entry = rw e entry;
              pages = λ j h. f.entries j (omega arith) (omega arith) ∙ omega (arith, e, left.1);
            }
      ];
      absent = λ k hk hk'. absurd (omega arith);
      left = λ h. (omega (arith, left.0), f.next ∙ omega (arith, left.1));
    }

pub catalogue_entry-Round :
    (ram nof cat i : ℕ) (cur : ℤ) (s : Paging)
    → nof ≤ 1023
    → i < 1024
    → IsAt ram nof cat i s
    → Round ram nof cat i (catalogue_entry cur nof cat i s)
unfolding catalogue_entry
catalogue_entry-Round ram nof cat i cur s few hi v = elim (Bool-cases (ltb i nof)) [
  | inr behind ↦
      rw (catalogue_entry, behind) (inr (refl, round_absent ram nof cat i s hi (ground arith) v))
  | inl table ↦
      let new_table = (rgn_alloc cur (pos 0x1000) s.rgn).0 in
      elim (Bool-cases (new_table == 0)) [
        | inl no_page ↦ rw (catalogue_entry, table, no_page) (inl refl)
        | inr page ↦ elim (rgn_alloc-NewPage ram cur s.rgn v.sound) [
          | inl no_page ↦ absurd (ground arith)
          | inr new ↦
              let in_front : i < nof = ground arith in
              let left = v.left in_front in
              let m = write_word s.memory (cat + 4 * i) (entry_of new_table) in
              let f =
                fill_table-Filled 1024 0 s.total_pages new_table s.pg m (omega (arith, left.0))
                  (omega (arith, left.1)) (omega (arith, left.1)) in
              rw (catalogue_entry, table, page)
                (inr (refl, round_table ram nof cat i s new_table _ _ few in_front v new f))
        ]
      ]
]
