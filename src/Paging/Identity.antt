-- ===== src/Paging/Identity.antt =====
-- What the catalogue of init_paging (gluKe/sys_utils.c) translates an address to.
use glu_ke.Base.{
  ℕ, zero, suc, ◌+◌, ◌-◌, ◌*◌, ◌/◌, ◌%◌, ◌^◌, ◌≤◌, ◌<◌, ◌≡◌, refl, ap, ◌∙◌, ◌⊎◌, inl, inr, Option,
  none, some, arith, ltb, ◌==◌, if◌then◌else◌, Bool-cases,
}
use glu_ke.Base.Int.{ℤ, pos, ok_code, fail_code}
use glu_ke.Rgn.{Rgn, rgn_alloc}
use glu_ke.Rgn.Invariant.{IsSound}
use glu_ke.Paging.{Memory, Paging, fill_catalogue, init_paging}
use glu_ke.Paging.Catalogue.{rgn_alloc-NewPage}
use glu_ke.Paging.Rounds.{IsAt, catalogue_entry-Round}

-- How the processor translates an address with the catalogue at `cat`; `none` is a page fault.
unfoldable pub translate : Memory → ℕ → ℕ → Option ℕ
translate m cat va =
    let e = m (cat + 4 * (va / 0x400000)) in
    let f = m (e - e % 0x1000 + 4 * (va / 0x1000 % 1024)) in
    if e % 2 == 0 then none else if f % 2 == 0 then none else some (f - f % 0x1000 + va % 0x1000)

fill_catalogue-IsAt :
    (ram nof cat : ℕ) (cur : ℤ) (n i : ℕ) (s : Paging)
    → nof ≤ 1023
    → i + n ≡ 1024
    → IsAt ram nof cat i s
    → let out = fill_catalogue cur nof cat n i s in
      (out.0 ≡ fail_code) ⊎ ((out.0 ≡ ok_code) × IsAt ram nof cat 1024 out.1)
unfolding fill_catalogue
fill_catalogue-IsAt ram nof cat cur zero i s few e v =
    let last : i ≡ 1024 = omega arith in inr (refl, rw last at v)
fill_catalogue-IsAt ram nof cat cur (suc n) i s few e v =
    elim (catalogue_entry-Round ram nof cat i cur s few (omega arith) v) [
      | inl fails ↦ rw (fill_catalogue, fails) (inl refl)
      | inr more ↦
          rw (fill_catalogue, more.0)
            (fill_catalogue-IsAt ram nof cat cur n (i + 1) _ few (omega arith) more.1)
    ]

-- The catalogue that is left maps the tables' part of the memory to itself and nothing else.
translate-IsAt :
    (ram nof cat : ℕ) (s : Paging) (va : ℕ)
    → va < 2 ^ 32
    → IsAt ram nof cat 1024 s
    → translate s.memory cat va ≡ (if ltb va (nof * 0x400000) then some va else none)
unfolding translate
translate-IsAt ram nof cat s va small v =
    let k = va / 0x400000 in
    elim (Bool-cases (ltb va (nof * 0x400000))) [
      | inr behind ↦
          let e = v.absent k (omega arith) (ground arith) in rw (translate, behind, e) refl
      | inl inside ↦
          let j = va / 0x1000 % 1024 in
          let t = v.tables k (omega arith) (ground arith) in
          let al = t.aligned in
          let page = t.pages j (omega arith) in
          let table : t.table + 3 - (t.table + 3) % 0x1000 ≡ t.table = omega arith in
          let odd : (t.table + 3) % 2 ≡ 1 = omega arith in
          let odd' : ((k * 1024 + j) * 0x1000 + 3) % 2 ≡ 1 = omega arith in
          let value : (k * 1024 + j) * 0x1000
                + 3
                - ((k * 1024 + j) * 0x1000 + 3) % 0x1000
                + va % 0x1000
              ≡ va =
            omega arith in
          rw (translate, inside, t.entry, table, page, odd, odd', value) refl
    ]

-- With a sound allocator init_paging either fails, or translates each address of the memory in
-- whole groups of 1024 pages to itself, and lets every other address fault.
pub init_paging-translate :
    (ram : ℕ) (cur : ℤ) (ram_size : ℕ) (s : Rgn) (m : Memory)
    → IsSound ram s
    → ram_size < 2 ^ 32
    → let out = init_paging cur ram_size s m in
      (out.0 ≡ fail_code)
      ⊎ ((out.0 ≡ ok_code)
          × ((va : ℕ)
              → va < 2 ^ 32
              → translate out.2.memory out.1 va
                ≡ (if ltb va (ram_size / 0x400000 * 0x400000) then some va else none)))
unfolding init_paging
init_paging-translate ram cur ram_size s m v small =
    let total = ram_size / 0x1000 in
    let nof = total / 1024 in
    let cat = (rgn_alloc cur (pos 0x1000) s).0 in
    elim (Bool-cases (cat == 0)) [
      | inl no_page ↦ rw (init_paging, no_page) (inl refl)
      | inr page ↦ elim (rgn_alloc-NewPage ram cur s v) [
        | inl no_page ↦ absurd (ground arith)
        | inr new ↦
            let start : Paging = record {
              total_pages = total;
              pg = 0;
              rgn = (rgn_alloc cur (pos 0x1000) s).1;
              memory = m;
            } in
            let at_start : IsAt ram nof cat 0 start = record {
              sound = new.sound;
              cat_aligned = new.aligned;
              cat_reserved = new.now_reserved;
              tables = λ k h. absurd (omega arith);
              absent = λ k h. absurd (omega arith);
              left = λ h. (omega arith, omega arith);
            } in
            let groups : nof * 0x400000 ≡ ram_size / 0x400000 * 0x400000 = omega arith in
            elim (fill_catalogue-IsAt ram nof cat cur 1024 0 start (omega arith) (omega arith)
              at_start) [
                | inl fails ↦ rw (init_paging, page) (inl fails)
                | inr done ↦
                    rw (init_paging, page)
                      (inr (
                        done.0,
                        λ va h.
                            translate-IsAt ram nof cat _ va h done.1
                            ∙ ap (λ (b : ℕ). if ltb va b then some va else none) groups,
                      ))
              ]
      ]
    ]
