-- ===== src/Boot/Keeps.antt =====
-- What init_paging (gluKe/sys_utils.c) and int_init (gluKe/int.c) keep of the memory that is reserved
-- when entry32 (gluKe/entry32.c) calls them.
use glu_ke.Base.{ℕ, zero, suc, ◌+◌, inl, inr, List, arith, ltb, ◌==◌, Bool-cases}
use glu_ke.Base.Int.{ℤ, pos}
use glu_ke.Rgn.{Rgn, rgn_alloc}
use glu_ke.Rgn.Invariant.{IsSound}
use glu_ke.Rgn.Alloc.{Outcome, alloc_basic-Outcome, got, too_large, table_full}
use glu_ke.Paging.{Memory, Paging, catalogue_entry, fill_catalogue, init_paging}
use glu_ke.Int.{Ints}
use glu_ke.Int.Idt.{Idt, int_init}
use glu_ke.Boot.Reserved.{Kept, Kept-trans}

Kept-refl : {ram : ℕ} {s : Rgn} → IsSound ram s → Kept ram s s
Kept-refl v = record { sound = v; grows = λ p. omega arith }

-- An allocation gives nothing back.
rgn_alloc-Kept :
    (ram : ℕ) (cur bytes : ℤ) (s : Rgn) → IsSound ram s → Kept ram s (rgn_alloc cur bytes s).1
unfolding rgn_alloc
rgn_alloc-Kept ram cur bytes s v = elim (alloc_basic-Outcome v bytes cur) [
  | inl bad ↦ rw (bad.1) (Kept-refl v)
  | inr out ↦ of_outcome _ _ out
]
  where
    of_outcome : (n : ℕ) (out : ℕ × Rgn) → Outcome v n cur out → Kept ram s out.1
    of_outcome n _ (got base s' t v') = record {
      sound = v';
      grows = λ p. omega (arith, t.reserved p);
    }
    of_outcome n _ (too_large e) = Kept-refl v
    of_outcome n _ (table_full e) = Kept-refl v

catalogue_entry-Kept :
    (ram nof cat i : ℕ) (cur : ℤ) (s : Paging)
    → IsSound ram s.rgn
    → Kept ram s.rgn (catalogue_entry cur nof cat i s).1.rgn
unfolding catalogue_entry
catalogue_entry-Kept ram nof cat i cur s v =
    let more = rgn_alloc-Kept ram cur (pos 0x1000) s.rgn v in
    elim (Bool-cases (ltb i nof)) [
      | inr behind ↦ rw (catalogue_entry, behind) (Kept-refl v)
      | inl table ↦ elim (Bool-cases ((rgn_alloc cur (pos 0x1000) s.rgn).0 == 0)) [
        | inl no_page ↦ rw (catalogue_entry, table, no_page) more
        | inr page ↦ rw (catalogue_entry, table, page) more
      ]
    ]

fill_catalogue-Kept :
    (ram nof cat : ℕ) (cur : ℤ) (n i : ℕ) (s : Paging)
    → IsSound ram s.rgn
    → Kept ram s.rgn (fill_catalogue cur nof cat n i s).1.rgn
unfolding fill_catalogue
fill_catalogue-Kept ram nof cat cur zero i s v = Kept-refl v
fill_catalogue-Kept ram nof cat cur (suc n) i s v =
    let one = catalogue_entry-Kept ram nof cat i cur s v in
    elim (Bool-cases (catalogue_entry cur nof cat i s).0) [
      | inr fails ↦ rw (fill_catalogue, fails) one
      | inl more ↦
          rw (fill_catalogue, more)
            (Kept-trans one (fill_catalogue-Kept ram nof cat cur n (i + 1) _ one.sound))
    ]

-- Paging keeps what is reserved.
pub init_paging-Kept :
    (ram : ℕ) (cur : ℤ) (size : ℕ) (s : Rgn) (m : Memory)
    → IsSound ram s
    → Kept ram s (init_paging cur size s m).2.rgn
unfolding init_paging
init_paging-Kept ram cur size s m v =
    let first = rgn_alloc-Kept ram cur (pos 0x1000) s v in
    elim (Bool-cases ((rgn_alloc cur (pos 0x1000) s).0 == 0)) [
      | inl no_page ↦ rw (init_paging, no_page) first
      | inr page ↦
          rw (init_paging, page)
            (Kept-trans first (fill_catalogue-Kept ram _ _ cur 1024 0 _ first.sound))
    ]

-- Interrupts keep what is reserved.
pub int_init-Kept :
    (no_err with_err : List ℕ) (ram : ℕ) (cur : ℤ) (old : Idt) (s : Ints) (r : Rgn)
    → IsSound ram r
    → Kept ram r (int_init no_err with_err cur old s r).3
unfolding int_init
int_init-Kept no_err with_err ram cur old s r v =
    let one = rgn_alloc-Kept ram cur (pos 1152) r v in
    elim (Bool-cases ((rgn_alloc cur (pos 1152) r).0 == 0)) [
      | inl no_page ↦ rw (int_init, no_page) one
      | inr page ↦ rw (int_init, page) one
    ]
