-- ===== src/Term/Start.antt =====
-- The start of the driver: term_init_driver and st_init_keyboard of gluKe/drivers/term.c. The
-- functions of the driver and the keyboard's handler, which they store, are not.
use glu_ke.Base.{
  ℕ, zero, suc, get_or, ◌*◌, ◌≡◌, refl, ◌⊎◌, inl, inr, false, some, arith, ◌==◌, if◌then◌else◌,
  replicate, Bool-cases, All, All-replicate,
}
use glu_ke.Base.Find.{find_index}
use glu_ke.Base.Int.{ℤ, pos, ok_code, fail_code}
use glu_ke.Rgn.{Rgn, rgn_alloc}
use glu_ke.Term.Driver.{no_term, max_nof_terms, term_open}
use glu_ke.Term.Input.{IsInput}
use glu_ke.Term.Keyboard.{Keyboard, is_pressed}

-- `sizeof(struct term_data)`: four words, the two buffers, three bytes, in whole words.
abbrev pub term_data_bytes : ℕ
term_data_bytes = 4120

abbrev pub nof_scan_codes : ℕ
nof_scan_codes = 0x80

-- `cur` is what task_cur_id returns.
unfoldable pub st_init_keyboard : ℤ → Keyboard → Rgn → ℤ × Keyboard × Rgn
st_init_keyboard cur k r =
    let (keys, r') = rgn_alloc cur (pos nof_scan_codes) r in
    if keys == 0
    then (fail_code, k, r')
    else (ok_code, record k { pressed = replicate nof_scan_codes false }, r')

unfoldable pub term_init_driver : ℤ → Keyboard → Rgn → ℤ × Keyboard × Rgn
unfolding st_init_keyboard
term_init_driver cur k r =
    let (terms, r') = rgn_alloc cur (pos (max_nof_terms * term_data_bytes)) r in
    let cleared = record k { terms = record k.terms { terms = replicate max_nof_terms no_term } } in
    if terms == 0 then (fail_code, k, r') else st_init_keyboard cur cleared r'

-- The driver behind its start.
pub record Started (k : Keyboard) : Type 0 where
  pub inputs : All IsInput k.terms.terms
  pub opens : (term_open k.terms).0 ≡ some 0
  pub released : (code : ℕ) → is_pressed k code ≡ false

released_all : (n code : ℕ) → get_or (replicate n false) code false ≡ false
released_all zero code = refl
released_all (suc n) zero = refl
released_all (suc n) (suc code) = released_all n code

-- With memory for the terminals and for the keys, term_init_driver returns 0; the input of each
-- terminal is well-formed, no key counts as pressed, and the first terminal that is opened is
-- terminal 0. Without, it returns -1.
pub term_init_driver-Started :
    (cur : ℤ) (k : Keyboard) (r : Rgn)
    → let out = term_init_driver cur k r in
      (out.0 ≡ fail_code) ⊎ ((out.0 ≡ ok_code) × Started out.1)
unfolding term_init_driver st_init_keyboard term_open find_index
term_init_driver-Started cur k r =
    let (terms, r') = rgn_alloc cur (pos (max_nof_terms * term_data_bytes)) r in
    elim (Bool-cases (terms == 0)) [
      | inl no_terms ↦ rw (term_init_driver, no_terms) (inl refl)
      | inr got_terms ↦ elim (Bool-cases ((rgn_alloc cur (pos nof_scan_codes) r').0 == 0)) [
        | inl no_keys ↦ rw (term_init_driver, got_terms, no_keys) (inl refl)
        | inr got_keys ↦
            rw (term_init_driver, got_terms, got_keys)
              (inr (
                refl,
                record {
                  inputs =
                      All-replicate IsInput 10 no_term
                        (record { input_len = refl; in_bounds = omega arith });
                  opens = refl;
                  released = released_all nof_scan_codes;
                },
              ))
      ]
    ]
