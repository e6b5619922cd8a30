-- ===== src/Term/Opening.antt =====
-- Which terminal `term_open` of gluKe/drivers/term.c takes.
use glu_ke.Base.{
  ℕ, ◌≡◌, ◌≢◌, ◌<◌, ◌⊎◌, refl, inl, inr, true, false, not, none, some, arith, Option-cases, length,
  get_or-set_ne, get_or-set_self,
}
use glu_ke.Base.Find.{find_index, find_index-lt, find_index-holds, find_index-none}
use glu_ke.Term.Driver.{Terms, no_term, term_at, term_open, opened}

-- `term_open` takes a terminal that was not used, makes it what `opened` says and leaves all others
-- as they were; it fails only if all are used.
pub term_open-takes :
    (s : Terms)
    → let (place, s') = term_open s in
      ((place ≡ none) × ((j : ℕ) → j < length s.terms → (term_at s j).used ≡ true))
      ⊎ ((i : ℕ) × (place ≡ some i)
          × ((term_at s i).used ≡ false)
          × (term_at s' i ≡ opened (term_at s i))
          × ((j : ℕ) → i ≢ j → term_at s' j ≡ term_at s j))
unfolding term_open
term_open-takes s = elim (Option-cases (find_index (λ t. not t.used) s.terms)) [
  | inl full ↦
      rw (term_open, full)
        (inl (
          refl,
          λ j lt. ground (arith, find_index-none (λ t. not t.used) s.terms no_term j full lt),
        ))
  | inr (i, found) ↦
      let free = find_index-holds (λ t. not t.used) s.terms no_term i found in
      let i_in = find_index-lt (λ t. not t.used) s.terms i found in
      rw (term_open, found)
        (inr (
          i,
          refl,
          ground (arith, free),
          get_or-set_self s.terms i (opened (term_at s i)) no_term i_in,
          λ j ne. get_or-set_ne s.terms i j (opened (term_at s i)) no_term ne,
        ))
]
