-- ===== src/Rgn/Release.antt =====
-- rgn_free of gluKe/rgn.c: the regions that the rest of the kernel gives back.
use glu_ke.Base.{ℕ, ◌<◌, ◌≡◌, ◌≢◌, inl, inr, Bool, some, arith, length, Option-cases, ◌==◌, ap, ◌∙◌}
use native.Mathlib.Decide.{ℕ_discrete}
use glu_ke.Base.Find.{find_index-lt, find_index-holds, find_index-total}
use glu_ke.Base.Int.{ℤ}
use glu_ke.Rgn.{Allocation, Rgn, unused, at, free_index, rgn_free, reserved_with_base}
use glu_ke.Rgn.Invariant.{IsSound}
use glu_ke.Rgn.Free.{Outcome, freed, no_entry, free_index-Outcome}

module _ {ram : ℕ} {s : Rgn} (v : IsSound ram s) where
  -- The search by base finds a used entry, not a stale one with the same base.
  finds_entry :
      (r : ℕ)
      → r < length s.reserved_als
      → (at s.reserved_als r).nof_pages ≢ 0
      → reserved_with_base (at s.reserved_als r).base s ≡ some r
  finds_entry r r_in used =
      let p : Allocation → Bool = λ a. a.base == (at s.reserved_als r).base in
      let f = find_index-total p s.reserved_als unused r r_in (ground arith) in
      let hit = find_index-holds p s.reserved_als unused f.0 f.1 in
      elim (ℕ_discrete f.0 r) [
        | yes e ↦ f.1 ∙ ap some e
        | no ne ↦ absurd (v.finds_used f.0 r (omega (arith, f.2)) r_in used (ground arith))
      ]

  -- On sound tables, `rgn_free` at the base of a used entry frees exactly that entry's pages and
  -- returns 0; or, where no free region ends at that base and the free table has no unused entry, it
  -- returns -1 and changes nothing.
  pub rgn_free-Outcome :
      (r : ℕ) (r_in : r < length s.reserved_als)
      → (at s.reserved_als r).nof_pages ≢ 0
      → Outcome v r r_in (rgn_free (at s.reserved_als r).base s)
  unfolding rgn_free
  rgn_free-Outcome r r_in used =
      rw (finds_entry r r_in used, rgn_free) (free_index-Outcome v r r_in)

  pub free_index-IsSound : (r : ℕ) → r < length s.reserved_als → IsSound ram (free_index r s).1
  free_index-IsSound r r_in = sound (free_index-Outcome v r r_in)
    where
      sound : {out : ℤ × Rgn} → Outcome v r r_in out → IsSound ram out.1
      sound (freed s' f w) = w
      sound (no_entry a b) = v

  -- At any address, also one never handed out, `rgn_free` keeps the allocator sound.
  pub rgn_free-IsSound : (base : ℕ) → IsSound ram (rgn_free base s).1
  unfolding rgn_free
  rgn_free-IsSound base = elim (Option-cases (reserved_with_base base s)) [
    | inl e ↦ rw (e, rgn_free) v
    | inr (r, e) ↦ rw (e, rgn_free) (free_index-IsSound r (find_index-lt _ s.reserved_als r e))
  ]
