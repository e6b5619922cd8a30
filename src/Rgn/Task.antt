-- ===== src/Rgn/Task.antt =====
-- rgn_free_task_memory of gluKe/rgn.c: all the regions of a task that ends.
use glu_ke.Base.{
  ℕ, zero, suc, ◌+◌, ◌<◌, ◌≡◌, ◌≢◌, refl, inl, inr, true, false, arith, if◌then◌else◌, length,
  get_or-set_ne, get_or-set_self, Bool-cases, ◌∙◌,
}
use native.Mathlib.Decide.{ℕ_discrete}
use glu_ke.Base.Int.{ℤ, eq_ℤ, ok_code, fail_code}
use glu_ke.Rgn.{
  Rgn, max_nof_als, unused, at, free_index, is_of_task, free_task_step, free_task_loop,
  rgn_free_task_memory,
}
use glu_ke.Rgn.Invariant.{IsSound}
use glu_ke.Rgn.Emptied.{emptied}
use glu_ke.Rgn.Free.{Outcome, freed, no_entry, free_index-Outcome}

-- What the loop has done to the state `s` after the entries below `i`.
pub record Cleaned (ram : ℕ) (task_id : ℤ) (s : Rgn) (i : ℕ) (out : ℤ × Rgn) : Type 0 where
  pub sound : IsSound ram out.1
  -- Entries of other tasks are as they were.
  pub kept :
      (k : ℕ)
      → is_of_task task_id (at s.reserved_als k) ≡ false
      → at out.1.reserved_als k ≡ at s.reserved_als k
  -- If no call failed, no entry below `i` is the task's.
  pub cleared :
      out.0 ≡ ok_code → (k : ℕ) → k < i → is_of_task task_id (at out.1.reserved_als k) ≡ false

module _ {ram : ℕ} (task_id : ℤ) (s : Rgn) where
  module _ (i : ℕ) (ret : ℤ) (t : Rgn) (c : Cleaned ram task_id s i (ret, t)) where
    skip-Cleaned :
        is_of_task task_id (at t.reserved_als i) ≡ false → Cleaned ram task_id s (suc i) (ret, t)
    skip-Cleaned other = record {
      sound = c.sound;
      kept = c.kept;
      cleared = λ e k lt. elim (ℕ_discrete k i) [
        | yes same ↦ rw same other
        | no d ↦ c.cleared e k (omega arith)
      ];
    }

    emptied-not_task :
        (r : ℕ)
        → r < length t.reserved_als
        → is_of_task task_id (at (emptied t.reserved_als r) r) ≡ false
    unfolding is_of_task
    emptied-not_task r r_in = rw (
        get_or-set_self t.reserved_als r (record (at t.reserved_als r) { nof_pages = 0 }) unused
          r_in)

    free-Cleaned :
        is_of_task task_id (at t.reserved_als i) ≡ true
        → (i_in : i < length t.reserved_als) → (out : ℤ × Rgn) → Outcome c.sound i i_in out
        → Cleaned ram task_id s (suc i) (if eq_ℤ out.0 ok_code then ret else fail_code, out.1)
    free-Cleaned mine i_in out (freed s' f w) = record {
      sound = w;
      kept = λ k other.
          let ne : i ≢ k = λ e. cc (c.kept k other) in
          rw (f.entry) (get_or-set_ne t.reserved_als i k _ unused ne ∙ c.kept k other);
      cleared = λ e k lt. elim (ℕ_discrete k i) [
        | yes same ↦ rw (f.entry, same) (emptied-not_task i i_in)
        | no d ↦
            rw
              (
                f.entry,
                get_or-set_ne t.reserved_als i k (record (at t.reserved_als i) { nof_pages = 0 })
                    unused (λ x. d (omega arith)),
              )
              (c.cleared e k (omega arith))
      ];
    }
    free-Cleaned mine i_in out (no_entry a b) = record {
      sound = c.sound;
      kept = c.kept;
      cleared = λ e k lt. cc;
    }

    step-Cleaned :
        i < max_nof_als → Cleaned ram task_id s (suc i) (free_task_step task_id i (ret, t))
    unfolding free_task_step
    step-Cleaned lt = elim (Bool-cases (is_of_task task_id (at t.reserved_als i))) [
      | inr other ↦ rw other (skip-Cleaned other)
      | inl mine ↦
          let i_in : i < length t.reserved_als = omega (arith, c.sound.reserved_len) in
          rw mine (free-Cleaned mine i_in (free_index i t) (free_index-Outcome c.sound i i_in))
    ]

  loop-Cleaned :
      (n i : ℕ) (out : ℤ × Rgn)
      → i + n ≡ max_nof_als
      → Cleaned ram task_id s i out
      → Cleaned ram task_id s max_nof_als (free_task_loop task_id n i out)
  unfolding free_task_loop
  loop-Cleaned zero i out e c = let e' : i ≡ max_nof_als = omega arith in rw (← e') c
  loop-Cleaned (suc n) i out e c =
      loop-Cleaned n (suc i) (free_task_step task_id i out) (omega arith)
        (step-Cleaned i out.0 out.1 c (omega arith))

  -- In a sound allocator `rgn_free_task_memory` leaves the regions of all other tasks as they were
  -- and keeps the allocator sound; where it reports success the task has no region left.
  pub rgn_free_task_memory-Cleaned :
      IsSound ram s → Cleaned ram task_id s max_nof_als (rgn_free_task_memory task_id s)
  unfolding rgn_free_task_memory
  rgn_free_task_memory-Cleaned v =
      loop-Cleaned max_nof_als 0 (ok_code, s) (omega arith)
        (record { sound = v; kept = λ k e. refl; cleared = λ e k lt. absurd (omega arith) })
