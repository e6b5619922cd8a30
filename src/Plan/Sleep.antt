-- ===== src/Plan/Sleep.antt =====
-- The first loop of the scheduler of gluKe/plan.c: each task's sleep gets shorter, once.
use native.Mathlib.Decide.{ℕ_discrete}
use glu_ke.Base.{
  ℕ, zero, suc, ◌+◌, ◌≤◌, ◌<◌, ◌≡◌, refl, sym, ap, ◌∙◌, inl, inr, false, some, List, ltb, ◌==◌,
  length, set, map, arith, Bool-cases, length-set, get_or-set_self, get_or-set_ne, get_or-ext,
  get_or-map, length-map,
}
use glu_ke.Plan.{Sched, no_task, task_at, next_loop, age, age_loop}

module _ (tick : ℕ) (ts : List Sched) where
  -- The tasks after the rounds at 1 … `k`.
  record Aged (k : ℕ) (us : List Sched) : Type 0 where
    len : length us ≡ length ts
    older : (j : ℕ) → 0 < j → j ≤ k → task_at us j ≡ age tick (task_at ts j)
    first : task_at us 0 ≡ task_at ts 0
    later : (j : ℕ) → k < j → task_at us j ≡ task_at ts j

  module _ (k : ℕ) (us : List Sched) (a : Aged k us) where
    age_at : ℕ → List Sched
    age_at i = set us i (age tick (task_at us i))

    next-Aged : k + 1 < length ts → Aged (suc k) (age_at (k + 1))
    unfolding age_at
    next-Aged h =
        let i_in : k + 1 < length us = omega (arith, a.len) in
        record {
          len = length-set us (k + 1) (age tick (task_at us (k + 1))) ∙ a.len;
          older = λ j lo hi. elim (ℕ_discrete j (k + 1)) [
            | yes e ↦ rw e (
                get_or-set_self us (k + 1) (age tick (task_at us (k + 1))) no_task i_in
                ∙ ap (age tick) (a.later (k + 1) (omega arith)))
            | no d ↦
                get_or-set_ne us (k + 1) j (age tick (task_at us (k + 1))) no_task
                  (λ e. d (omega arith))
                ∙ a.older j lo (omega arith)
          ];
          first =
              get_or-set_ne us (k + 1) 0 (age tick (task_at us (k + 1))) no_task (omega arith)
              ∙ a.first;
          later = λ j lt.
              get_or-set_ne us (k + 1) j (age tick (task_at us (k + 1))) no_task (omega arith)
              ∙ a.later j (omega arith);
        }

    last-map : suc k ≡ length ts → age_at 0 ≡ map (age tick) ts
    unfolding age_at
    last-map e =
        get_or-ext (set us 0 (age tick (task_at us 0))) (map (age tick) ts) no_task
          (length-set us 0 (age tick (task_at us 0)) ∙ (a.len ∙ sym (length-map (age tick) ts)))
          λ j lt.
            let j_in : j < length ts =
              omega (arith, length-set us 0 (age tick (task_at us 0)), a.len) in
            elim (ℕ_discrete j 0) [
              | yes z ↦ rw z (
                  get_or-set_self us 0 (age tick (task_at us 0)) no_task (omega (arith, a.len))
                  ∙ (ap (age tick) a.first
                      ∙ sym (get_or-map (age tick) ts 0 no_task no_task (omega arith))))
              | no d ↦
                  get_or-set_ne us 0 j (age tick (task_at us 0)) no_task (λ e. d (omega arith))
                  ∙ (a.older j (omega arith) (omega arith)
                      ∙ sym (get_or-map (age tick) ts j no_task no_task j_in))
            ]

  age_loop-Aged :
      (fuel k : ℕ) (us : List Sched)
      → k + fuel ≡ length ts
      → 0 < fuel
      → Aged k us
      → age_loop fuel tick k us ≡ some (map (age tick) ts)
  unfolding age_loop next_loop age_at
  age_loop-Aged zero k us e h a = absurd (omega arith)
  age_loop-Aged (suc fuel) k us e h a = elim (Bool-cases (ltb (k + 1) (length us))) [
    | inl more ↦
        let nz : (k + 1 == 0) ≡ false = ground arith in
        let s : k + 1 ≡ suc k = omega arith in
        rw (age_loop, more, nz)
          (rw s (
            age_loop-Aged fuel (suc k) (set us (suc k) (age tick (task_at us (suc k))))
              (omega arith) (ground (arith, a.len))
              (rw s at (next-Aged k us a (ground (arith, a.len))))))
    | inr end ↦ rw (age_loop, end) (ap some (last-map k us a (ground (arith, a.len))))
  ]

  -- With a round for each task the loop ends, and each task has aged once.
  pub age_loop-map : 0 < length ts → age_loop (length ts) tick 0 ts ≡ some (map (age tick) ts)
  age_loop-map h = age_loop-Aged (length ts) 0 ts (omega arith) h (record {
    len = refl;
    older = λ j lo hi. absurd (omega arith);
    first = refl;
    later = λ j lt. refl;
  })
