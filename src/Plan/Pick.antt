-- ===== src/Plan/Pick.antt =====
-- The round that the scheduler of gluKe/plan.c makes to find the next task.
use glu_ke.Base.{
  ℕ, zero, suc, ◌+◌, ◌-◌, ◌≤◌, ◌<◌, ◌≡◌, refl, ◌⊎◌, inl, inr, true, false, Option, some, List, ltb,
  ◌==◌, if◌then◌else◌, length, arith, Bool-cases,
}
use native.Mathlib.Decide.{ℕ_discrete}
use glu_ke.Plan.{Sched, task_at, next_loop, pick_loop, runnable}

-- The task `k` places behind `last`, going round once.
abbrev pub behind : ℕ → ℕ → ℕ → ℕ
behind n last k = if ltb (last + k) n then last + k else last + k - n

module _ (ts : List Sched) (last : ℕ) (in_list : last < length ts) where
  abbrev n : ℕ
  n = length ts

  next-behind : (k : ℕ) → k < n → next_loop n (behind n last k) ≡ behind n last (suc k)
  unfolding next_loop
  next-behind k h = ground arith

  last-behind : (k : ℕ) → k < n → (behind n last (suc k) == last) ≡ (suc k == n)
  last-behind k h = ground arith

  -- The loop stops `m` places behind `last`, at the first runnable task, or at `last` itself if
  -- there is none.
  pub record Picked (r : Option ℕ) : Type 0 where
    pub m : ℕ
    pub positive : 0 < m
    pub once_round : m ≤ n
    pub stops : r ≡ some (behind n last m)
    pub skipped : (j : ℕ) → 0 < j → j < m → runnable (task_at ts (behind n last j)) ≡ false
    pub reason : (runnable (task_at ts (behind n last m)) ≡ true) ⊎ (m ≡ n)

  pub pick_loop-Picked :
      (fuel k : ℕ)
      → k + fuel ≡ n
      → 0 < fuel
      → ((j : ℕ) → 0 < j → j ≤ k → runnable (task_at ts (behind n last j)) ≡ false)
      → Picked (pick_loop fuel ts last (behind n last k))
  unfolding pick_loop
  pick_loop-Picked zero k e h none_yet = absurd (omega arith)
  pick_loop-Picked (suc fuel) k e h none_yet =
      let step = next-behind k (omega arith) in
      let at_last = last-behind k (omega arith) in
      elim (Bool-cases (runnable (task_at ts (behind n last (suc k))))) [
        | inl run ↦ record {
          m = suc k;
          positive = omega arith;
          once_round = omega arith;
          stops = rw (pick_loop, step, run) refl;
          skipped = λ j a b. none_yet j a (omega arith);
          reason = inl run;
        }
        | inr idle ↦ elim (Bool-cases (suc k == n)) [
          | inl end ↦ record {
            m = suc k;
            positive = omega arith;
            once_round = omega arith;
            stops = rw (pick_loop, step, idle, at_last, end) refl;
            skipped = λ j a b. none_yet j a (omega arith);
            reason = inr (ground arith);
          }
          | inr go_on ↦
              let ih = pick_loop-Picked fuel (suc k) (omega arith) (ground arith) (λ j a b.
                elim (ℕ_discrete j (suc k)) [
                  | yes same ↦ rw same idle
                  | no d ↦ none_yet j a (omega arith)
                ]) in
              let same : pick_loop (suc fuel) ts last (behind n last k)
                  ≡ pick_loop fuel ts last (behind n last (suc k)) =
                rw (pick_loop, step, idle, at_last, go_on) refl in
              rw same ih
        ]
      ]
