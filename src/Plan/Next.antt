-- ===== src/Plan/Next.antt =====
-- The task that the scheduler of gluKe/plan.c runs next.
use native.Mathlib.Decide.{dec_lt}
use glu_ke.Base.{
  ℕ, ◌≤◌, ◌<◌, ◌≡◌, ◌≢◌, refl, ap, ◌∙◌, ◌⊎◌, inl, inr, Bool, true, false, some, List, length, map,
  length-map, arith,
}
use glu_ke.Plan.{Sched, task_at, age, plan, pick_loop, runnable, or_idle}
use glu_ke.Plan.Pick.{behind, Picked, pick_loop-Picked}
use glu_ke.Plan.Sleep.{age_loop-map}

module _ (tick : ℕ) (ts : List Sched) (last : ℕ) (in_list : last < length ts) where
  -- The tasks with their sleeps after the tick.
  abbrev pub aged : List Sched
  aged = map (age tick) ts

  aged_len : length aged ≡ length ts
  aged_len = length-map (age tick) ts

  last_in : last < length aged
  last_in = omega (arith, aged_len)

  picked : Picked aged last last_in (pick_loop (length aged) aged last last)
  picked =
      let z : behind (length aged) last 0 ≡ last = ground (arith, aged_len) in
      rw z at (
        pick_loop-Picked aged last last_in (length aged) 0 (omega arith) (omega (arith, last_in))
          (λ j a b. absurd (omega arith)))

  plan-picked : plan tick ts last ≡ some (aged, or_idle aged (behind (length aged) last (picked.m)))
  unfolding plan
  plan-picked = rw (age_loop-map tick ts (omega arith), plan, picked.stops) refl

  abbrev pub task_behind : ℕ → ℕ
  task_behind k = behind (length aged) last k

  idle_ends :
      (k : ℕ)
      → 0 < k
      → k ≤ length aged
      → runnable (task_at aged (task_behind k)) ≡ true
      → (picked.m ≤ k) × (runnable (task_at aged (task_behind picked.m)) ≡ true)
  idle_ends k lo hi run = elim (dec_lt k picked.m) [
    | yes h ↦ absurd (clash (picked.skipped k lo h) run)
    | no h ↦ (omega arith, reached (omega arith) picked.reason)
  ]
    where
      clash : {b : Bool} → b ≡ false → b ≡ true → ⊥
      clash p q = cc

      reached :
          picked.m ≤ k
          → ((runnable (task_at aged (task_behind picked.m)) ≡ true) ⊎ (picked.m ≡ length aged))
          → runnable (task_at aged (task_behind picked.m)) ≡ true
      reached le (inl r) = r
      reached le (inr e) = let k_last : k ≡ picked.m = omega (arith, e) in rw (← k_last) run

  -- If some task can run, the scheduler returns, has made each task's sleep a tick shorter, and runs
  -- the first task behind the last one, in the order of the list and round its end, that is planned
  -- and does not sleep.
  pub plan_runs_next :
      (k : ℕ)
      → 0 < k
      → k ≤ length ts
      → runnable (task_at aged (task_behind k)) ≡ true
      → (m : ℕ) × (0 < m)
        × (m ≤ k)
        × (plan tick ts last ≡ some (aged, task_behind m))
        × (runnable (task_at aged (task_behind m)) ≡ true)
        × ((j : ℕ) → 0 < j → j < m → runnable (task_at aged (task_behind j)) ≡ false)
  unfolding or_idle
  plan_runs_next k lo hi run =
      let s = idle_ends k lo (omega (arith, aged_len)) run in
      let planned : (task_at aged (task_behind picked.m)).plan ≡ true = ground (arith, s.1) in
      (
        picked.m,
        picked.positive,
        s.0,
        plan-picked ∙ ap (λ (i : ℕ). some (aged, i)) (rw planned refl),
        s.1,
        picked.skipped,
      )

  -- If no task can run but the last one is planned, the scheduler runs it again although it sleeps.
  pub plan_runs_sleeper :
      ((k : ℕ) → 0 < k → k ≤ length ts → runnable (task_at aged (task_behind k)) ≡ false)
      → (task_at aged last).plan ≡ true
      → (plan tick ts last ≡ some (aged, last)) × ((task_at aged last).sleep_mksec ≢ 0)
  unfolding or_idle
  plan_runs_sleeper idle planned =
      let m_last : picked.m ≡ length aged = whole_round picked.reason in
      let back : task_behind picked.m ≡ last = rw m_last (ground (arith, last_in)) in
      (
        plan-picked ∙ ap (λ (i : ℕ). some (aged, i)) (rw (back, planned) refl),
        asleep (idle picked.m picked.positive (omega (arith, m_last, aged_len))) back,
      )
    where
      whole_round :
          ((runnable (task_at aged (task_behind picked.m)) ≡ true) ⊎ (picked.m ≡ length aged))
          → picked.m ≡ length aged
      whole_round (inl r) =
          absurd
            (clash (idle picked.m picked.positive (omega (arith, picked.once_round, aged_len))) r)
        where
          clash : {b : Bool} → b ≡ false → b ≡ true → ⊥
          clash p q = cc
      whole_round (inr e) = e

      asleep :
          runnable (task_at aged (task_behind picked.m)) ≡ false
          → task_behind picked.m ≡ last
          → (task_at aged last).sleep_mksec ≢ 0
      asleep r b = let r' : runnable (task_at aged last) ≡ false = rw (← b) r in ground arith
