-- ===== src/Plan/Tests.antt =====
-- Rounds of the scheduler of gluKe/plan.c over three tasks.
use glu_ke.Base.{ℕ, zero, suc, ◌<◌, ◌≤◌, ◌≡◌, refl, true, false, List, [], ◌∷◌, map, arith, length}
use glu_ke.Base.Int.{pos}
use glu_ke.Plan.{Sched, age, task_at, runnable}
use glu_ke.Plan.Pick.{behind}

abbrev three : List Sched
three =
    record { id = pos 1; plan = true; sleep_mksec = 0 }
    ∷ record { id = pos 2; plan = false; sleep_mksec = 0 }
    ∷ record { id = pos 3; plan = true; sleep_mksec = 500 }
    ∷ []

third_wakes : runnable (task_at (map (age 1000) three) (behind 3 0 2)) ≡ true
unfolding age
third_wakes = refl

abbrev one_asleep : List Sched
one_asleep = record { id = pos 1; plan = true; sleep_mksec = 5000 } ∷ []

none_runnable :
    (k : ℕ)
    → 0 < k
    → k ≤ length one_asleep
    → runnable (task_at (map (age 1000) one_asleep) (behind 1 0 k)) ≡ false
unfolding age
none_runnable zero lo hi = absurd (omega arith)
none_runnable (suc k) lo hi = let z : k ≡ 0 = omega arith in rw z refl

planned : (task_at (map (age 1000) one_asleep) 0).plan ≡ true
unfolding age
planned = refl
