-- ===== src/Tick/Cases.antt =====
-- Every way in which the start of the timer's task can end (plan_init of gluKe/plan.c).
use glu_ke.Base.{
  ℕ, ◌-◌, ◌^◌, ◌<◌, ◌≡◌, refl, ◌⊎◌, inl, inr, false, Option, some, ◌++◌, [], ◌∷◌, length,
}
use glu_ke.Base.Int.{ok_code, fail_code}
use glu_ke.Int.Idt.{Idt}
use glu_ke.Task.{Task, blank_task, max_task_id, free_descr, task_newk, kone}
use glu_ke.Task.Start.{task_newk-cases}
use glu_ke.Tick.{Clock, int_timer, plan_init, int_init_timer_task}
use glu_ke.Tick.Setup.{Ready, plan_init-Ready}

module _ {D : Type 0} (tick reg page_cat entry : ℕ) (idt : Idt) (c : Clock D) where
  -- Without a task for the timer plan_init fails.
  plan_init-fails :
      (memory : Option ℕ)
      → (task_newk page_cat memory entry false (kone c.kernel)).0 ≡ fail_code
      → (plan_init tick reg page_cat memory entry idt c).0 ≡ fail_code
  unfolding plan_init int_init_timer_task
  plan_init-fails memory e = rw (plan_init, e) refl

  -- Where plan_init does not fail, the timer's task is ready.
  pub plan_init-cases :
      (memory : Option ℕ)
      → max_task_id (c.kernel.tasks ++ (blank_task ∷ [])) 0 < 2 ^ 31 - 1
      → int_timer < length idt.gates
      → let out = plan_init tick reg page_cat memory entry idt c in
        (out.0 ≡ fail_code)
        ⊎ ((address g : ℕ) × (descr : free_descr c.kernel.gdt ≡ some g) × (t : Task) × (out.0
              ≡ ok_code)
            × Ready tick reg page_cat address entry idt c g descr t out.1 out.2)
  plan_init-cases memory small has =
      elim (task_newk-cases page_cat memory entry false (kone c.kernel) small) [
        | inl fails ↦ inl (plan_init-fails memory fails)
        | inr made ↦
            let r =
              plan_init-Ready tick reg page_cat made.0 entry idt c made.1 made.2 small made.7 has in
            rw (made.6, r.3) (inr (made.0, made.1, made.2, r.0, refl, r.4))
      ]
