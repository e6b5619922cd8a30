-- ===== src/Boot/SameTasks.antt =====
-- What printing and the drivers leave of the tasks (gluKe/entry32.c).
use glu_ke.Base.{ℕ, ◌≡◌, refl, ◌∙◌, inl, inr, false, List, [], ◌∷◌, Bool-cases}
use glu_ke.Base.Int.{ℤ, pos, ok_code, eq_ℤ}
use glu_ke.File.{Driver}
use glu_ke.Task.{Task, Kernel}
use glu_ke.Task.Start.{Begun}
use glu_ke.Boot.Finish.{Init, say, drv_init}

module _ {D : Type 0} where
  -- The first task and the killer, alone.
  pub record HasTwo (killer : ℕ) (k : Kernel D) : Type 0 where
    pub first : Task
    pub last : Task
    pub tasks : k.tasks ≡ first ∷ last ∷ []
    pub first_id : first.id ≡ pos 1
    pub last_id : last.id ≡ pos 2
    pub first_known : k.first_task_id ≡ first.id
    pub killer_known : k.killer_task_id ≡ last.id
    pub unplanned : last.plan ≡ false
    pub starts : last.tss.eip ≡ killer

  pub Begun-HasTwo :
      (page_cat killer : ℕ) (k k' : Kernel D) → Begun page_cat killer k k' → HasTwo killer k'
  Begun-HasTwo page_cat killer k k' b = record {
    first = b.first;
    last = b.last;
    tasks = b.tasks;
    first_id = b.first_id;
    last_id = b.killer_id;
    first_known = b.first_known;
    killer_known = b.killer_known;
    unplanned = b.killer_unplanned;
    starts = b.killer_starts;
  }

  -- Files, devices and memory are not the tasks.
  pub HasTwo-move :
      (killer : ℕ) (k k' : Kernel D)
      → k'.tasks ≡ k.tasks
      → k'.first_task_id ≡ k.first_task_id
      → k'.killer_task_id ≡ k.killer_task_id
      → HasTwo killer k
      → HasTwo killer k'
  HasTwo-move killer k k' ts f l t = record {
    first = t.first;
    last = t.last;
    tasks = ts ∙ t.tasks;
    first_id = t.first_id;
    last_id = t.last_id;
    first_known = f ∙ t.first_known;
    killer_known = l ∙ t.killer_known;
    unplanned = t.unplanned;
    starts = t.starts;
  }

  -- What stays of the kernel where something is printed or a driver starts.
  pub record SameTasks (k k' : Kernel D) : Type 0 where
    pub tasks : k'.tasks ≡ k.tasks
    pub first : k'.first_task_id ≡ k.first_task_id
    pub killer : k'.killer_task_id ≡ k.killer_task_id
    pub last : k'.last_planned ≡ k.last_planned

  pub say-SameTasks :
      (ds : List (Driver D)) (kfile : ℤ) (texts : List (List ℕ)) (k : Kernel D)
      → SameTasks k (say ds kfile texts k)
  unfolding say
  say-SameTasks ds kfile [] k = record { tasks = refl; first = refl; killer = refl; last = refl }
  say-SameTasks ds kfile (s ∷ texts) k =
      let r = say-SameTasks ds kfile texts _ in
      record { tasks = r.tasks; first = r.first; killer = r.killer; last = r.last }

  pub drv_init-SameTasks :
      (cur : ℤ) (inits : List (Init D)) (k : Kernel D) → SameTasks k (drv_init cur inits k).1
  unfolding drv_init
  drv_init-SameTasks cur [] k = record { tasks = refl; first = refl; killer = refl; last = refl }
  drv_init-SameTasks cur (init ∷ inits) k =
      let k' : Kernel D = record k {
        devices = (init cur k.devices k.rgn).1;
        rgn = (init cur k.devices k.rgn).2;
      } in
      let r = drv_init-SameTasks cur inits k' in
      elim (Bool-cases (eq_ℤ (init cur k.devices k.rgn).0 ok_code)) [
        | inl done ↦
            rw (drv_init, done)
              (record { tasks = r.tasks; first = r.first; killer = r.killer; last = r.last })
        | inr fails ↦
            rw (drv_init, fails) (record { tasks = refl; first = refl; killer = refl; last = refl })
      ]

  pub HasTwo-same :
      (killer : ℕ) (k k' : Kernel D) → SameTasks k k' → HasTwo killer k → HasTwo killer k'
  HasTwo-same killer k k' s t = HasTwo-move killer k k' s.tasks s.first s.killer t
