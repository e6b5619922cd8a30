-- ===== src/Task/Kill.antt =====
-- What `task_kill` of gluKe/task.c gives back: the task's handles, its pages, its descriptor and its
-- place in the list.
use glu_ke.Base.{
  ℕ, ◌≡◌, refl, ap, inl, inr, ◌⊎◌, ◌<◌, true, false, some, arith, Bool-cases, set, replicate,
}
use glu_ke.Base.Int.{ℤ, pos, negsuc, eq_ℤ, ok_code}
use glu_ke.Rgn.{max_nof_als, at, is_of_task, rgn_free_task_memory}
use glu_ke.Rgn.Invariant.{IsSound}
use glu_ke.Rgn.Task.{rgn_free_task_memory-Cleaned}
use glu_ke.Handle.{File, handle_close_task_handles, one}
use glu_ke.Handle.Close.{others, files_of, close_all, handle_close_task_handles-others}
use glu_ke.Task.{
  Kernel, task_at, kone, kall, task_get_by_id, remove_task, destroy_task_struct, Ended, bury,
  task_kill,
}

is_ok : (e : ℤ) → eq_ℤ e ok_code ≡ true → e ≡ ok_code
is_ok (pos n) h = let e : n ≡ 0 = ground arith in ap pos e
is_ok (negsuc n) h = cc

module _ {D : Type 0} (close_file : File → D → D) where
  -- The kernel `k'` is `k` without task `task_id`, which was at index `i`.
  pub record Buried (ram : ℕ) (task_id : ℤ) (i : ℕ) (k k' : Kernel D) : Type 0 where
    pub sound : IsSound ram k'.rgn
    pub no_region :
        (r : ℕ) → r < max_nof_als → is_of_task task_id (at k'.rgn.reserved_als r) ≡ false
    pub regions_kept :
        (r : ℕ)
        → is_of_task task_id (at k.rgn.reserved_als r) ≡ false
        → at k'.rgn.reserved_als r ≡ at k.rgn.reserved_als r
    pub handles_left : k'.handles.handles ≡ others task_id k.handles.handles
    pub files_closed :
        k'.devices ≡ close_all close_file (files_of task_id k.handles.handles) k.devices
    pub tasks_left : k'.tasks ≡ remove_task k.tasks i
    pub descr_free : k'.gdt ≡ set k.gdt (task_at k.tasks i).gdt_tss_descr (replicate 8 0)
    pub from_first : k'.last_planned ≡ 0

  module _ (ram : ℕ) (task_id : ℤ) (i : ℕ) (k : Kernel D) where
    -- The kernel that `bury` leaves when all memory could be given back.
    buried : Kernel D
    unfolding destroy_task_struct
    buried =
        let closed = handle_close_task_handles close_file task_id (one k.handles) k.devices in
        kall
          (record (destroy_task_struct i
            (record (kone k) { handles = closed.1; devices = closed.2 })) {
              rgn = (rgn_free_task_memory task_id k.rgn).1;
              last_planned = 0;
            })

    buried-Buried :
        IsSound ram k.rgn
        → ((rgn_free_task_memory task_id k.rgn).0 ≡ ok_code)
        → Buried ram task_id i k buried
    unfolding buried destroy_task_struct
    buried-Buried v e =
        let c = rgn_free_task_memory-Cleaned task_id k.rgn v in
        let h = handle_close_task_handles-others close_file task_id (one k.handles) k.devices in
        record {
          sound = c.sound;
          no_region = c.cleared e;
          regions_kept = c.kept;
          handles_left = h.1;
          files_closed = h.3;
          tasks_left = refl;
          descr_free = refl;
          from_first = refl;
        }

    bury-buried :
        (rgn_free_task_memory task_id k.rgn).0 ≡ ok_code
        → bury close_file task_id i (kone k) ≡ Ended.returns ok_code buried
    unfolding bury buried destroy_task_struct
    bury-buried e =
        let h = handle_close_task_handles-others close_file task_id (one k.handles) k.devices in
        rw (h.0, e) refl

    bury-dies :
        eq_ℤ (rgn_free_task_memory task_id k.rgn).0 ok_code ≡ false
        → bury close_file task_id i (kone k) ≡ Ended.dies
    unfolding bury destroy_task_struct
    bury-dies e =
        let h = handle_close_task_handles-others close_file task_id (one k.handles) k.devices in
        rw (h.0, e) refl

    -- In a kernel with a sound allocator, `task_kill` of a task other than the first that is in the
    -- list either ends the kernel, because some of the task's memory could not be given back, or
    -- returns 0 and leaves the kernel without the task: its handles, its regions, its descriptor and
    -- its place in the list are gone, and all other handles, regions, descriptors and tasks are kept.
    pub task_kill-Buried :
        IsSound ram k.rgn
        → eq_ℤ task_id k.first_task_id ≡ false
        → task_get_by_id task_id k.tasks ≡ some i
        → ((eq_ℤ (rgn_free_task_memory task_id k.rgn).0 ok_code ≡ false)
            × (task_kill close_file task_id k ≡ Ended.dies))
          ⊎ ((k' : Kernel D) × (task_kill close_file task_id k ≡ Ended.returns ok_code k')
              × Buried ram task_id i k k')
    unfolding task_kill
    task_kill-Buried v other e =
        elim (Bool-cases (eq_ℤ (rgn_free_task_memory task_id k.rgn).0 ok_code)) [
          | inr failed ↦ inl (failed, rw (other, e) (bury-dies failed))
          | inl freed ↦
              let code = is_ok (rgn_free_task_memory task_id k.rgn).0 freed in
              inr (buried, rw (other, e) (bury-buried code), buried-Buried v code)
        ]
