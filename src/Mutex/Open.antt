-- ===== src/Mutex/Open.antt =====
-- `mutex_open` of gluKe/mutex.c on a name that is open already.
use glu_ke.Base.{
  ℕ, ◌+◌, ◌%◌, ◌^◌, ◌≤◌, ◌≡◌, refl, ap, false, Option, some, List, ltb, arith, length,
  get_or-set_self,
}
use glu_ke.Base.Find.{find_index-lt}
use glu_ke.Base.Int.{ℤ, eq_ℤ}
use glu_ke.Handle.{Mutex, Handle, Handles, handle_at, no_handle, type_mutex}
use glu_ke.Mutex.{
  max_name_length, mutex_open, opened, find_open, handle_by_mutex_name, has_name, mutex_at,
  lock_once, try_lock,
}
use glu_ke.Mutex.Lock.{IsHeld}

-- What is left of the mutex of an open handle.
abbrev reopened : Mutex → Mutex
reopened m = record m { lock_count = 0; usage_count = (m.usage_count + 1) % 2 ^ 32 }

module _ (memory : Option Handle) (owner cur : ℤ) (name : List ℕ) (s : Handles) (i : ℕ)
    (short : length name ≤ max_name_length) (e : handle_by_mutex_name name s ≡ some i) where
  mutex_open-opened : mutex_open memory cur (some name) s ≡ opened i s
  unfolding mutex_open find_open
  mutex_open-opened =
      let l : ltb max_name_length (length name) ≡ false = ground arith in rw (l, e) refl

  mutex_at-opened : mutex_at (opened i s).1 i ≡ reopened (mutex_at s i)
  unfolding opened handle_by_mutex_name
  mutex_at-opened =
      let h : Handle = record (handle_at s i) {
        type = type_mutex;
        mtx = reopened (mutex_at s i);
      } in
      ap (λ (k : Handle). k.mtx)
        (get_or-set_self s.handles i h no_handle (find_index-lt (has_name name) s.handles i e))

  -- Opening a mutex by its name a second time clears its lock: although another task is the owner,
  -- and may hold it, the task that opened it takes it at once.
  pub open_breaks_lock :
      IsHeld owner (mutex_at s i)
      → eq_ℤ owner cur ≡ false
      → let m = mutex_at (mutex_open memory cur (some name) s).1 i in
        (m.lock_count ≡ 0)
        × (m.owner_task_id ≡ owner)
        × (lock_once cur m ≡ some (record m { lock_count = 1; owner_task_id = cur }))
  unfolding lock_once try_lock
  open_breaks_lock held other =
      let a : eq_ℤ (mutex_at s i).owner_task_id cur ≡ false = rw (held.by) other in
      rw (mutex_open-opened, mutex_at-opened) (refl, held.by, rw a refl)
