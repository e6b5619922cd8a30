-- ===== src/Mutex/Tests.antt =====
-- Mutexes of gluKe/mutex.c: one named `m` with id 1, held by task 2.
use glu_ke.Base.{◌≡◌, refl, inr, true, some, [], ◌∷◌}
use glu_ke.Base.Find.{find_index}
use glu_ke.Base.Int.{pos}
use glu_ke.Handle.{Mutex, Handles, no_handle, handle_at, type_mutex, handle_by_id}
use glu_ke.Mutex.{mutex_by_hid, lock_wait, handle_by_mutex_name, has_name, str_eq}
use glu_ke.Mutex.Lock.{IsHeld, Try, all_tried, LockedBy, held-exclusive, lock_wait-LockedBy}

abbrev held_once : Mutex
held_once = record { lock_count = 1; usage_count = 1; owner_task_id = pos 2; name = 109 ∷ [] }

abbrev freed_once : Mutex → Mutex
freed_once m = record m { lock_count = 0 }

abbrev kernel_handles : Handles
kernel_handles = record {
  ints = record { inited = true; off_count = 0; enabled = true };
  handles =
      record no_handle { id = pos 1; type = type_mutex; task_id = pos 2; mtx = held_once } ∷ [];
}

abbrev by_two : IsHeld (pos 2) held_once
by_two = record { by = refl; locked = refl }

held-exclusive_example :
    handle_at
      (all_tried (Try.locks (pos 3) (pos 1) ∷ Try.unlocks (pos 4) (pos 1) ∷ []) kernel_handles)
      0
    ≡ handle_at kernel_handles 0
held-exclusive_example =
    held-exclusive (pos 2) 0 (Try.locks (pos 3) (pos 1) ∷ Try.unlocks (pos 4) (pos 1) ∷ [])
      kernel_handles by_two (refl, (refl, tt))

lock_wait-LockedBy_example : LockedBy (pos 3) (lock_wait (pos 3) (freed_once ∷ []) held_once)
lock_wait-LockedBy_example = lock_wait-LockedBy (pos 3) (freed_once ∷ []) held_once refl (inr refl)

by_id : mutex_by_hid (pos 1) kernel_handles ≡ some 0
unfolding mutex_by_hid handle_by_id find_index
by_id = refl

by_name : handle_by_mutex_name (109 ∷ []) kernel_handles ≡ some 0
unfolding handle_by_mutex_name has_name str_eq find_index
by_name = refl
