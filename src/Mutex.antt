-- ===== src/Mutex.antt =====
-- gluKe/mutex.c: named mutexes on the list of handles. A pointer to a mutex is the index of its
-- handle. Between two attempts of a blocking lock the task sleeps and others run; what they do to
-- the mutex in the meantime is an argument.
pub mod Lock
pub mod Open
mod Tests
use glu_ke.Base.{
  ℕ, zero, suc, ◌+◌, ◌-◌, ◌%◌, ◌^◌, Bool, true, false, ◌&&◌, Option, none, some, List, [], ◌∷◌, ltb,
  ◌==◌, if◌then◌else◌, length, get_or, set,
}
use glu_ke.Base.Find.{find_index}
use glu_ke.Base.Int.{ℤ, pos, eq_ℤ, ok_code, fail_code}
use glu_ke.Handle.{
  Mutex, Handle, Handles, handle_at, one, all, type_mutex, handle_by_id, handle_open,
  handle_remove_id,
}

abbrev pub max_name_length : ℕ
max_name_length = 0x20

-- `kstrcmp(a, b) == 0`
unfoldable pub str_eq : List ℕ → List ℕ → Bool
str_eq [] [] = true
str_eq [] (b ∷ t) = false
str_eq (a ∷ s) [] = false
str_eq (a ∷ s) (b ∷ t) = a == b && str_eq s t

abbrev pub update : ℕ → Handle → Handles → Handles
update i h s = record s { handles = set s.handles i h }

abbrev pub mutex_at : Handles → ℕ → Mutex
mutex_at s i = (handle_at s i).mtx

abbrev pub set_mutex : ℕ → Mutex → Handles → Handles
set_mutex i m s = update i (record (handle_at s i) { mtx = m }) s

-- st_mutex_by_hid: the first handle with the id, if it is a mutex.
pub mutex_by_hid : ℤ → Handles → Option ℕ
unfolding handle_by_id
mutex_by_hid hid s = elim (handle_by_id hid s.handles) [
  | none ↦ none
  | some i ↦ if (handle_at s i).type == type_mutex then some i else none
]

-- st_handle_by_mutex_name
pub has_name : List ℕ → Handle → Bool
unfolding str_eq
has_name name h = h.type == type_mutex && str_eq name h.mtx.name

pub handle_by_mutex_name : List ℕ → Handles → Option ℕ
unfolding has_name
handle_by_mutex_name name s = find_index (has_name name) s.handles

-- The end of `mutex_open`, for a new handle and for one that is open already.
pub opened : ℕ → Handles → ℤ × Handles
opened i s =
    let h = handle_at s i in
    let m = record h.mtx { lock_count = 0; usage_count = (h.mtx.usage_count + 1) % 2 ^ 32 } in
    (h.id, update i (record h { type = type_mutex; mtx = m }) s)

abbrev pub name_of : Option (List ℕ) → List ℕ
name_of none = []
name_of (some n) = n

open_new : Option Handle → ℤ → List ℕ → Handles → ℤ × Handles
unfolding handle_open opened
open_new memory cur name s = elim (handle_open memory cur s).0 [
  | none ↦ (fail_code, (handle_open memory cur s).1)
  | some i ↦
      let s' = (handle_open memory cur s).1 in
      opened i (set_mutex i (record (mutex_at s' i) { usage_count = 0; name = name }) s')
]

pub find_open : Option (List ℕ) → Handles → Option ℕ
unfolding handle_by_mutex_name
find_open none s = none
find_open (some n) s = handle_by_mutex_name n s

pub mutex_open : Option Handle → ℤ → Option (List ℕ) → Handles → ℤ × Handles
unfolding open_new opened find_open
mutex_open memory cur name s =
    if ltb max_name_length (length (name_of name))
    then (fail_code, s)
    else elim (find_open name s) [
      | none ↦ open_new memory cur (name_of name) s
      | some i ↦ opened i s
    ]

-- One round of the loop of `st_mutex_lock`; `none` if the mutex is taken.
pub try_lock : ℤ → Mutex → Option Mutex
try_lock cur m =
    if m.lock_count == 0 then some (record m { lock_count = 1; owner_task_id = cur }) else none

pub relock : Mutex → Mutex
relock m = record m { lock_count = (m.lock_count + 1) % 2 ^ 32 }

-- st_mutex_lock with `block` 0, on the mutex
pub lock_once : ℤ → Mutex → Option Mutex
unfolding try_lock relock
lock_once cur m = if eq_ℤ m.owner_task_id cur then some (relock m) else try_lock cur m

-- The loop with `block` 1; each element of the list is what others do during one sleep. `none`: the
-- task still waits when the list is used up.
pub lock_loop : ℤ → List (Mutex → Mutex) → Mutex → Option Mutex
unfolding try_lock
lock_loop cur [] m = try_lock cur m
lock_loop cur (others ∷ later) m =
    let rest = lock_loop cur later (others m) in
    elim (try_lock cur m) [ some m' ↦ some m' | none ↦ rest ]

pub lock_wait : ℤ → List (Mutex → Mutex) → Mutex → Option Mutex
unfolding lock_loop relock
lock_wait cur sleeps m =
    if eq_ℤ m.owner_task_id cur then some (relock m) else lock_loop cur sleeps m

pub mutex_lock_nb : ℤ → ℤ → Handles → ℤ × Handles
unfolding mutex_by_hid lock_once
mutex_lock_nb cur hid s = elim (mutex_by_hid hid s) [
  | none ↦ (fail_code, s)
  | some i ↦ elim (lock_once cur (mutex_at s i)) [
    | none ↦ (fail_code, all (one s))
    | some m ↦
        (ok_code, set_mutex i m (if eq_ℤ (mutex_at s i).owner_task_id cur then s else all (one s)))
  ]
]

-- A word above 0 as an `int`
abbrev pub positive : ℕ → Bool
positive n = ltb 0 n && ltb n (2 ^ 31)

pub unlock : Mutex → Mutex
unlock m = record m {
  lock_count = if positive m.lock_count then m.lock_count - 1 else m.lock_count;
}

pub mutex_release : ℤ → ℤ → Handles → ℤ × Handles
unfolding mutex_by_hid unlock
mutex_release cur hid s = elim (mutex_by_hid hid s) [
  | none ↦ (fail_code, s)
  | some i ↦
      if eq_ℤ (mutex_at s i).owner_task_id cur
      then (ok_code, all (set_mutex i (unlock (mutex_at s i)) (one s)))
      else (fail_code, all (one s))
]

pub mutex_close : ℤ → Handles → ℤ × Handles
unfolding mutex_by_hid handle_remove_id
mutex_close hid s = elim (mutex_by_hid hid s) [
  | none ↦ (fail_code, s)
  | some i ↦
      let n = ((mutex_at s i).usage_count + 2 ^ 32 - 1) % 2 ^ 32 in
      let s' = set_mutex i (record (mutex_at s i) { usage_count = n }) (one s) in
      (ok_code, all (if n == 0 then (handle_remove_id hid s').1 else s'))
]
