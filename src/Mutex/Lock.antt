-- ===== src/Mutex/Lock.antt =====
-- What the lock of gluKe/mutex.c guarantees to the task that holds it.
use glu_ke.Base.{
  ℕ, zero, suc, ◌+◌, ◌-◌, ◌%◌, ◌^◌, ◌<◌, ◌≡◌, refl, ◌⊎◌, inl, inr, true, false, Option, none, some,
  List, [], ◌∷◌, ◌==◌, All, arith, Bool-cases, Option-cases, ◌≢◌, ap, sym, ◌∙◌, get_or,
  get_or-set_ne,
}
use mathlib.Core.Path.{subst}
use native.Mathlib.Decide.{ℕ_discrete}
use glu_ke.Base.Int.{ℤ, eq_ℤ, fail_code}
use glu_ke.Handle.{Mutex, Handle, Handles, handle_at, no_handle}
use glu_ke.Mutex.{
  mutex_at, mutex_by_hid, try_lock, relock, lock_once, lock_loop, lock_wait, unlock, positive,
  mutex_lock_nb, mutex_release,
}

-- Task `owner` holds the mutex.
pub record IsHeld (owner : ℤ) (m : Mutex) : Type 0 where
  pub by : m.owner_task_id ≡ owner
  pub locked : positive m.lock_count ≡ true

-- On a mutex that another task holds, `mutex_lock_nb` and `mutex_release` fail and leave all
-- handles as they were.
pub held-refused :
    (owner cur hid : ℤ) (s : Handles) (i : ℕ)
    → mutex_by_hid hid s ≡ some i
    → IsHeld owner (mutex_at s i)
    → eq_ℤ owner cur ≡ false
    → ((mutex_lock_nb cur hid s).0 ≡ fail_code)
      × ((mutex_lock_nb cur hid s).1.handles ≡ s.handles)
      × ((mutex_release cur hid s).0 ≡ fail_code)
      × ((mutex_release cur hid s).1.handles ≡ s.handles)
unfolding mutex_lock_nb mutex_release lock_once try_lock
held-refused owner cur hid s i e h other =
    let a : eq_ℤ (mutex_at s i).owner_task_id cur ≡ false = rw (h.by) other in
    let b : ((mutex_at s i).lock_count == 0) ≡ false = ground (arith, h.locked) in
    (
      rw (e, mutex_lock_nb, a, b) refl,
      rw (e, mutex_lock_nb, a, b) refl,
      rw (e, mutex_release, a) refl,
      rw (e, mutex_release, a) refl,
    )

-- What a task may call on the handles, with any id: `mutex_lock_nb` and `mutex_release`.
pub data Try : Type 0 where
  locks : (task_id hid : ℤ) → Try
  unlocks : (task_id hid : ℤ) → Try

abbrev pub task_of : Try → ℤ
task_of (locks t hid) = t
task_of (unlocks t hid) = t

pub tried : Try → Handles → Handles
tried (locks t hid) s = (mutex_lock_nb t hid s).1
tried (unlocks t hid) s = (mutex_release t hid s).1

pub all_tried : List Try → Handles → Handles
all_tried [] s = s
all_tried (t ∷ ts) s = all_tried ts (tried t s)

module _ (j i : ℕ) (other : j ≢ i) (cur hid : ℤ) (s : Handles)
    (e : mutex_by_hid hid s ≡ some j) where
  -- A lock or release of one mutex leaves the other handles.
  lock_nb-others : handle_at (mutex_lock_nb cur hid s).1 i ≡ handle_at s i
  unfolding mutex_lock_nb
  lock_nb-others = elim (Option-cases (lock_once cur (mutex_at s j))) [
    | inl waits ↦ rw (e, mutex_lock_nb, waits) refl
    | inr (m, gets) ↦
        let h : Handle = record (handle_at s j) { mtx = m } in
        let kept = get_or-set_ne s.handles j i h no_handle other in
        elim (Bool-cases (eq_ℤ (mutex_at s j).owner_task_id cur)) [
          | inl mine ↦ rw (e, mutex_lock_nb, gets, mine) kept
          | inr not_mine ↦ rw (e, mutex_lock_nb, gets, not_mine) kept
        ]
  ]

  release-others : handle_at (mutex_release cur hid s).1 i ≡ handle_at s i
  unfolding mutex_release
  release-others =
      let h : Handle = record (handle_at s j) { mtx = unlock (mutex_at s j) } in
      let kept = get_or-set_ne s.handles j i h no_handle other in
      elim (Bool-cases (eq_ℤ (mutex_at s j).owner_task_id cur)) [
        | inl mine ↦ rw (e, mutex_release, mine) kept
        | inr not_mine ↦ rw (e, mutex_release, not_mine) refl
      ]

module _ (owner : ℤ) (i : ℕ) where
  tried_same :
      (t : Try) (s : Handles)
      → IsHeld owner (mutex_at s i)
      → eq_ℤ owner (task_of t) ≡ false
      → handle_at (tried t s) i ≡ handle_at s i
  unfolding tried mutex_lock_nb mutex_release
  tried_same (locks t hid) s h other = elim (Option-cases (mutex_by_hid hid s)) [
    | inl e ↦ rw (e, tried, mutex_lock_nb) refl
    | inr (j, e) ↦ elim (ℕ_discrete j i) [
      | yes same ↦
          ap (λ (hs : List Handle). get_or hs i no_handle)
            (held-refused owner t hid s i (e ∙ ap some same) h other).1
      | no ne ↦ lock_nb-others j i ne t hid s e
    ]
  ]
  tried_same (unlocks t hid) s h other = elim (Option-cases (mutex_by_hid hid s)) [
    | inl e ↦ rw (e, tried, mutex_release) refl
    | inr (j, e) ↦ elim (ℕ_discrete j i) [
      | yes same ↦
          ap (λ (hs : List Handle). get_or hs i no_handle)
            (held-refused owner t hid s i (e ∙ ap some same) h other).3
      | no ne ↦ release-others j i ne t hid s e
    ]
  ]

  -- While a task holds a mutex, no sequence of `mutex_lock_nb` and `mutex_release` that other tasks
  -- call, with any ids, changes its handle. `mutex_open` and `mutex_close` are not among the calls.
  pub held-exclusive :
      (ts : List Try) (s : Handles)
      → IsHeld owner (mutex_at s i)
      → All (λ t. eq_ℤ owner (task_of t) ≡ false) ts
      → handle_at (all_tried ts s) i ≡ handle_at s i
  unfolding all_tried
  held-exclusive [] s h a = refl
  held-exclusive (t ∷ ts) s h a =
      let same = tried_same t s h a.0 in
      let held : IsHeld owner (mutex_at (tried t s) i) =
        subst (λ (k : Handle). IsHeld owner k.mtx) (sym same) h in
      held-exclusive ts (tried t s) held a.1 ∙ same

self_same : (t : ℤ) → eq_ℤ t t ≡ true
self_same (ℤ.pos n) = ground arith
self_same (ℤ.negsuc n) = ground arith

or_same : Option Mutex → Mutex → Mutex
or_same none m = m
or_same (some m') m = m'

-- `n` locks by a task, then as many releases.
pub nested : ℤ → ℕ → Mutex → Mutex
unfolding or_same
nested owner zero m = m
nested owner (suc n) m = unlock (nested owner n (or_same (lock_once owner m) m))

lock_unlock :
    (owner : ℤ) (m : Mutex)
    → m.owner_task_id ≡ owner
    → m.lock_count + 1 < 2 ^ 31
    → (or_same (lock_once owner m) m ≡ record m { lock_count = m.lock_count + 1 })
      × (unlock (record m { lock_count = m.lock_count + 1 }) ≡ m)
unfolding lock_once relock or_same unlock
lock_unlock owner m h small =
    let a : eq_ℤ m.owner_task_id owner ≡ true = rw h (self_same owner) in
    let b : (m.lock_count + 1) % 2 ^ 32 ≡ m.lock_count + 1 = omega arith in
    let c : positive (m.lock_count + 1) ≡ true = ground arith in
    let d : m.lock_count + 1 - 1 ≡ m.lock_count = omega arith in (rw (a, b) refl, rw (c, d) refl)

-- The lock is reentrant: as many releases as locks leave the owner's mutex as it was, also at a
-- count of 0, while the count stays an `int`.
pub nested-same :
    (owner : ℤ) (n : ℕ) (m : Mutex)
    → m.owner_task_id ≡ owner
    → m.lock_count + n < 2 ^ 31
    → nested owner n m ≡ m
unfolding nested
nested-same owner zero m h small = refl
nested-same owner (suc n) m h small =
    let s = lock_unlock owner m h (omega arith) in
    rw (s.0, nested-same owner n (record m { lock_count = m.lock_count + 1 }) h (omega arith)) (s.1)

-- At one of the attempts nobody holds the mutex.
abbrev pub GetsFree : List (Mutex → Mutex) → Mutex → Type 0
GetsFree [] m = m.lock_count ≡ 0
GetsFree (others ∷ later) m = (m.lock_count ≡ 0) ⊎ GetsFree later (others m)

-- Locked once by `task_id`.
abbrev pub LockedBy : ℤ → Option Mutex → Type 0
LockedBy task_id none = ⊥
LockedBy task_id (some m) = (m.lock_count ≡ 1) × (m.owner_task_id ≡ task_id)

loop-LockedBy :
    (cur : ℤ) (sleeps : List (Mutex → Mutex)) (m : Mutex)
    → GetsFree sleeps m
    → LockedBy cur (lock_loop cur sleeps m)
unfolding lock_loop try_lock
loop-LockedBy cur [] m h = let z : (m.lock_count == 0) ≡ true = ground arith in rw z (refl, refl)
loop-LockedBy cur (others ∷ later) m h = elim (Bool-cases (m.lock_count == 0)) [
  | inl z ↦
      let e : lock_loop cur (others ∷ later) m
          ≡ some (record m { lock_count = 1; owner_task_id = cur }) =
        rw (z, lock_loop, try_lock) refl in
      rw e (refl, refl)
  | inr nz ↦
      let e : lock_loop cur (others ∷ later) m ≡ lock_loop cur later (others m) =
        rw (nz, lock_loop, try_lock) refl in
      rw e (loop-LockedBy cur later (others m) (later_free nz h))
]
  where
    later_free :
        (m.lock_count == 0) ≡ false
        → ((m.lock_count ≡ 0) ⊎ GetsFree later (others m))
        → GetsFree later (others m)
    later_free nz (inl z) = absurd (ground arith)
    later_free nz (inr g) = g

-- A blocking lock by another task than the last owner ends with that task as the only holder, if at
-- one of its attempts the mutex is free, whatever others do while it sleeps.
pub lock_wait-LockedBy :
    (cur : ℤ) (sleeps : List (Mutex → Mutex)) (m : Mutex)
    → eq_ℤ m.owner_task_id cur ≡ false
    → GetsFree sleeps m
    → LockedBy cur (lock_wait cur sleeps m)
unfolding lock_wait
lock_wait-LockedBy cur sleeps m other h = rw other (loop-LockedBy cur sleeps m h)
