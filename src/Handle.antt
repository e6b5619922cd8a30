-- ===== src/Handle.antt =====
-- gluKe/handle.c: the kernel's list of handles. A pointer to a handle is its index in the list, which
-- no call here changes but the one that removes it. The locks that the list and its memory take
-- inside a section are balanced pairs, which leave the section as it was (Int/Nesting), so only the
-- sections of this file are modelled. `handle_remove` is called within a section.
pub mod Ids
pub mod Close
mod Tests
use glu_ke.Base.{
  ℕ, zero, suc, ◌+◌, ◌-◌, ◌^◌, Bool, true, false, ◌&&◌, Option, none, some, List, [], ◌∷◌, ◌++◌,
  ltb, ◌==◌, if◌then◌else◌, length, get_or, set,
}
use glu_ke.Base.Find.{find_index}
use glu_ke.Base.Int.{ℤ, pos, negsuc, pos_part, eq_ℤ, ok_code, fail_code}
use glu_ke.Int.{Ints, int_off, int_on}

abbrev pub type_file : ℕ
type_file = 1

abbrev pub type_mutex : ℕ
type_mutex = 2

pub record File : Type 0 where
  pub driver_id : ℕ
  pub idata : ℕ

-- The counts are 32-bit words.
pub record Mutex : Type 0 where
  pub lock_count : ℕ
  pub usage_count : ℕ
  pub owner_task_id : ℤ
  pub name : List ℕ

-- `close` says whether the pointer is set; it is set to one function only, that of file.c.
pub record Handle : Type 0 where
  pub id : ℤ
  pub type : ℕ
  pub task_id : ℤ
  pub fl : File
  pub mtx : Mutex
  pub close : Bool

pub record Handles : Type 0 where
  pub ints : Ints
  pub handles : List Handle

abbrev pub no_handle : Handle
no_handle = record {
  id = pos 0;
  type = 0;
  task_id = pos 0;
  fl = record { driver_id = 0; idata = 0 };
  mtx = record { lock_count = 0; usage_count = 0; owner_task_id = pos 0; name = [] };
  close = false;
}

abbrev pub handle_at : Handles → ℕ → Handle
handle_at s i = get_or s.handles i no_handle

abbrev pub one : Handles → Handles
one s = record s { ints = (int_off s.ints).1 }

abbrev pub all : Handles → Handles
all s = record s { ints = (int_on s.ints).1 }

-- The loop of `new_handle_id`.
unfoldable pub max_id : List Handle → ℕ → ℕ
max_id [] m = m
max_id (h ∷ hs) m = max_id hs (if ltb m (pos_part h.id) then pos_part h.id else m)

-- `max_id + 1` as an `int`
abbrev pub int_succ : ℕ → ℤ
int_succ m = if m == 2 ^ 31 - 1 then negsuc (2 ^ 31 - 1) else pos (m + 1)

unfoldable pub new_handle_id : List Handle → ℤ
unfolding max_id
new_handle_id hs = int_succ (max_id hs 0)

unfoldable pub handle_by_id : ℤ → List Handle → Option ℕ
handle_by_id hid hs = find_index (λ h. eq_ℤ h.id hid) hs

-- `memory` is what the new node's memory held before, or `none` when there is no memory. Then the
-- section is not left.
unfoldable pub handle_open : Option Handle → ℤ → Handles → Option ℕ × Handles
handle_open none cur s = (none, one s)
handle_open (some junk) cur s =
    let hs = s.handles ++ (junk ∷ []) in
    let h : Handle = record junk { id = new_handle_id hs; task_id = cur } in
    (some (length s.handles), all (record (one s) { handles = s.handles ++ (h ∷ []) }))

unfoldable pub remove_at : List Handle → ℕ → List Handle
remove_at [] i = []
remove_at (h ∷ hs) zero = hs
remove_at (h ∷ hs) (suc i) = h ∷ remove_at hs i

-- handle_remove of the handle at index `i`
unfoldable pub handle_remove : ℕ → Handles → ℤ × Handles
unfolding remove_at
handle_remove i s = (ok_code, record s { handles = remove_at s.handles i })

-- Without a handle `ll_delete` gets an address that is no node's, and finds nothing to remove.
unfoldable pub handle_remove_id : ℤ → Handles → ℤ × Handles
unfolding handle_by_id handle_remove
handle_remove_id hid s = elim (handle_by_id hid s.handles) [
  | none ↦ (ok_code, s)
  | some i ↦ handle_remove i s
]

-- What the device drivers keep, and their closing of a file.
module _ {D : Type 0} (close_file : File → D → D) where
  -- free_task_handles_predicate under ll_delete_p_1arg
  pub close_handles : ℤ → List Handle → D → List Handle × D
  close_handles task_id [] d = ([], d)
  close_handles task_id (h ∷ hs) d =
      let mine = eq_ℤ h.task_id task_id in
      let (rest, d') =
        close_handles task_id hs (if mine && h.close then close_file h.fl d else d) in
      (if mine then rest else h ∷ rest, d')

  pub handle_close_task_handles : ℤ → Handles → D → ℤ × Handles × D
  unfolding close_handles
  handle_close_task_handles task_id s d =
      let (hs, d') = close_handles task_id s.handles d in
      (ok_code, all (record (one s) { handles = hs }), d')
