-- ===== src/File/Open.antt =====
-- Opening a file of gluKe/file.c and finding it again by its handle.
use glu_ke.Base.{
  ℕ, ◌+◌, ◌-◌, ◌^◌, ◌<◌, ◌≡◌, refl, ap, true, false, some, List, [], ◌∷◌, arith, ◌++◌, length, set,
}
use glu_ke.Base.Int.{ℤ, pos, eq_ℤ, ok_code, fail_code}
use glu_ke.Handle.{
  File, Handle, one, all, max_id, handle_open, type_file, int_succ, remove_at, handle_remove,
  new_handle_id,
}
use glu_ke.Handle.Ids.{find_last, get_last, ids_above, max_id-bound}
use glu_ke.Mutex.{update}
use glu_ke.File.{
  Driver, Files, driver_at, open_handle, open_path, split_path, driver_of, file_by_handle_id,
}

set_last : (hs : List Handle) (h g : Handle) → set (hs ++ (h ∷ [])) (length hs) g ≡ hs ++ (g ∷ [])
set_last [] h g = refl
set_last (x ∷ hs) h g = ap (λ l. x ∷ l) (set_last hs h g)

remove_last : (hs : List Handle) (h : Handle) → remove_at (hs ++ (h ∷ [])) (length hs) ≡ hs
unfolding remove_at
remove_last [] h = refl
remove_last (x ∷ hs) h = ap (λ l. x ∷ l) (remove_last hs h)

module _ {D : Type 0} (ds : List (Driver D)) (junk : Handle) (cur : ℤ) (path : List ℕ)
    (s : Files D) where
  -- The handle that `handle_open` makes.
  abbrev pub new_handle : Handle
  new_handle = record junk { id = new_handle_id (s.handles.handles ++ (junk ∷ [])); task_id = cur }

  -- What driver `i` answers to the opening.
  abbrev pub answer : ℕ → ℤ × File × D
  answer i =
      (driver_at ds i).open_file (record new_handle.fl { driver_id = i }) (split_path path).1
        s.devices

  module _ (i : ℕ) (found : driver_of (split_path path).0 ds ≡ some i) where
    -- `open` with a driver that accepts returns the id of a new handle, and that id leads to the file
    -- as the driver has set it up; the handles there were before are kept. The new id must not leave
    -- the range of an `int`.
    pub open_path-finds :
        max_id (s.handles.handles ++ (junk ∷ [])) 0 < 2 ^ 31 - 1
        → eq_ℤ (answer i).0 ok_code ≡ true
        → (s' : Files D) × (h : Handle) × (open_path ds (some junk) cur path s ≡ some (h.id, s'))
          × (file_by_handle_id h.id s' ≡ some (answer i).1)
          × (s'.handles.handles ≡ s.handles.handles ++ (h ∷ []))
          × (s'.devices ≡ (answer i).2)
    unfolding open_path open_handle file_by_handle_id handle_open new_handle_id
    open_path-finds small ok =
        let hs = s.handles.handles in
        let m = max_id (hs ++ (junk ∷ [])) 0 in
        let fits : int_succ m ≡ pos (m + 1) = ground arith in
        let same : eq_ℤ (pos (m + 1)) (pos (m + 1)) ≡ true = ground arith in
        let apart = ids_above hs m (max_id-bound hs (junk ∷ []) 0) in
        let h : Handle = record new_handle { fl = (answer i).1; close = true; type = type_file } in
        let opened = (handle_open (some junk) cur (one s.handles)).1 in
        (
          record { handles = all (update (length hs) h opened); devices = (answer i).2 },
          h,
          rw (open_path, found, open_handle, get_last hs new_handle, ok) refl,
          rw (set_last hs new_handle h, fits)
              (rw
                (
                  file_by_handle_id,
                  find_last hs (record h { id = pos (m + 1) }) (pos (m + 1)) apart same,
                )
                (rw (get_last hs (record h { id = pos (m + 1) })) refl)),
          set_last hs new_handle h,
          refl,
        )

    -- `open` with a driver that refuses returns -1 and leaves the handles as they were.
    pub open_path-refused :
        eq_ℤ (answer i).0 ok_code ≡ false
        → (s' : Files D) × (open_path ds (some junk) cur path s ≡ some (fail_code, s'))
          × (s'.handles.handles ≡ s.handles.handles)
          × (s'.devices ≡ (answer i).2)
    unfolding open_path open_handle handle_open handle_remove
    open_path-refused refused =
        let hs = s.handles.handles in
        let h : Handle = record new_handle { fl = (answer i).1 } in
        let opened = (handle_open (some junk) cur (one s.handles)).1 in
        (
          record {
            handles = all (handle_remove (length hs) (update (length hs) h opened)).1;
            devices = (answer i).2;
          },
          rw (open_path, found, open_handle, get_last hs new_handle, refused) refl,
          rw (set_last hs new_handle h) (remove_last hs h),
          refl,
        )
