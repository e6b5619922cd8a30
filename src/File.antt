-- ===== src/File.antt =====
-- gluKe/file.c: files over the drivers. The drivers' functions are the fields of a table, as in
-- `struct driver_descr`; D is what they keep. A driver without a function has `none`.
pub mod Open
mod Tests
use glu_ke.Base.{
  ℕ, ◌+◌, Bool, true, false, Option, none, some, List, [], ◌∷◌, ◌==◌, if◌then◌else◌, get_or,
}
use glu_ke.Base.Int.{ℤ, pos, eq_ℤ, ok_code, fail_code}
use glu_ke.Base.Find.{find_index}
use glu_ke.Handle.{
  File, Handle, Handles, handle_at, one, all, type_file, handle_by_id, handle_open, handle_remove,
  handle_remove_id,
}
use glu_ke.Mutex.{str_eq, update}

-- struct driver_descr. `open` gives its code and the file that it has set up, `read` its code and
-- the bytes for the caller's buffer.
pub record Driver (D : Type 0) : Type 0 where
  pub name : List ℕ
  pub open_file : File → Option (List ℕ) → D → ℤ × File × D
  pub read_file : Option (File → ℕ → D → ℤ × List ℕ × D)
  pub write_file : Option (File → List ℕ → D → ℤ × D)
  pub ioctl_file : Option (File → ℕ → ℕ → D → ℤ × D)
  pub close_file : Option (File → D → ℤ × D)

-- The name in front of the first `/` and the argument behind it, if there is one.
unfoldable pub split_path : List ℕ → List ℕ × Option (List ℕ)
split_path [] = ([], none)
split_path (c ∷ cs) =
    let (name, arg) = split_path cs in if c == b'/' then ([], some cs) else (c ∷ name, arg)

-- The kernel's handles and what the drivers keep.
pub record Files (D : Type 0) : Type 0 where
  pub handles : Handles
  pub devices : D

module _ {D : Type 0} where
  abbrev pub no_driver : Driver D
  no_driver = record {
    name = [];
    open_file = λ f s d. (fail_code, f, d);
    read_file = none;
    write_file = none;
    ioctl_file = none;
    close_file = none;
  }

  abbrev pub driver_at : List (Driver D) → ℕ → Driver D
  driver_at ds i = get_or ds i no_driver

  unfoldable pub driver_of : List ℕ → List (Driver D) → Option ℕ
  driver_of name ds = find_index (λ d. str_eq d.name name) ds

  -- `open` with the result of handle_open, at handle `h` and for driver `i`.
  unfoldable pub open_handle : List (Driver D) → ℕ → Option (List ℕ) → ℕ → Files D → ℤ × Files D
  open_handle ds i arg h s =
      let hd = handle_at s.handles h in
      let (e, fl, d) = (driver_at ds i).open_file (record hd.fl { driver_id = i }) arg s.devices in
      if eq_ℤ e ok_code
      then (
        hd.id,
        record {
          handles =
              all (update h (record hd { fl = fl; close = true; type = type_file }) s.handles);
          devices = d;
        },
      )
      else (
        fail_code,
        record {
          handles = all (handle_remove h (update h (record hd { fl = fl }) s.handles)).1;
          devices = d;
        },
      )

  -- `open` by a task `cur`; `memory` is that of the new handle. The result is `none` where the
  -- kernel writes through a null pointer, for want of memory.
  unfoldable pub open_path :
      List (Driver D) → Option Handle → ℤ → List ℕ → Files D → Option (ℤ × Files D)
  unfolding open_handle
  open_path ds memory cur path s =
      let (name, arg) = split_path path in
      elim (driver_of name ds) [
        | none ↦ some (fail_code, s)
        | some i ↦
            let (at_index, hs) = handle_open memory cur (one s.handles) in
            elim at_index [
              | none ↦ none
              | some h ↦ some (open_handle ds i arg h (record s { handles = hs }))
            ]
      ]

  unfoldable pub file_by_handle_id : ℤ → Files D → Option File
  file_by_handle_id hid s = elim (handle_by_id hid s.handles.handles) [
    | none ↦ none
    | some i ↦ some (handle_at s.handles i).fl
  ]

  read_with : Option (File → ℕ → D → ℤ × List ℕ × D) → File → ℕ → Files D → ℤ × List ℕ × Files D
  read_with none fl bytes s = (fail_code, [], s)
  read_with (some f) fl bytes s =
      let (code, buf, d) = f fl bytes s.devices in (code, buf, record s { devices = d })

  unfoldable pub read : List (Driver D) → ℤ → ℕ → Files D → ℤ × List ℕ × Files D
  unfolding read_with
  read ds hid bytes s = elim (file_by_handle_id hid s) [
    | none ↦ (fail_code, [], s)
    | some fl ↦ read_with (driver_at ds fl.driver_id).read_file fl bytes s
  ]

  write_with : Option (File → List ℕ → D → ℤ × D) → File → List ℕ → Files D → ℤ × Files D
  write_with none fl buf s = (fail_code, s)
  write_with (some f) fl buf s =
      let (code, d) = f fl buf s.devices in (code, record s { devices = d })

  unfoldable pub write : List (Driver D) → ℤ → List ℕ → Files D → ℤ × Files D
  unfolding write_with
  write ds hid buf s = elim (file_by_handle_id hid s) [
    | none ↦ (fail_code, s)
    | some fl ↦ write_with (driver_at ds fl.driver_id).write_file fl buf s
  ]

  ioctl_with : Option (File → ℕ → ℕ → D → ℤ × D) → File → ℕ → ℕ → Files D → ℤ × Files D
  ioctl_with none fl cmd arg s = (fail_code, s)
  ioctl_with (some f) fl cmd arg s =
      let (code, d) = f fl cmd arg s.devices in (code, record s { devices = d })

  pub ioctl : List (Driver D) → ℤ → ℕ → ℕ → Files D → ℤ × Files D
  unfolding ioctl_with
  ioctl ds hid cmd arg s = elim (file_by_handle_id hid s) [
    | none ↦ (fail_code, s)
    | some fl ↦ ioctl_with (driver_at ds fl.driver_id).ioctl_file fl cmd arg s
  ]

  close_with : Option (File → D → ℤ × D) → File → D → D
  close_with none fl d = d
  close_with (some f) fl d = (f fl d).1

  -- Without the handle it returns within the section that it entered.
  unfoldable pub close : List (Driver D) → ℤ → Files D → ℤ × Files D
  unfolding close_with
  close ds hid s = elim (file_by_handle_id hid s) [
    | none ↦ (fail_code, record s { handles = one s.handles })
    | some fl ↦ (
      ok_code,
      record {
        handles = all (handle_remove_id hid (one s.handles)).1;
        devices = close_with (driver_at ds fl.driver_id).close_file fl s.devices;
      },
    )
  ]

  -- close_handle_struct_callback, for the handles of a task that ends
  pub close_handle : List (Driver D) → File → D → D
  unfolding close_with
  close_handle ds fl d = close_with (driver_at ds fl.driver_id).close_file fl d
