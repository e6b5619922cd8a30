-- ===== src/File/Tests.antt =====
-- Opening a file of gluKe/file.c with a driver that keeps a count.
use glu_ke.Base.{
  ℕ, ◌+◌, ◌-◌, ◌^◌, ◌<◌, ◌≡◌, refl, true, some, List, [], ◌∷◌, arith, if◌then◌else◌, ◌==◌,
}
use glu_ke.Base.Find.{find_index}
use glu_ke.Base.Int.{pos, ok_code, fail_code}
use glu_ke.Handle.{Handle, no_handle, max_id}
use glu_ke.Mutex.{str_eq}
use glu_ke.File.{Driver, Files, no_driver, open_path, split_path, driver_of, file_by_handle_id}
use glu_ke.File.Open.{answer, open_path-finds, open_path-refused}

-- The driver numbers its files, and refuses when it has opened `most` of them.
abbrev counter : ℕ → Driver ℕ
counter most = record no_driver {
  name = 116 ∷ [];
  open_file =
      λ f arg n. if n == most then (fail_code, f, n) else (ok_code, record f { idata = n }, n + 1);
}

abbrev no_files : Files ℕ
no_files = record {
  handles = record { ints = record { inited = true; off_count = 0; enabled = true }; handles = [] };
  devices = 0;
}

-- The path `t/x`.
abbrev path : List ℕ
path = 116 ∷ 47 ∷ 120 ∷ []

known : (most : ℕ) → driver_of (split_path path).0 (counter most ∷ []) ≡ some 0
unfolding driver_of split_path find_index str_eq
known most = refl

small : max_id (no_handle ∷ []) 0 < 2 ^ 31 - 1
unfolding max_id
small = omega arith

open_path-finds_example :
    (s' : Files ℕ) × (h : Handle) × (open_path
        (counter 3 ∷ [])
        (some no_handle)
        (pos 2)
        path
        no_files
      ≡ some (h.id, s'))
    × (file_by_handle_id h.id s'
        ≡ some (answer (counter 3 ∷ []) no_handle (pos 2) path no_files 0).1)
    × (s'.handles.handles ≡ h ∷ [])
    × (s'.devices ≡ 1)
open_path-finds_example =
    open_path-finds (counter 3 ∷ []) no_handle (pos 2) path no_files 0 (known 3) small refl

open_path-refused_example :
    (s' : Files ℕ) × (open_path (counter 0 ∷ []) (some no_handle) (pos 2) path no_files
      ≡ some (fail_code, s'))
    × (s'.handles.handles ≡ [])
    × (s'.devices ≡ 0)
open_path-refused_example =
    open_path-refused (counter 0 ∷ []) no_handle (pos 2) path no_files 0 (known 0) refl
