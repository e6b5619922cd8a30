-- ===== src/Handle/Tests.antt =====
-- A task with two handles that ends (gluKe/handle.c).
use glu_ke.Base.{ℕ, ◌-◌, ◌^◌, ◌<◌, ◌≡◌, true, false, [], ◌∷◌, ◌++◌, arith, All}
use glu_ke.Base.Int.{pos, eq_ℤ, ok_code}
use glu_ke.Handle.{File, Handle, Handles, no_handle, max_id, handle_close_task_handles}
use glu_ke.Handle.Close.{others, files_of, close_all, handle_close_task_handles-others}

abbrev file_handle : Handle
file_handle = record no_handle {
  id = pos 1;
  task_id = pos 2;
  close = true;
  fl = record { driver_id = 0; idata = 7 };
}

abbrev other_handle : Handle
other_handle = record no_handle { id = pos 4; task_id = pos 3 }

abbrev two : Handles
two = record {
  ints = record { inited = true; off_count = 0; enabled = true };
  handles = file_handle ∷ other_handle ∷ [];
}

-- A driver that keeps the last file it has closed.
abbrev last_closed : File → ℕ → ℕ
last_closed f d = f.idata

handle_close_task_handles-others_example :
    let (code, s', d') = handle_close_task_handles last_closed (pos 2) two 0 in
    (code ≡ ok_code)
    × (s'.handles ≡ others (pos 2) two.handles)
    × All (λ h. eq_ℤ h.task_id (pos 2) ≡ false) s'.handles
    × (d' ≡ close_all last_closed (files_of (pos 2) two.handles) 0)
handle_close_task_handles-others_example =
    handle_close_task_handles-others last_closed (pos 2) two 0

small : max_id (two.handles ++ (no_handle ∷ [])) 0 < 2 ^ 31 - 1
unfolding max_id
small = omega arith
