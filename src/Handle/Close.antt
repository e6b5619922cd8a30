-- ===== src/Handle/Close.antt =====
-- Closing the handles of a task that ends (gluKe/handle.c).
use glu_ke.Base.{◌≡◌, refl, inl, inr, false, ◌&&◌, List, [], ◌∷◌, if◌then◌else◌, All, Bool-cases}
use glu_ke.Base.Int.{ℤ, eq_ℤ, ok_code}
use glu_ke.Handle.{File, Handle, Handles, close_handles, handle_close_task_handles}

-- The handles of other tasks, in their order.
pub others : ℤ → List Handle → List Handle
others task_id [] = []
others task_id (h ∷ hs) =
    let rest = others task_id hs in if eq_ℤ h.task_id task_id then rest else h ∷ rest

-- The files to close: those of the task's handles that have a closing function.
pub files_of : ℤ → List Handle → List File
files_of task_id [] = []
files_of task_id (h ∷ hs) =
    let rest = files_of task_id hs in
    if eq_ℤ h.task_id task_id && h.close then h.fl ∷ rest else rest

pub others-none_left :
    (task_id : ℤ) (hs : List Handle) → All (λ h. eq_ℤ h.task_id task_id ≡ false) (others task_id hs)
unfolding others
others-none_left task_id [] = tt
others-none_left task_id (h ∷ hs) = elim (Bool-cases (eq_ℤ h.task_id task_id)) [
  | inl mine ↦ rw mine (others-none_left task_id hs)
  | inr other ↦ rw other (other, others-none_left task_id hs)
]

module _ {D : Type 0} (close_file : File → D → D) where
  -- Closing files one after another.
  pub close_all : List File → D → D
  close_all [] d = d
  close_all (f ∷ fs) d = close_all fs (close_file f d)

  close_handles-others :
      (task_id : ℤ) (hs : List Handle) (d : D)
      → close_handles close_file task_id hs d
        ≡ (others task_id hs, close_all (files_of task_id hs) d)
  unfolding close_handles others files_of close_all
  close_handles-others task_id [] d = refl
  close_handles-others task_id (h ∷ hs) d = elim (Bool-cases (eq_ℤ h.task_id task_id)) [
    | inr other ↦ rw (other, close_handles-others task_id hs d) refl
    | inl mine ↦ elim (Bool-cases (h.close)) [
      | inl c ↦ rw (mine, c, close_handles-others task_id hs (close_file h.fl d)) refl
      | inr c ↦ rw (mine, c, close_handles-others task_id hs d) refl
    ]
  ]

  -- `handle_close_task_handles` removes exactly the task's handles, keeps the others in their order,
  -- and closes, in order, the files of those it removes that have a closing function.
  pub handle_close_task_handles-others :
      (task_id : ℤ) (s : Handles) (d : D)
      → let (code, s', d') = handle_close_task_handles close_file task_id s d in
        (code ≡ ok_code)
        × (s'.handles ≡ others task_id s.handles)
        × All (λ h. eq_ℤ h.task_id task_id ≡ false) s'.handles
        × (d' ≡ close_all (files_of task_id s.handles) d)
  unfolding handle_close_task_handles
  handle_close_task_handles-others task_id s d =
      rw (close_handles-others task_id s.handles d)
        (refl, refl, others-none_left task_id s.handles, refl)
