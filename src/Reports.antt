-- ===== src/Reports.antt =====
-- What the kernel prints about itself: rgn_print_info of gluKe/rgn.c, handle_print_handles of
-- gluKe/handle.c, task_info_print_tasks of gluKe/task.c and phex of gluKe/utils.c, each as the texts of its calls of kwr, in their order.
mod Tests
use glu_ke.Base.{
  ℕ, zero, suc, ◌+◌, ◌-◌, ◌%◌, ◌^◌, List, [], ◌∷◌, ◌++◌, ◌==◌, ltb, if◌then◌else◌, length,
}
use glu_ke.Base.Int.{ℤ, pos, negsuc}
use glu_ke.Base.Text.{codes}
use glu_ke.Utils.{itos_ud, itos_ux, itos_ux_nobase_width}
use glu_ke.Rgn.{Allocation, Rgn}
use glu_ke.Handle.{Handle}
use glu_ke.Task.{Task}

-- An `int` as the `unsigned int` that itos_ud takes.
abbrev pub to_unsigned : ℤ → ℕ
to_unsigned (pos n) = n
to_unsigned (negsuc n) = 2 ^ 32 - 1 - n

-- A loop of rgn_print_info, which leaves the unused entries out.
unfoldable pub print_regions : List Allocation → List (List ℕ)
print_regions [] = []
print_regions (a ∷ rest_als) =
    let rest = print_regions rest_als in
    if a.nof_pages == 0
    then rest
    else itos_ux a.base ∷ codes ":" ∷ itos_ux a.nof_pages ∷ codes " " ∷ rest

unfoldable pub rgn_print_info : Rgn → List (List ℕ)
unfolding print_regions
rgn_print_info s =
    codes "\n--- rgn info free ---\n"
    ∷ (print_regions s.free_als
        ++ (codes "\n--- rgn info free ---\n"
            ∷ codes "\n--- rgn info reserved ---\n"
            ∷ (print_regions s.reserved_als ++ (codes "\n--- rgn info reserved ---\n" ∷ []))))

unfoldable pub handle_print_handles : List Handle → List (List ℕ)
handle_print_handles [] = []
handle_print_handles (h ∷ hs) =
    codes "id:"
    ∷ itos_ud (to_unsigned h.id)
    ∷ codes " task_id:"
    ∷ itos_ud (to_unsigned h.task_id)
    ∷ codes "\n"
    ∷ handle_print_handles hs

unfoldable pub task_info_print_tasks : List Task → List (List ℕ)
task_info_print_tasks [] = []
task_info_print_tasks (t ∷ ts) =
    codes "id:"
    ∷ itos_ud (to_unsigned t.id)
    ∷ codes " planned:"
    ∷ (if t.plan then codes "yes" else codes "no")
    ∷ codes "\n"
    ∷ task_info_print_tasks ts

-- The inner loop of phex, for at most `n` bytes from place `j` of the line on, and the bytes behind
-- the line.
unfoldable pub phex_line : ℕ → ℕ → List ℕ → List (List ℕ) × List ℕ
phex_line zero j bytes = ([], bytes)
phex_line (suc n) j [] = ([], [])
phex_line (suc n) j (b ∷ bs) =
    let (texts, rest) = phex_line n (j + 1) bs in
    let shown = itos_ux_nobase_width b 2 ∷ codes " " ∷ texts in
    (if j % 4 == 0 then (if j == 0 then shown else codes "| " ∷ shown) else shown, rest)

-- The outer loop, for at most `n` lines.
unfoldable pub phex_lines : ℕ → List ℕ → List (List ℕ)
phex_lines zero bytes = []
phex_lines (suc n) [] = []
phex_lines (suc n) (b ∷ bs) =
    let (texts, rest) = phex_line 16 0 (b ∷ bs) in texts ++ (codes "\n" ∷ phex_lines n rest)

-- A line shows at least a byte, so there are not more lines than bytes.
unfoldable pub phex : List ℕ → List (List ℕ)
unfolding phex_lines phex_line
phex bytes = phex_lines (length bytes) bytes
