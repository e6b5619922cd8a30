-- ===== src/Reports/Tests.antt =====
-- What is printed about small tables (gluKe/rgn.c, gluKe/task.c, gluKe/utils.c).
use glu_ke.Base.{◌≡◌, refl, true, [], ◌∷◌, ◌++◌, replicate}
use glu_ke.Base.Int.{pos}
use glu_ke.Base.Text.{codes}
use glu_ke.Utils.{itos_ud, itos_ux}
use glu_ke.Task.{blank_task}
use glu_ke.Rgn.{unused}
use glu_ke.Reports.{print_regions, task_info_print_tasks, phex_line, phex_lines, phex}

-- Unused entries are left out.
one_region :
    print_regions (unused ∷ record { base = 0x100000; nof_pages = 16; task_id = pos 1 } ∷ [])
    ≡ itos_ux 0x100000 ∷ codes ":" ∷ itos_ux 16 ∷ codes " " ∷ []
unfolding print_regions
one_region = refl

one_task :
    task_info_print_tasks (record blank_task { id = pos 3; plan = true } ∷ [])
    ≡ codes "id:" ∷ itos_ud 3 ∷ codes " planned:" ∷ codes "yes" ∷ codes "\n" ∷ []
unfolding task_info_print_tasks
one_task = refl

-- The second line of seventeen bytes shows the last byte.
second_line :
    phex (replicate 16 7 ++ (255 ∷ [])) ≡ phex_lines 1 (replicate 16 7) ++ phex_lines 1 (255 ∷ [])
unfolding phex phex_lines phex_line
second_line = refl
