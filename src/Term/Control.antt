-- ===== src/Term/Control.antt =====
-- term_ioctl, switch_to_term and term_close of gluKe/drivers/term.c. Showing in pixel mode enters and
-- leaves a section, which counts where none is entered already.
use glu_ke.Base.{ℕ, Bool, true, false, not, ◌==◌, if◌then◌else◌}
use glu_ke.Base.Int.{ℤ, ok_code, fail_code}
use glu_ke.Term.{Mode, text, pixel, Term, clear_term, show_no_check}
use glu_ke.Term.Driver.{Terms, term_at, set_term, is_active, is_open, pixel_section}

abbrev pub nonzero : ℕ → Bool
nonzero arg = not (arg == 0)

-- crt_cursor_on and crt_cursor_off
abbrev pub cursor : Bool → Terms → Terms
cursor on s = record s { screen = record s.screen { cursor_on = on } }

-- `if(fl->idata==active_term_index) st_show_no_check(td)`
pub show_if_active : ℕ → Terms → Terms
unfolding pixel_section
show_if_active i s =
    if is_active i s
    then pixel_section (term_at s i) (record s { screen = show_no_check (term_at s i) s.screen })
    else s

abbrev pub set_mode : Mode → ℕ → Terms → Terms
set_mode m i s = set_term i (clear_term (record (term_at s i) { output_mode = m })) s

abbrev pub terminal_mode : Term → Term
terminal_mode t =
    clear_term (record t { output_mode = text; show = true; read_block = true; read_line = true })

abbrev pub picture_mode : Term → Term
picture_mode t =
    clear_term
      (record t { output_mode = pixel; show = false; read_block = false; read_line = false })

-- The `switch` of `term_ioctl`; the numbers are those of term.h.
pub ioctl_command : ℕ → ℕ → ℕ → Terms → ℤ × Terms
unfolding show_if_active
ioctl_command i cmd arg s =
    let t = term_at s i in
    if cmd == 1
    then (ok_code, set_term i (record t { iend = 0 }) s)
    else if cmd == 2
    then (ok_code, set_term i (record t { read_block = nonzero arg }) s)
    else if cmd == 3
    then (ok_code, set_term i (record t { read_line = nonzero arg }) s)
    else if cmd == 5
    then (ok_code, set_mode pixel i (cursor false s))
    else if cmd == 4
    then (ok_code, set_mode text i (cursor true s))
    else if cmd == 7
    then (ok_code, set_term i (record t { show = false }) s)
    else if cmd == 6
    then (ok_code, set_term i (record t { show = true }) s)
    else if cmd == 8
    then (ok_code, show_if_active i s)
    else if cmd == 9
    then (ok_code, show_if_active i (set_term i (terminal_mode t) (cursor true s)))
    else if cmd == 10
    then (ok_code, show_if_active i (set_term i (picture_mode t) (cursor false s)))
    else (fail_code, s)

pub term_ioctl : ℕ → ℕ → ℕ → Terms → ℤ × Terms
unfolding ioctl_command
term_ioctl i cmd arg s = if is_open i s then ioctl_command i cmd arg s else (fail_code, s)
