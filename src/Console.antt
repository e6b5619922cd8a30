-- ===== src/Console.antt =====
-- Text over files: kwr, write_string and read_line of gluKe/sys_utils.c. A string is the list of its
-- codes, so its length is the number of bytes that are written.
use glu_ke.Base.{ℕ, Option, none, some, List}
use glu_ke.Base.Int.{ℤ}
use glu_ke.File.{Driver, Files, read, write, ioctl}

-- The numbers of term.h.
abbrev pub term_ioctl_clear_input : ℕ
term_ioctl_clear_input = 1

abbrev pub term_ioctl_read_block : ℕ
term_ioctl_read_block = 2

abbrev pub term_ioctl_read_line : ℕ
term_ioctl_read_line = 3

abbrev pub term_ioctl_show : ℕ
term_ioctl_show = 8

abbrev pub term_ioctl_mode_terminal : ℕ
term_ioctl_mode_terminal = 9

abbrev pub term_ioctl_mode_picture : ℕ
term_ioctl_mode_picture = 10

module _ {D : Type 0} (ds : List (Driver D)) where
  unfoldable pub write_string : ℤ → List ℕ → Files D → ℤ × Files D
  write_string fl s files = write ds fl s files

  -- `kfile` is the kernel's terminal.
  unfoldable pub kwr : ℤ → List ℕ → Files D → ℤ × Files D
  kwr kfile msg files = write ds kfile msg files

  -- The results of the calls before the last are not looked at.
  unfoldable pub read_line : ℤ → Option (List ℕ) → ℕ → Files D → ℤ × List ℕ × Files D
  unfolding write_string
  read_line fl prompt bsize files =
      let f0 : Files D = elim prompt [ none ↦ files | some p ↦ (write_string fl p files).1 ] in
      let f1 = (ioctl ds fl term_ioctl_clear_input 0 f0).1 in
      let f2 = (ioctl ds fl term_ioctl_read_block 1 f1).1 in
      let f3 = (ioctl ds fl term_ioctl_read_line 1 f2).1 in read ds fl bsize f3
