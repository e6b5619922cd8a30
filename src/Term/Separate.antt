-- ===== src/Term/Separate.antt =====
-- The terminals of gluKe/drivers/term.c side by side: what a write to one of them reaches.
use glu_ke.Base.{ℕ, ◌≡◌, false, List, arith}
use glu_ke.Base.Int.{is_negative}
use glu_ke.Term.{Term, text, pixel}
use glu_ke.Term.Output.{IsScreen}
use glu_ke.Term.Driver.{
  Terms, term_at, is_active, show_active, text_out, pixel_out, add_to_output, term_write,
  pixel_place, byte,
}

-- All bytes that a write puts into the output of terminal `i` lie in it: in the mode for text the
-- output is as append_to_buffer keeps it, in the mode for pixels the place is not negative.
pub data Aims (i : ℕ) (buf : List ℕ) (s : Terms) : Type 0 where
  at_text :
      (term_at s i).output_mode ≡ text
      → IsScreen (record { buf = (term_at s i).output; osize = (term_at s i).osize })
      → Aims i buf s
  at_pixel :
      (term_at s i).output_mode ≡ pixel
      → is_negative (pixel_place (byte buf 0) (byte buf 1)) ≡ false
      → Aims i buf s

-- A state in which terminal `j` is as before, and nothing was written in front of an output.
pub record Apart (j : ℕ) (s s' : Terms) : Type 0 where
  pub term : term_at s' j ≡ term_at s j
  pub strays : s'.strays ≡ s.strays

module _ (i : ℕ) (buf : List ℕ) (s : Terms) where
  -- Writing to a terminal that is not the active one leaves the screen as it was.
  pub term_write-screen : is_active i s ≡ false → (term_write i buf s).1.screen ≡ s.screen
  unfolding term_write add_to_output text_out pixel_out show_active
  term_write-screen hidden = ground arith
