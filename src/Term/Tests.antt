-- ===== src/Term/Tests.antt =====
-- Terminals of gluKe/drivers/term.c.
use glu_ke.Base.{true, ◌≡◌, refl, [], ◌∷◌, arith, replicate, set}
use glu_ke.Term.{Out, Term, append_to_buffer, take_key, drop_input}
use glu_ke.Base.Int.{pos, negsuc}
use glu_ke.Term.Driver.{Terms, put_byte, put_pixel, no_term}
use glu_ke.Term.Output.{IsScreen, append_to_buffer-IsScreen}
use glu_ke.Term.Input.{IsInput, Typed, pending, take_key-Typed}

abbrev cleared : Out
cleared = record { buf = replicate 4000 0; osize = 0 }

cleared-IsScreen : IsScreen cleared
cleared-IsScreen = record { buf_len = refl; on_screen = omega arith; even = omega arith }

append_to_buffer-IsScreen_example : IsScreen (append_to_buffer (104 ∷ 105 ∷ 10 ∷ 8 ∷ []) cleared)
append_to_buffer-IsScreen_example =
    append_to_buffer-IsScreen (104 ∷ 105 ∷ 10 ∷ 8 ∷ []) cleared cleared-IsScreen

-- Three bytes are pending.
abbrev typed_three : Term
typed_three = record no_term { input = 97 ∷ 98 ∷ 99 ∷ replicate 97 0; iend = 3 }

abbrev three-IsInput : IsInput typed_three
three-IsInput = record { input_len = refl; in_bounds = omega arith }

take_key-Typed_example : Typed 100 typed_three (take_key 100 typed_three)
take_key-Typed_example = take_key-Typed 100 typed_three three-IsInput

-- With one byte taken of three, the last one is lost and the second one comes twice.
comes_twice : pending (drop_input 1 typed_three) ≡ 98 ∷ 98 ∷ []
unfolding pending drop_input
comes_twice = refl

abbrev open_terms : Terms
open_terms = record {
  terms = replicate 10 (record no_term { used = true; show = true });
  active = pos 0;
  screen = record { vidmem = replicate 4000 0; cursor = 0; cursor_on = true };
  ints = record { inited = true; off_count = 0; enabled = true };
  strays = [];
}

-- A pixel at x = -1 in the first line is written in front of the output.
stray_pixel :
    (put_pixel 1 (255 ∷ 0 ∷ 42 ∷ 7 ∷ []) open_terms).strays
    ≡ (1, negsuc 0, 7) ∷ (1, negsuc 1, 42) ∷ []
unfolding put_pixel put_byte
stray_pixel = refl

-- The second terminal is closed.
abbrev one_closed : Terms
one_closed = record open_terms { terms = set open_terms.terms 1 no_term }
