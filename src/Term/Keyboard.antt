-- ===== src/Term/Keyboard.antt =====
-- The keyboard handler of gluKe/drivers/term.c: `key_pressed` and `handle_keyboard_interrupt`. A scan
-- code above the last one of a map reads the memory behind that map, which is an argument.
use glu_ke.Base.{
  ℕ, ◌%◌, Bool, true, false, ◌||◌, Option, none, some, List, [], ◌∷◌, ◌++◌, ltb, ◌==◌,
  if◌then◌else◌, get_or, set, take, drop,
}
use glu_ke.Base.Find.{find_index}
use glu_ke.Base.Int.{pos, negsuc}
use glu_ke.Term.{take_key}
use glu_ke.Term.Driver.{Terms, term_at, set_term, st_show, switch_to_term}

abbrev pub scan_code_map : List ℕ
scan_code_map =
    0 ∷ 0 ∷ 49 ∷ 50 ∷ 51 ∷ 52 ∷ 53 ∷ 54 ∷ 55 ∷ 56 ∷ 57 ∷ 48 ∷ 45 ∷ 61 ∷ 8 ∷ 9 ∷ 113 ∷ 119 ∷ 101
    ∷ 114 ∷ 116 ∷ 121 ∷ 117 ∷ 105 ∷ 111 ∷ 112 ∷ 91 ∷ 93 ∷ 10 ∷ 0 ∷ 97 ∷ 115 ∷ 100 ∷ 102 ∷ 103 ∷ 104
    ∷ 106 ∷ 107 ∷ 108 ∷ 59 ∷ 39 ∷ 96 ∷ 0 ∷ 92 ∷ 122 ∷ 120 ∷ 99 ∷ 118 ∷ 98 ∷ 110 ∷ 109 ∷ 44 ∷ 46 ∷ 47
    ∷ 0 ∷ 42 ∷ 0 ∷ 32 ∷ 0 ∷ 0 ∷ 0 ∷ 0 ∷ 0 ∷ 0 ∷ 0 ∷ 0 ∷ 0 ∷ 0 ∷ 0 ∷ 0 ∷ 0 ∷ 0 ∷ 0 ∷ 0 ∷ 45 ∷ 0 ∷ 53
    ∷ 0 ∷ 43 ∷ 0 ∷ []

abbrev pub scan_code_map_shift : List ℕ
scan_code_map_shift =
    0 ∷ 0 ∷ 33 ∷ 64 ∷ 35 ∷ 36 ∷ 37 ∷ 94 ∷ 38 ∷ 42 ∷ 40 ∷ 41 ∷ 95 ∷ 43 ∷ 8 ∷ 9 ∷ 81 ∷ 87 ∷ 69 ∷ 82
    ∷ 84 ∷ 89 ∷ 85 ∷ 73 ∷ 79 ∷ 80 ∷ 123 ∷ 125 ∷ 10 ∷ 0 ∷ 65 ∷ 83 ∷ 68 ∷ 70 ∷ 71 ∷ 72 ∷ 74 ∷ 75 ∷ 76
    ∷ 58 ∷ 34 ∷ 126 ∷ 0 ∷ 92 ∷ 90 ∷ 88 ∷ 67 ∷ 86 ∷ 66 ∷ 78 ∷ 77 ∷ 60 ∷ 62 ∷ 63 ∷ 0 ∷ 42 ∷ 0 ∷ 32 ∷ 0
    ∷ 0 ∷ 0 ∷ 0 ∷ 0 ∷ 0 ∷ 0 ∷ 0 ∷ 0 ∷ 0 ∷ 0 ∷ 0 ∷ 0 ∷ 0 ∷ 0 ∷ 0 ∷ 45 ∷ 5 ∷ 0 ∷ 43 ∷ 0 ∷ []

-- `pressed_keys` and the terminals.
pub record Keyboard : Type 0 where
  pub pressed : List Bool
  pub terms : Terms

press_on : ℕ → ℕ → Terms → Terms
unfolding st_show
press_on symbol i s = elim (take_key symbol (term_at s i)) [
  | none ↦ s
  | some t ↦ st_show i (set_term i t s)
]

pub key_pressed : ℕ → Terms → Terms
unfolding press_on
key_pressed symbol s = elim s.active [ negsuc n ↦ s | pos i ↦ press_on symbol i s ]

abbrev pub is_pressed : Keyboard → ℕ → Bool
is_pressed k i = get_or k.pressed i false

-- The terminal for the first function key that is pressed, from F1 on to F10.
pub chosen_term : Keyboard → Option ℕ
chosen_term k =
    if is_pressed k 0x1d then find_index (λ b. b) (take 10 (drop 0x3b k.pressed)) else none

pub switch_chosen : Keyboard → Terms
unfolding chosen_term
switch_chosen k = elim (chosen_term k) [ none ↦ k.terms | some i ↦ switch_to_term i k.terms ]

pub symbol_of : List ℕ → List ℕ → Keyboard → ℕ → ℕ
symbol_of behind behind_shift k scan =
    if is_pressed k 0x2a || is_pressed k 0x36
    then get_or (scan_code_map_shift ++ behind_shift) scan 0
    else get_or (scan_code_map ++ behind) scan 0

-- `code` is the byte that the keyboard sent.
pub handle_keyboard_interrupt : List ℕ → List ℕ → ℕ → Keyboard → Keyboard
unfolding switch_chosen key_pressed symbol_of
handle_keyboard_interrupt behind behind_shift code k =
    let scan = code % 0x80 in
    if ltb code 0x80
    then (let k' : Keyboard = record k { pressed = set k.pressed scan true } in
        let symbol = symbol_of behind behind_shift k' scan in
        let s = switch_chosen k' in
        record k' { terms = if symbol == 0 then s else key_pressed symbol s })
    else record k { pressed = set k.pressed scan false }
