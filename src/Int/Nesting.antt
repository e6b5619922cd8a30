-- ===== src/Int/Nesting.antt =====
-- Critical sections of gluKe/int.c nest: what a balanced sequence of `one` and `all` leaves.
use glu_ke.Base.{◌+◌, ◌<◌, ◌≡◌, refl, ◌∙◌, true, false, List, [], ◌∷◌, ◌++◌, arith}
use glu_ke.Int.{Ints, int_off, int_on, release}

-- The two calls.
pub data Section : Type 0 where
  one all : Section

pub call : Section → Ints → Ints
call one s = (int_off s).1
call all s = (int_on s).1

pub calls : List Section → Ints → Ints
unfolding call
calls [] s = s
calls (c ∷ cs) s = calls cs (call c s)

calls-append : (cs ds : List Section) (s : Ints) → calls (cs ++ ds) s ≡ calls ds (calls cs s)
unfolding calls
calls-append [] ds s = refl
calls-append (c ∷ cs) ds s = calls-append cs ds (call c s)

-- Sections within sections, one after another: each `one` has its `all`.
pub data Balanced : List Section → Type 0 where
  empty : Balanced []
  within : {cs ds : List Section} → Balanced cs → Balanced ds → Balanced (one ∷ (cs ++ (all ∷ ds)))

-- In a section interrupts are off.
pub record IsShut (s : Ints) : Type 0 where
  pub ready : s.inited ≡ true
  pub counted : 0 < s.off_count
  pub shut : s.enabled ≡ false

-- A section entered within a section, and left again.
entered : Ints → Ints
entered s = record s { off_count = s.off_count + 1 }

one-entered : (s : Ints) → IsShut s → (int_off s).1 ≡ entered s
unfolding int_off entered
one-entered s v = ground arith

all-entered : (s : Ints) → IsShut s → (int_on (entered s)).1 ≡ s
unfolding int_on entered
all-entered s v = ground arith

entered-IsShut : (s : Ints) → IsShut s → IsShut (entered s)
unfolding entered
entered-IsShut s v = record { ready = v.ready; counted = omega (arith, v.counted); shut = v.shut }

pub int_off-IsShut : (s : Ints) → s.inited ≡ true → IsShut (int_off s).1
unfolding int_off
int_off-IsShut s h = record { ready = ground arith; counted = ground arith; shut = ground arith }

-- Within a section, balanced calls leave the count and the flag as they were.
pub Balanced-calls : {cs : List Section} {s : Ints} → Balanced cs → IsShut s → calls cs s ≡ s
unfolding calls call
Balanced-calls empty v = refl
Balanced-calls {s} (within {cs} {ds} b c) v =
    calls-append cs (all ∷ ds) (int_off s).1
    ∙ (rw (one-entered s v, Balanced-calls b (entered-IsShut s v), calls, all-entered s v)
        (Balanced-calls c v))

-- No section is open, and interrupts are on.
pub record IsIdle (s : Ints) : Type 0 where
  pub ready : s.inited ≡ true
  pub none_open : s.off_count ≡ 0
  pub on : s.enabled ≡ true

pair-IsIdle : (s : Ints) → s.inited ≡ true → s.off_count ≡ 0 → IsIdle (int_on (int_off s).1).1
unfolding int_off int_on release
pair-IsIdle s h z = record { ready = ground arith; none_open = ground arith; on = ground arith }

section-IsIdle :
    {cs : List Section} (ds : List Section) (s : Ints)
    → Balanced cs
    → s.inited ≡ true
    → s.off_count ≡ 0
    → calls (one ∷ (cs ++ (all ∷ ds))) s ≡ calls ds (int_on (int_off s).1).1
unfolding calls call
section-IsIdle {cs} ds s b h z =
    calls-append cs (all ∷ ds) (int_off s).1 ∙ (rw (Balanced-calls b (int_off-IsShut s h)) refl)

calls-IsIdle : {cs : List Section} {s : Ints} → Balanced cs → IsIdle s → IsIdle (calls cs s)
unfolding calls
calls-IsIdle empty v = v
calls-IsIdle {s} (within {ds} b c) v =
    rw (section-IsIdle ds s b v.ready v.none_open)
      (calls-IsIdle c (pair-IsIdle s v.ready v.none_open))

-- Once int_init has run, and from outside all sections, whatever the flag, balanced calls with at
-- least one section end with interrupts on and no section open; in the sections they are off.
pub sections_end :
    {cs ds : List Section} (s : Ints)
    → Balanced cs
    → Balanced ds
    → s.inited ≡ true
    → s.off_count ≡ 0
    → IsIdle (calls (one ∷ (cs ++ (all ∷ ds))) s) × IsShut (calls (one ∷ cs) s)
unfolding calls call
sections_end {ds} s b c h z =
    let v = int_off-IsShut s h in
    (rw (section-IsIdle ds s b h z) (calls-IsIdle c (pair-IsIdle s h z)), rw (Balanced-calls b v) v)

-- A `one` that has no `all` is never made up for: after it, interrupts are off behind every balanced
-- sequence of calls.
pub missing_all :
    {cs : List Section} (s : Ints)
    → Balanced cs
    → s.inited ≡ true
    → ((calls (one ∷ cs) s).enabled ≡ false) × ((calls (one ∷ cs) s).off_count ≡ s.off_count + 1)
unfolding calls call int_off
missing_all s b h =
    let v = int_off-IsShut s h in let e = Balanced-calls b v in (rw e (v.shut), rw e (ground arith))
