-- ===== src/Rgn/Tests.antt =====
-- Runs of the page allocator (gluKe/rgn.c) on a machine with 16 megabytes.
use glu_ke.Base.{ℕ, ◌/◌, ◌^◌, ◌<◌, ◌≡◌, ◌≢◌, ◌⊎◌, refl, List, [], ◌∷◌, none, arith, length}
use glu_ke.Base.Find.{find_index}
use glu_ke.Base.Int.{pos, pos_part, ok_code}
use glu_ke.Rgn.{
  Rgn, page_size, max_nof_als, at, is_empty, count_pages, to_page_size, alloc_basic, alloc_found,
  rgn_alloc_t, rgn_alloc_base, alloc_base_in, take_base, add_tail, reserve, rgn_free,
  rgn_free_task_memory, rgn_init, blank,
}
use glu_ke.Rgn.Pages.{held}
use glu_ke.Rgn.Invariant.{IsSound}
use glu_ke.Rgn.Alloc
use glu_ke.Rgn.Alloc.{alloc_basic-Outcome}
use glu_ke.Rgn.Free
use glu_ke.Rgn.Release.{rgn_free-Outcome}
use glu_ke.Rgn.Task.{Cleaned, rgn_free_task_memory-Cleaned}
use glu_ke.Rgn.Init.{rgn_init-IsSound}
use glu_ke.Rgn.Run.{Call, run, step, run-IsSound, alloc_then_free}

abbrev ram_size : ℕ
ram_size = 2 ^ 24

abbrev machine : Rgn
machine = rgn_init ram_size

abbrev machine_sound : IsSound (ram_size / page_size) machine
machine_sound = rgn_init-IsSound ram_size (omega arith)

-- The kernel's first megabyte is taken, and then there is some work.
abbrev boot : List Call
boot = Call.alloc_base 0 (pos 0x100000) ∷ []

abbrev work : List Call
work =
    Call.alloc (pos 0x10000) (pos 2)
    ∷ Call.alloc (pos 100) (pos 3)
    ∷ Call.free 0x100000
    ∷ Call.free_task (pos 3)
    ∷ []

abbrev booted : Rgn
booted = run machine boot

abbrev booted_sound : IsSound (ram_size / page_size) booted
booted_sound = run-IsSound boot machine_sound

run-IsSound_example : IsSound (ram_size / page_size) (run booted work)
run-IsSound_example = run-IsSound work booted_sound

alloc_basic-Outcome_example :
    ((pos_part (pos 5000) ≡ 0) × (alloc_basic (pos 5000) (pos 2) booted ≡ (0, booted)))
    ⊎ Alloc.Outcome booted_sound
        (count_pages (pos_part (pos 5000)))
        (pos 2)
        (alloc_basic (pos 5000) (pos 2) booted)
alloc_basic-Outcome_example = alloc_basic-Outcome booted_sound (pos 5000) (pos 2)

rgn_free_task_memory-Cleaned_example :
    Cleaned (ram_size / page_size) (pos 2) booted max_nof_als (rgn_free_task_memory (pos 2) booted)
rgn_free_task_memory-Cleaned_example = rgn_free_task_memory-Cleaned (pos 2) booted booted_sound

first_in : 0 < length booted.reserved_als
first_in = omega (arith, booted_sound.reserved_len)

first_used : (at booted.reserved_als 0).nof_pages ≢ 0
unfolding run step rgn_init blank rgn_alloc_base alloc_base_in take_base add_tail reserve
    count_pages to_page_size find_index
first_used e = absurd (omega (arith, e))

rgn_free-Outcome_example :
    Free.Outcome booted_sound 0 first_in (rgn_free (at booted.reserved_als 0).base booted)
rgn_free-Outcome_example = rgn_free-Outcome booted_sound 0 first_in first_used

got_address : (rgn_alloc_t (pos 5000) (pos 2) booted).0 ≢ 0
unfolding run step rgn_init blank rgn_alloc_base alloc_base_in take_base add_tail reserve
    count_pages to_page_size find_index rgn_alloc_t alloc_basic alloc_found
got_address e = absurd (omega (arith, e))

has_room : find_index is_empty (rgn_alloc_t (pos 5000) (pos 2) booted).1.free_als ≢ none
unfolding run step rgn_init blank rgn_alloc_base alloc_base_in take_base add_tail reserve
    count_pages to_page_size find_index rgn_alloc_t alloc_basic alloc_found
has_room e = cc

alloc_then_free_example :
    let (base, s') = rgn_alloc_t (pos 5000) (pos 2) booted in
    ((rgn_free base s').0 ≡ ok_code)
    × ((p : ℕ) → held (rgn_free base s').1.free_als p ≡ held booted.free_als p)
alloc_then_free_example = alloc_then_free booted_sound (pos 5000) (pos 2) got_address has_room

-- The very first allocation gets the page at address 0, which the callers take for a failure.
first_address : (rgn_alloc_t (pos 5000) (pos 2) machine).0 ≡ 0
unfolding rgn_init blank rgn_alloc_base alloc_base_in take_base add_tail reserve count_pages
    to_page_size find_index rgn_alloc_t alloc_basic alloc_found
first_address = refl
