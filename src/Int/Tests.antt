-- ===== src/Int/Tests.antt =====
-- Sections and interrupts of gluKe/int.c.
use glu_ke.Base.Int.{pos, ok_code, fail_code}
use glu_ke.Rgn.{Rgn, unused, rgn_alloc}
use glu_ke.Base.{ℕ, ◌<◌, ◌⊎◌, ◌≢◌, get_or, ◌≡◌, refl, true, List, [], ◌∷◌, ◌++◌}
use glu_ke.Int.{Ints, int_handle, Handled, Reply, Eoi, hardware_reply, complete}
use glu_ke.Int.Idt.{Idt, stub_for, int_init, int_init-leads, Stubbed}
use glu_ke.Int.Nesting.{Section, calls, Balanced, IsShut, IsIdle, sections_end}

abbrev idle : Ints
idle = record { inited = true; off_count = 0; enabled = true }

abbrev pair : List Section
pair = Section.one ∷ Section.all ∷ []

abbrev pair_balanced : Balanced pair
pair_balanced = Balanced.within Balanced.empty Balanced.empty

sections_end_example :
    IsIdle (calls (Section.one ∷ (pair ++ (Section.all ∷ []))) idle)
    × IsShut (calls (Section.one ∷ pair) idle)
sections_end_example = sections_end idle pair_balanced Balanced.empty refl refl

timer_tick : int_handle true 0x20 ≡ Handled.done Reply.counts_time Eoi.master
unfolding int_handle hardware_reply complete
timer_tick = refl

abbrev plain_stub : List ℕ
plain_stub = 0x60 ∷ 0x6a ∷ 0 ∷ 0x6a ∷ 0 ∷ []

abbrev error_stub : List ℕ
error_stub = 0x60 ∷ 0x6a ∷ 0 ∷ 0xe8 ∷ []

abbrev no_table : Idt
no_table = record { base = 0; size = 0; gates = []; stubs = [] }

abbrev one_page : Rgn
one_page = record {
  free_als = record { base = 0x4000; nof_pages = 1; task_id = pos 0 } ∷ [];
  reserved_als = unused ∷ [];
}

int_init-leads_example :
    let out = int_init plain_stub error_stub (pos 1) no_table idle one_page in
    let block = rgn_alloc (pos 1) (pos 1152) one_page in
    (out.3 ≡ block.1)
    × (((block.0 ≡ 0) × (out.0 ≡ fail_code) × (out.1 ≡ no_table) × (out.2 ≡ idle))
        ⊎ ((block.0 ≢ 0)
            × (out.0 ≡ ok_code)
            × (out.1.base ≡ block.0)
            × (out.1.size ≡ 383)
            × (out.2 ≡ record idle { inited = true; enabled = true })
            × ((i : ℕ)
                → i < 48
                → Stubbed plain_stub error_stub block.0 i
                    (get_or out.1.gates i [])
                    (get_or out.1.stubs i []))))
int_init-leads_example = int_init-leads plain_stub error_stub (pos 1) no_table idle one_page

-- The page fault has number 14 in the byte of a stub with an error code.
page_fault_stub : stub_for plain_stub error_stub 14 ≡ 0x60 ∷ 0x6a ∷ 14 ∷ 0xe8 ∷ []
unfolding stub_for
page_fault_stub = refl
