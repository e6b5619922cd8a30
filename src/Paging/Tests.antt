-- ===== src/Paging/Tests.antt =====
-- Paging on a machine with 16 megabytes, and a small table (gluKe/sys_utils.c).
use glu_ke.Base.{ℕ, ◌*◌, ◌/◌, ◌^◌, ◌<◌, ◌≡◌, refl, ◌⊎◌, some, none, ltb, if◌then◌else◌, arith}
use glu_ke.Base.Int.{pos, ok_code, fail_code}
use glu_ke.Rgn.{rgn_init, page_size}
use glu_ke.Rgn.Init.{rgn_init-IsSound}
use glu_ke.Paging.{Memory, fill_table, init_paging}
use glu_ke.Paging.Identity.{translate, init_paging-translate}

abbrev no_memory : Memory
no_memory a = 7

init_paging-translate_example :
    let out = init_paging (pos 1) (2 ^ 24) (rgn_init (2 ^ 24)) no_memory in
    (out.0 ≡ fail_code)
    ⊎ ((out.0 ≡ ok_code)
        × ((va : ℕ)
            → va < 2 ^ 32
            → translate out.2.memory out.1 va
              ≡ (if ltb va (2 ^ 24 / 0x400000 * 0x400000) then some va else none)))
init_paging-translate_example =
    init_paging-translate (2 ^ 24 / page_size) (pos 1) (2 ^ 24) (rgn_init (2 ^ 24)) no_memory
      (rgn_init-IsSound (2 ^ 24) (omega arith)) (omega arith)

second_entry : (fill_table 3 0 2 0x4000 0x8000 no_memory).1 0x4004 ≡ 0x9003
unfolding fill_table
second_entry = refl

behind_the_pages : (fill_table 3 0 2 0x4000 0x8000 no_memory).1 0x4008 ≡ 0
unfolding fill_table
behind_the_pages = refl
