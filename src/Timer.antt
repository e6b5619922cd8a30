-- ===== src/Timer.antt =====
-- The timer and the speaker of gluKe/sys_utils.c. The processor's ports are the list of what is
-- written to them, the last first, and the byte that the speaker's port holds.
pub mod Divider
use glu_ke.Base.{
  ℕ, ◌+◌, ◌*◌, ◌/◌, ◌%◌, ◌^◌, Option, none, some, Bool, List, [], ◌∷◌, ltb, ◌==◌, ◌||◌,
  if◌then◌else◌,
}
use glu_ke.Base.Int.{ℤ, pos, ok_code, fail_code}

-- The timer's variables and the ports.
pub record Timer : Type 0 where
  pub cur_frequency : ℕ
  pub cur_mksec_per_tick : ℕ
  pub speaker : ℕ
  pub writes : List (ℕ × ℕ)

abbrev pub base_frequency : ℕ
base_frequency = 1193180

-- Writing a byte to a port.
abbrev pub write_port : ℕ → ℕ → Timer → Timer
write_port port byte t = record t { writes = (port, byte % 2 ^ 8) ∷ t.writes }

-- The first port is 43 as in the source, and the low byte is written twice.
unfoldable pub set_timer_counter : ℕ → Timer → ℤ × Timer
set_timer_counter c t = (ok_code, write_port 0x40 c (write_port 0x40 c (write_port 43 0x30 t)))

-- The test of the quotient that the counter gets.
abbrev pub is_refused : ℕ → ℕ → Bool
is_refused c most = c == 0 || ltb most c

-- `none` where the division faults.
unfoldable pub set_timer_freq : ℕ → Timer → Option (ℤ × Timer)
set_timer_freq times_per_second t =
    let c = base_frequency / times_per_second in
    let t' = record t {
      cur_frequency = times_per_second;
      cur_mksec_per_tick = 1000000 / times_per_second;
    } in
    if times_per_second == 0
    then none
    else if is_refused c 0xffff
    then some (fail_code, t)
    else some (set_timer_counter (c % 2 ^ 16) t')

-- Setting both low bits of the speaker's port turns it on.
unfoldable pub speaker_on_counter : ℕ → Timer → ℤ × Timer
speaker_on_counter c t =
    let t' = write_port 0x42 (c / 2 ^ 8) (write_port 0x42 c (write_port 0x43 0xb6 t)) in
    let on = t.speaker / 4 * 4 + 3 in (ok_code, record (write_port 0x61 on t') { speaker = on })

-- `none` where the division faults.
unfoldable pub speaker_on : ℕ → Timer → Option (ℤ × Timer)
speaker_on times_per_second t =
    let c = base_frequency / times_per_second in
    if times_per_second == 0
    then none
    else if is_refused c 0xffff
    then some (fail_code, t)
    else some (speaker_on_counter (c % 2 ^ 16) t)

-- Clearing both low bits turns it off.
unfoldable pub speaker_off : Timer → ℤ × Timer
speaker_off t =
    let off = t.speaker / 4 * 4 in (ok_code, record (write_port 0x61 off t) { speaker = off })
