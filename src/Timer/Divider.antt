-- ===== src/Timer/Divider.antt =====
-- The frequencies that the timer and the speaker take (gluKe/sys_utils.c).
use glu_ke.Base.{
  ℕ, ◌*◌, ◌/◌, ◌%◌, ◌^◌, ◌≤◌, ◌<◌, ◌≡◌, ◌≢◌, ◌⊎◌, inl, inr, true, false, Option, some, arith, ◌==◌,
  if◌then◌else◌, Bool-cases,
}
use native.Mathlib.Nat.{le-div_iff_mul-le, div-lt_iff_lt-mul}
use glu_ke.Base.Int.{ℤ, fail_code}
use glu_ke.Timer.{
  Timer, base_frequency, is_refused, set_timer_freq, set_timer_counter, speaker_on,
  speaker_on_counter,
}

too_high : (f : ℕ) → f ≢ 0 → base_frequency / f < 1 → base_frequency < f
too_high f ne h =
    let m : base_frequency < 1 * f = (div-lt_iff_lt-mul (omega arith)).0 h in omega (arith, m)

not_high : (f : ℕ) → f ≢ 0 → 1 ≤ base_frequency / f → f ≤ base_frequency
not_high f ne h =
    let m : 1 * f ≤ base_frequency = (le-div_iff_mul-le (omega arith)).0 h in omega (arith, m)

too_low : (f : ℕ) → f ≢ 0 → 0x10000 ≤ base_frequency / f → f < 19
too_low f ne h =
    let m : 0x10000 * f ≤ base_frequency = (le-div_iff_mul-le (omega arith)).0 h in omega (arith, m)

not_low : (f : ℕ) → f ≢ 0 → base_frequency / f < 0x10000 → 19 ≤ f
not_low f ne h =
    let m : base_frequency < 0x10000 * f = (div-lt_iff_lt-mul (omega arith)).0 h in omega (arith, m)

refused_by : (c : ℕ) → is_refused c 0xffff ≡ true → (c < 1) ⊎ (0x10000 ≤ c)
refused_by c e = elim (Bool-cases (c == 0)) [
  | inl z ↦ inl (ground arith)
  | inr z ↦ inr (ground arith)
]

accepted : (c : ℕ) → is_refused c 0xffff ≡ false → (1 ≤ c) × (c < 0x10000)
accepted c e = (ground arith, ground arith)

-- What set_timer_freq and speaker_on do with a frequency that is not 0.
pub data Answer (f : ℕ) (refusal played : ℤ × Timer) : Option (ℤ × Timer) → Type 0 where
  plays : 19 ≤ f → f ≤ base_frequency → Answer f refusal played (some played)
  refuses : (f < 19) ⊎ (base_frequency < f) → Answer f refusal played (some refusal)

by_quotient :
    (f : ℕ) (refusal played : ℤ × Timer)
    → f ≢ 0
    → Answer f refusal played
        (if is_refused (base_frequency / f) 0xffff then some refusal else some played)
by_quotient f refusal played ne = elim (Bool-cases (is_refused (base_frequency / f) 0xffff)) [
  | inl refused ↦ rw refused (
      refuses (elim (refused_by _ refused) [
        | inl z ↦ inr (too_high f ne z)
        | inr big ↦ inl (too_low f ne big)
      ]))
  | inr taken ↦
      rw taken (plays (not_low f ne (accepted _ taken).1) (not_high f ne (accepted _ taken).0))
]

-- The timer takes exactly the frequencies from 19 up to that of its clock; it then remembers the
-- frequency and the time of a tick, and it changes nothing where it refuses one.
pub set_timer_freq-Answer :
    (f : ℕ) (t : Timer)
    → f ≢ 0
    → Answer f
        (fail_code, t)
        (set_timer_counter
          (base_frequency / f % 2 ^ 16)
          (record t { cur_frequency = f; cur_mksec_per_tick = 1000000 / f }))
        (set_timer_freq f t)
unfolding set_timer_freq
set_timer_freq-Answer f t ne =
    let z : (f == 0) ≡ false = ground arith in rw (set_timer_freq, z) (by_quotient f _ _ ne)

-- The speaker takes the same frequencies.
pub speaker_on-Answer :
    (f : ℕ) (t : Timer)
    → f ≢ 0
    → Answer f (fail_code, t) (speaker_on_counter (base_frequency / f % 2 ^ 16) t) (speaker_on f t)
unfolding speaker_on
speaker_on-Answer f t ne =
    let z : (f == 0) ≡ false = ground arith in rw (speaker_on, z) (by_quotient f _ _ ne)
