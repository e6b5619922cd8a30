-- ===== src/MemBlock/Slots.antt =====
-- The items of a block of mylib/mem_block.c: what taking and clearing a flag does to the set of the
-- items in use.
use glu_ke.Base.{
  ℕ, suc, ◌+◌, ◌*◌, ◌<◌, ◌≤◌, ◌≡◌, refl, ap, inl, inr, Bool, true, false, not, ◌&&◌, ◌||◌, some,
  List, [], ◌∷◌, arith, ◌==◌, if◌then◌else◌, length, Bool-cases,
}
use glu_ke.MemBlock.{take_slot, clear_slot}

-- Whether the item at address `q` is in use, where the first flag is at `p`.
abbrev pub used_at : ℕ → ℕ → List ℕ → ℕ → Bool
used_at isize p [] q = false
used_at isize p (f ∷ fs) q = p + 4 == q && not (f == 0) || used_at isize (p + isize) fs q

abbrev pub count_used : List ℕ → ℕ
count_used [] = 0
count_used (f ∷ fs) = (if f == 0 then 0 else 1) + count_used fs

pub count_used-le : (fs : List ℕ) → count_used fs ≤ length fs
count_used-le [] = omega arith
count_used-le (f ∷ fs) = ground (arith, count_used-le fs)

pub used_at-below : (isize p : ℕ) (fs : List ℕ) (q : ℕ) → q < p + 4 → used_at isize p fs q ≡ false
used_at-below isize p [] q h = refl
used_at-below isize p (f ∷ fs) q h =
    ground (arith, used_at-below isize (p + isize) fs q (omega arith))

pub used_at-none :
    (isize p : ℕ) (fs : List ℕ) (q : ℕ) → count_used fs ≡ 0 → used_at isize p fs q ≡ false
used_at-none isize p [] q h = refl
used_at-none isize p (f ∷ fs) q h =
    let free : (f == 0) ≡ true = ground arith in
    ground (arith, used_at-none isize (p + isize) fs q (ground arith))

-- An item in use stands at one of the places for items.
pub used_at-place :
    (isize p : ℕ) (fs : List ℕ) (q : ℕ)
    → used_at isize p fs q ≡ true
    → (k : ℕ) × (k < length fs) × (q ≡ p + 4 + k * isize)
used_at-place isize p [] q h = cc
used_at-place isize p (f ∷ fs) q h = elim (Bool-cases (p + 4 == q)) [
  | inl here ↦ (0, omega arith, ground arith)
  | inr there ↦
      let r = used_at-place isize (p + isize) fs q (ground arith) in
      (suc r.0, omega (arith, r.1), omega (arith, r.2))
]

pub record Taken (isize p : ℕ) (fs : List ℕ) (q : ℕ) (fs' : List ℕ) : Type 0 where
  pub found : take_slot isize p fs ≡ some (q, fs')
  pub behind : p + 4 ≤ q
  pub free : used_at isize p fs q ≡ false
  pub used : (r : ℕ) → used_at isize p fs' r ≡ (q == r || used_at isize p fs r)
  pub count : count_used fs' ≡ count_used fs + 1
  pub same_length : length fs' ≡ length fs

pub take_slot-Taken :
    (isize p : ℕ) (fs : List ℕ)
    → 0 < isize
    → count_used fs < length fs
    → (q : ℕ) × (fs' : List ℕ) × Taken isize p fs q fs'
unfolding take_slot
take_slot-Taken isize p [] pos_size room = absurd (omega arith)
take_slot-Taken isize p (f ∷ fs) pos_size room = elim (Bool-cases (f == 0)) [
  | inl free ↦ (
    p + 4,
    1 ∷ fs,
    record {
      found = rw free refl;
      behind = omega arith;
      free = ground (arith, used_at-below isize (p + isize) fs (p + 4) (omega arith));
      used = λ r. rw free (ground arith);
      count = ground arith;
      same_length = refl;
    },
  )
  | inr taken ↦
      let t = take_slot-Taken isize (p + isize) fs pos_size (ground arith) in
      let v = t.2 in
      (
        t.0,
        f ∷ t.1,
        record {
          found = rw (taken, v.found) refl;
          behind = omega (arith, v.behind);
          free = ground (arith, v.free, v.behind);
          used = λ r. rw (v.used r) (ground arith);
          count = omega (arith, v.count);
          same_length = ap suc v.same_length;
        },
      )
]

pub record Cleared (isize p : ℕ) (fs : List ℕ) (q : ℕ) (fs' : List ℕ) : Type 0 where
  pub used : (r : ℕ) → used_at isize p fs' r ≡ (used_at isize p fs r && not (q == r))
  pub count : count_used fs' + 1 ≡ count_used fs
  pub same_length : length fs' ≡ length fs

pub clear_slot-Cleared :
    (isize p : ℕ) (fs : List ℕ) (q : ℕ)
    → 0 < isize
    → used_at isize p fs q ≡ true
    → Cleared isize p fs q (clear_slot isize p fs q)
unfolding clear_slot
clear_slot-Cleared isize p [] q pos_size h = cc
clear_slot-Cleared isize p (f ∷ fs) q pos_size h = elim (Bool-cases (p + 4 == q)) [
  | inl here ↦
      let below = used_at-below isize (p + isize) fs q (ground arith) in
      let in_use : (f == 0) ≡ false = ground (arith, below) in
      rw here (record {
        used = λ r. elim (Bool-cases (p + 4 == r)) [
          | inl same ↦ ground (arith, used_at-below isize (p + isize) fs r (ground arith))
          | inr other ↦
              let q_other : (q == r) ≡ false = ground arith in rw (other, q_other) (ground arith)
        ];
        count = ground arith;
        same_length = refl;
      })
  | inr there ↦
      let v = clear_slot-Cleared isize (p + isize) fs q pos_size (ground arith) in
      rw there (record {
        used = λ r. rw (v.used r) (ground arith);
        count = omega (arith, v.count);
        same_length = ap suc v.same_length;
      })
]
