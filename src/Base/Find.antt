-- ===== src/Base/Find.antt =====
-- The search loops of the source, `for(i=0;i<N && !p(a[i]);i++);`, as a function and its laws.
use Prim.Native.Nat.{ℕ, zero, suc, ◌<◌}
use mathlib.Core.Path.{◌≡◌, refl}
use mathlib.Core.Bool.{Bool, true, false}
use mathlib.Core.Option
use mathlib.Core.Option.{Option, none, some}
use mathlib.Core.List.{List, [], ◌∷◌, ◌++◌}
use native.Mathlib.Omega.{arith}
use glu_ke.Base.Lists.{length, get_or, All}
use glu_ke.Base.Tests.{if◌then◌else◌}

module _ {ℓ} {A : Type ℓ} where
  -- The index at which such a loop stops; `none` if it runs to the end of the array.
  unfoldable pub find_index : (A → Bool) → List A → Option ℕ
  find_index p [] = none
  find_index p (x ∷ xs) = if p x then some 0 else Option.map suc (find_index p xs)

  pub find_index-lt :
      (p : A → Bool) (xs : List A) (i : ℕ) → find_index p xs ≡ some i → i < length xs
  unfolding find_index
  find_index-lt p [] i e = cc
  find_index-lt p (x ∷ xs) zero e = omega arith
  find_index-lt p (x ∷ xs) (suc i) e = ground (arith, find_index-lt p xs i)

  -- The element at which the loop stops passes the test.
  pub find_index-holds :
      (p : A → Bool) (xs : List A) (d : A) (i : ℕ)
      → find_index p xs ≡ some i
      → p (get_or xs i d) ≡ true
  unfolding find_index
  find_index-holds p [] d i e = cc
  find_index-holds p (x ∷ xs) d zero e = ground arith
  find_index-holds p (x ∷ xs) d (suc i) e = ground (arith, find_index-holds p xs d i)

  -- Every element before it fails the test.
  pub find_index-first :
      (p : A → Bool) (xs : List A) (d : A) (i j : ℕ)
      → find_index p xs ≡ some i
      → j < i
      → p (get_or xs j d) ≡ false
  unfolding find_index
  find_index-first p [] d i j e h = cc
  find_index-first p (x ∷ xs) d zero j e h = absurd (omega arith)
  find_index-first p (x ∷ xs) d (suc i) zero e h = ground arith
  find_index-first p (x ∷ xs) d (suc i) (suc j) e h = ground (arith, find_index-first p xs d i j)

  -- If the loop runs to the end, no element passes the test.
  pub find_index-none :
      (p : A → Bool) (xs : List A) (d : A) (j : ℕ)
      → find_index p xs ≡ none
      → j < length xs
      → p (get_or xs j d) ≡ false
  unfolding find_index
  find_index-none p [] d j e h = absurd (omega arith)
  find_index-none p (x ∷ xs) d zero e h = ground arith
  find_index-none p (x ∷ xs) d (suc j) e h = ground (arith, find_index-none p xs d j)

  -- An element that passes is found, there or before.
  pub find_index-total :
      (p : A → Bool) (xs : List A) (d : A) (j : ℕ)
      → j < length xs
      → p (get_or xs j d) ≡ true
      → (i : ℕ) × (find_index p xs ≡ some i) × (i < suc j)
  unfolding find_index
  find_index-total p [] d j h e = absurd (omega arith)
  find_index-total p (x ∷ xs) d zero h e = (0, ground arith, omega arith)
  find_index-total p (x ∷ xs) d (suc j) h e =
      step (p x) refl (find_index-total p xs d j (omega arith) e)
    where
      step :
          (b : Bool)
          → p x ≡ b
          → ((i : ℕ) × (find_index p xs ≡ some i) × (i < suc j))
          → (i : ℕ) × (find_index p (x ∷ xs) ≡ some i) × (i < suc (suc j))
      step true e' r = (0, rw e', omega arith)
      step false e' r = (suc r.0, rw (e', r.1), omega (arith, r.2))

  -- The loop stops at an element that is appended, if it passes and the others do not.
  pub find_index-append :
      (p : A → Bool) (xs : List A) (y : A)
      → All (λ x. p x ≡ false) xs
      → p y ≡ true
      → find_index p (xs ++ (y ∷ [])) ≡ some (length xs)
  unfolding find_index
  find_index-append p [] y h e = rw e refl
  find_index-append p (x ∷ xs) y h e = rw (h.0, find_index-append p xs y h.1 e) refl
