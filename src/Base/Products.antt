-- ===== src/Base/Products.antt =====
-- Products of numbers.
use Prim.Native.Nat.{ℕ, zero, suc, ◌+◌, ◌*◌, ◌≤◌, ◌<◌}
use native.Mathlib.Omega.{arith}

-- The piece before the last ends within all of them.
pub piece-end : (n k m : ℕ) → k < m → k * n + n ≤ n * m
piece-end n k zero h = absurd (omega arith)
piece-end n zero (suc m) h = omega arith
piece-end n (suc k) (suc m) h = omega (arith, piece-end n k m (omega arith))
