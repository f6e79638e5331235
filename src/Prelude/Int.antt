-- ===== src/Prelude/Int.antt =====
-- The integers that a Python `int` may be where it can be negative. `negsuc n` is -(n + 1).
use Prim.Native.Nat.{ℕ}

pub data ℤ : Type 0 where
  pos : ℕ → ℤ
  negsuc : ℕ → ℤ
