-- ===== src/Base/Integers.antt =====
-- The integers over the native numbers, for the codes that the C interface returns.
use Prim.Native.Nat.{ℕ}

pub data ℤ : Type 0 where
  pos : ℕ → ℤ
  negsuc : ℕ → ℤ
