-- ===== src/Common/Int.antt =====
-- `int`, whose values at hand lie far within the bounds of the machine's type.
use Prim.Native.Nat.{ℕ}

-- `negsuc n` is -(n + 1).
pub data ℤ : Type 0 where
  pos : ℕ → ℤ
  negsuc : ℕ → ℤ
