-- ===== src/Prelude/Integers.antt =====
-- Signed integers, where the program is given one. `negsuc n` is -(n + 1).
use Prim.Native.Nat.{ℕ}

pub data ℤ : Type 0 where
  pos : ℕ → ℤ
  negsuc : ℕ → ℤ
