-- ===== src/Prelude/Int.antt =====
-- The integers that a caller may pass where the source says `int(...)`.
use Prim.Native.Nat.{ℕ}

-- `negsuc n` is -(n + 1).
pub data ℤ : Type 0 where
  pos : ℕ → ℤ
  negsuc : ℕ → ℤ
