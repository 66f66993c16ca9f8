-- ===== src/Prelude/Int.antt =====
-- Signed integers over the native numbers, as far as offsets of days need them.
use Prim.Native.Nat.{ℕ, suc, ◌+◌, ◌-◌}

-- `negsuc n` is -(n + 1).
pub data ℤ : Type 0 where
  pos : ℕ → ℤ
  negsuc : ℕ → ℤ

-- `d + n`, for a sum that is not negative.
abbrev pub shift : ℕ → ℤ → ℕ
shift d (pos n) = d + n
shift d (negsuc n) = d - suc n
