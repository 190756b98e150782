-- ===== src/Prelude/Int.antt =====
-- Signed numbers of days: `negsuc n` is -(n + 1).
use Prim.Native.Nat.{ℕ, suc, ◌+◌, ◌-◌}

pub data ℤ : Type 0 where
  pos : ℕ → ℤ
  negsuc : ℕ → ℤ

-- A natural number moved by a signed one; 0 is the least.
abbrev pub shift : ℕ → ℤ → ℕ
shift d (pos n) = d + n
shift d (negsuc n) = d - suc n
