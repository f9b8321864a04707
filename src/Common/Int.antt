-- ===== src/Common/Int.antt =====
-- Signed numbers, for `pb_ssize_t`, and the address at a signed offset.
use Prim.Native.Nat.{ℕ, zero, suc, ◌+◌, ◌-◌}
use mathlib.Core.Bool.{Bool, true, false}

-- `negsuc n` is -(n + 1).
pub data ℤ : Type 0 where
  pos : ℕ → ℤ
  negsuc : ℕ → ℤ

-- Is the number other than 0?
abbrev pub nonzero : ℤ → Bool
nonzero (pos zero) = false
nonzero (pos (suc n)) = true
nonzero (negsuc n) = true

-- `(char*)p + d`
abbrev pub offset : ℕ → ℤ → ℕ
offset p (pos n) = p + n
offset p (negsuc n) = p - suc n
