-- ===== src/Prelude/Int.antt =====
-- Signed integers, for int8_t, int16_t and int32_t values.
use Prim.Native.Nat.{ℕ, ◌-◌, ◌/◌, ◌^◌, ◌<◌}
use mathlib.Core.Bool.{Bool, true, false}
use leos_sdk.Prelude.Tests.{ltb, if◌then◌else◌}

-- `negsuc n` is -(n + 1).
pub data ℤ : Type 0 where
  pos : ℕ → ℤ
  negsuc : ℕ → ℤ

abbrev pub is_negative : ℤ → Bool
is_negative (negsuc _) = true
is_negative (pos _) = false

-- The conversion of a 16-bit pattern to int16_t.
abbrev pub int16 : ℕ → ℤ
int16 w = if ltb w (2 ^ 15) then pos w else negsuc (2 ^ 16 - 1 - w)

-- `value >> k` on a signed integer: the division by 2 ^ k that rounds down.
abbrev pub shift_right : ℤ → ℕ → ℤ
shift_right (pos n) k = pos (n / 2 ^ k)
shift_right (negsuc n) k = negsuc (n / 2 ^ k)

-- -limit ≤ value < limit.
abbrev pub IsWithin : ℕ → ℤ → Type 0
IsWithin limit (pos n) = n < limit
IsWithin limit (negsuc n) = n < limit

-- The conversion of an 8-bit pattern to int8_t.
abbrev pub int8 : ℕ → ℤ
int8 w = if ltb w (2 ^ 7) then pos w else negsuc (2 ^ 8 - 1 - w)
