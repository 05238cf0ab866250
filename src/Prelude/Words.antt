-- ===== src/Prelude/Words.antt =====
-- Fixed-width unsigned arithmetic as C computes it, and tests of a range by evaluation.
use Prim.Native.Nat.{ℕ, zero, suc, ◌+◌, ◌-◌, ◌%◌, ◌^◌, ◌<◌}
use mathlib.Core.Path.{◌≡◌}
use mathlib.Core.Bool.{Bool, true, ◌&&◌}
use native.Mathlib.Omega.{arith}

abbrev pub u64_mod : ℕ
u64_mod = 2 ^ 64

-- The low 32, 16 and 8 bits.
abbrev pub u32 : ℕ → ℕ
u32 word = word % 2 ^ 32

abbrev pub u16 : ℕ → ℕ
u16 word = word % 2 ^ 16

abbrev pub u8 : ℕ → ℕ
u8 word = word % 2 ^ 8

-- `a - b` on uint64_t.
abbrev pub sub_u64 : ℕ → ℕ → ℕ
sub_u64 a b = (a + u64_mod - b) % u64_mod

-- The test at 0, 1, …, up to but without the last number.
unfoldable pub holds_until : (ℕ → Bool) → ℕ → Bool
holds_until test zero = true
holds_until test (suc last) = holds_until test last && test last

pub holds_until_at :
    (test : ℕ → Bool) (last : ℕ) {i : ℕ} → i < last → holds_until test last ≡ true → test i ≡ true
unfolding holds_until
holds_until_at test zero below all = absurd (omega arith)
holds_until_at test (suc last) {i} below all = ground (arith, holds_until_at test last {i = i})
