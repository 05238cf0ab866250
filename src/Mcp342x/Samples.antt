-- ===== src/Mcp342x/Samples.antt =====
-- What a sample decodes to.
use leos_sdk.Prelude.{ℕ, zero, suc, ◌+◌, ◌-◌, ◌*◌, ◌/◌, ◌%◌, ◌^◌, ◌<◌, ◌≡◌, refl, arith}
use leos_sdk.Prelude.Int.{ℤ, pos, negsuc, int16, shift_right, IsWithin}
use leos_sdk.Mcp342x.Read.{shift_of, decode}

-- 2048, 8192 and 32768: the range of a sample of 12, 14 and 16 bits.
abbrev pub half_range : ℕ → ℕ
half_range zero = 2048
half_range (suc zero) = 8192
half_range (suc (suc _)) = 32768

-- The bits of a sample, at the top of the two data bytes.
abbrev pub sample_bits : ℕ → ℕ
sample_bits zero = 12
sample_bits (suc zero) = 14
sample_bits (suc (suc _)) = 16

-- The sample that is in the top bits of the two data bytes, with its sign.
abbrev pub sample_value : ℕ → ℕ → ℕ → ℤ
sample_value res b0 b1 = shift_right (int16 (b0 * 256 + b1)) (16 - sample_bits res)

-- The 16-bit two's complement pattern of a sample moved to the top of the word.
abbrev pub left_aligned : ℕ → ℤ → ℕ
left_aligned k (pos n) = n * 2 ^ k
left_aligned k (negsuc n) = 2 ^ 16 - (n + 1) * 2 ^ k

pub decode-sample_value : (res b0 b1 : ℕ) → decode res b0 b1 ≡ sample_value res b0 b1
unfolding decode shift_of
decode-sample_value zero b0 b1 = refl
decode-sample_value (suc zero) b0 b1 = refl
decode-sample_value (suc (suc n)) b0 b1 = refl

-- Two data bytes decode to a sample in the range of the resolution: 12 bits at 0, 14 at 1 and 16
-- otherwise, sign included.
pub decode-IsWithin :
    (res b0 b1 : ℕ) → b0 < 256 → b1 < 256 → IsWithin (half_range res) (decode res b0 b1)
unfolding decode shift_of
decode-IsWithin zero b0 b1 h l = ground arith
decode-IsWithin (suc zero) b0 b1 h l = ground arith
decode-IsWithin (suc (suc n)) b0 b1 h l = ground arith

-- Every sample of that range is what its two's complement pattern decodes to when it stands in the
-- top 12, 14 or 16 bits of the two data bytes.
pub decode-left_aligned :
    (res : ℕ) (v : ℤ)
    → IsWithin (half_range res) v
    → let word = left_aligned (16 - sample_bits res) v in decode res (word / 256) (word % 256) ≡ v
unfolding decode shift_of
decode-left_aligned zero (pos n) h = ground arith
decode-left_aligned zero (negsuc n) h = ground arith
decode-left_aligned (suc zero) (pos n) h = ground arith
decode-left_aligned (suc zero) (negsuc n) h = ground arith
decode-left_aligned (suc (suc r)) (pos n) h = ground arith
decode-left_aligned (suc (suc r)) (negsuc n) h = ground arith
