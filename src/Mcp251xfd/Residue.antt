-- ===== src/Mcp251xfd/Residue.antt =====
-- A message that ends in its CRC.
use Prim.Native.Nat.{bit_xor}
use leos_sdk.Prelude.{
  ℕ, zero, suc, ◌+◌, ◌*◌, ◌/◌, ◌%◌, ◌^◌, ◌<◌, Bool, true, ◌==◌, ==_iff, ◌≡◌, refl, ap, ◌∙◌, arith,
  List, [], ◌∷◌, ◌++◌,
}
use leos_sdk.Prelude.Words.{u16, holds_until, holds_until_at}
use leos_sdk.Mcp251xfd.Crc.{shift_bit, shift_bits, add_byte, add_bytes, crc16_cms}

-- Its low byte taken from a word leaves the high byte.
low_test : ℕ → ℕ → Bool
low_test high low = bit_xor (high * 256 + low) low == high * 256

low_row : ℕ → Bool
unfolding low_test
low_row high = holds_until (low_test high) 256

low_table : holds_until low_row 256 ≡ true
unfolding holds_until low_row low_test
low_table = refl

-- A byte taken from itself leaves nothing.
same_test : ℕ → Bool
same_test high = bit_xor high high == 0

same_table : holds_until same_test 256 ≡ true
unfolding holds_until same_test
same_table = refl

-- Eight rounds move a high byte down.
high_test : ℕ → Bool
unfolding shift_bits shift_bit
high_test high = shift_bits 8 (high * 256) == high

high_table : holds_until high_test 256 ≡ true
unfolding holds_until high_test
high_table = refl

bit_xor-low : (c : ℕ) → c < 2 ^ 16 → bit_xor c (c % 256) ≡ c / 256 * 256
bit_xor-low c h =
    let t : bit_xor (c / 256 * 256 + c % 256) (c % 256) ≡ c / 256 * 256 = (==_iff _ _).0 (
      unfold low_row low_test in
      holds_until_at (low_test (c / 256)) 256 {i = c % 256} (omega arith)
        (holds_until_at low_row 256 {i = c / 256} (omega arith) low_table)) in
    ap (λ x. bit_xor x (c % 256)) (omega arith) ∙ t

bit_xor-same : (high : ℕ) → high < 256 → bit_xor high high ≡ 0
bit_xor-same high h =
    (==_iff _ _).0 (unfold same_test in holds_until_at same_test 256 {i = high} h same_table)

shift_bits-high : (high : ℕ) → high < 256 → shift_bits 8 (high * 256) ≡ high
shift_bits-high high h =
    (==_iff _ _).0 (unfold high_test in holds_until_at high_test 256 {i = high} h high_table)

-- A CRC is a word of 16 bits.
shift_bit_bound : (crc : ℕ) → crc < 2 ^ 16 → shift_bit crc < 2 ^ 16
unfolding shift_bit
shift_bit_bound crc h = ground arith

shift_bits_bound : (n crc : ℕ) → crc < 2 ^ 16 → shift_bits n crc < 2 ^ 16
unfolding shift_bits
shift_bits_bound zero crc h = h
shift_bits_bound (suc n) crc h = shift_bits_bound n (shift_bit crc) (shift_bit_bound crc h)

add_bytes_bound : (xs : List ℕ) (crc : ℕ) → crc < 2 ^ 16 → add_bytes crc xs < 2 ^ 16
unfolding add_bytes add_byte
add_bytes_bound [] crc h = h
add_bytes_bound (x ∷ xs) crc h =
    add_bytes_bound xs (add_byte crc x) (shift_bits_bound 8 (u16 (bit_xor crc x)) (omega arith))

add_bytes-append :
    (crc : ℕ) (xs ys : List ℕ) → add_bytes crc (xs ++ ys) ≡ add_bytes (add_bytes crc xs) ys
unfolding add_bytes
add_bytes-append crc [] ys = refl
add_bytes-append crc (x ∷ xs) ys = add_bytes-append (add_byte crc x) xs ys

add_byte-low : (c : ℕ) → c < 2 ^ 16 → add_byte c (c % 256) ≡ c / 256
unfolding add_byte
add_byte-low c h =
    ap (shift_bits 8) (ap u16 (bit_xor-low c h) ∙ omega arith)
    ∙ shift_bits-high (c / 256) (omega arith)

add_byte-same : (high : ℕ) → high < 256 → add_byte high high ≡ 0
unfolding add_byte shift_bits shift_bit
add_byte-same high h = ap (λ x. shift_bits 8 (u16 x)) (bit_xor-same high h)

own_crc : (c : ℕ) → c < 2 ^ 16 → add_bytes c (c % 256 ∷ c / 256 ∷ []) ≡ 0
unfolding add_bytes
own_crc c h =
    ap (λ x. add_byte x (c / 256)) (add_byte-low c h) ∙ add_byte-same (c / 256) (omega arith)

-- The CRC of bytes followed by their CRC, low byte first, is 0; and every CRC has 16 bits.
pub crc16_cms-append :
    (xs : List ℕ)
    → (crc16_cms xs < 2 ^ 16)
      × (crc16_cms (xs ++ (crc16_cms xs % 256 ∷ crc16_cms xs / 256 ∷ [])) ≡ 0)
unfolding crc16_cms
crc16_cms-append xs =
    let bound = add_bytes_bound xs 0xFFFF (omega arith) in
    (bound, add_bytes-append 0xFFFF xs _ ∙ own_crc (add_bytes 0xFFFF xs) bound)
