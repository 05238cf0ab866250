-- ===== src/Mcp251xfd/Crc.antt =====
-- The CRC of src/leos_mcp251xfd/platform.c.
use Prim.Native.Nat.{bit_xor}
use leos_sdk.Prelude.{ℕ, zero, suc, ◌/◌, ◌%◌, if◌then◌else◌, ◌==◌, List, [], ◌∷◌}
use leos_sdk.Prelude.Words.{u16}

-- One round of the inner loop: a shift, and the polynomial where a 1 was shifted out.
unfoldable pub shift_bit : ℕ → ℕ
shift_bit crc = if crc % 2 == 1 then u16 (bit_xor (crc / 2) 0xA001) else crc / 2

unfoldable pub shift_bits : ℕ → ℕ → ℕ
unfolding shift_bit
shift_bits zero crc = crc
shift_bits (suc n) crc = shift_bits n (shift_bit crc)

unfoldable pub add_byte : ℕ → ℕ → ℕ
unfolding shift_bits
add_byte crc byte = shift_bits 8 (u16 (bit_xor crc byte))

unfoldable pub add_bytes : ℕ → List ℕ → ℕ
unfolding add_byte
add_bytes crc [] = crc
add_bytes crc (byte ∷ data_bytes) = add_bytes (add_byte crc byte) data_bytes

unfoldable pub crc16_cms : List ℕ → ℕ
unfolding add_bytes
crc16_cms data_bytes = add_bytes 0xFFFF data_bytes
