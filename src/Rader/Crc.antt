-- ===== src/Rader/Crc.antt =====
-- `crc8` of src/rader.c. A byte is a number below 256.
pub mod Laws
use psuart.Prelude.{ℕ, zero, suc, ◌/◌, ◌%◌, List, [], ◌∷◌, if◌then◌else◌, ◌==◌, bit_and, bit_xor}

-- the body of the inner loop
unfoldable pub shift_bit : ℕ → ℕ
shift_bit crc = if bit_and crc 0x01 == 0 then crc / 2 else bit_xor (crc / 2) 0x8c

unfoldable pub shift_bits : ℕ → ℕ → ℕ
unfolding shift_bit
shift_bits zero crc = crc
shift_bits (suc left) crc = shift_bits left (shift_bit crc)

-- one round of the outer loop
unfoldable pub crc_byte : ℕ → ℕ → ℕ
unfolding shift_bits
crc_byte crc b = shift_bits 8 (bit_xor crc b)

-- the outer loop, over the bytes that are left
unfoldable pub crc_from : ℕ → List ℕ → ℕ
crc_from crc [] = crc
crc_from crc (b ∷ buffer) = crc_from (crc_byte crc b) buffer

unfoldable pub crc8 : List ℕ → ℕ
crc8 buffer = crc_from 0 buffer
