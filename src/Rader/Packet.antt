-- ===== src/Rader/Packet.antt =====
-- The macros ERUP_* of inc/rader.h and `rader_heart` of src/rader.c. `signed` says whether a plain
-- `char` is signed, which the compiler chooses; a length read through an `unsigned char *` takes
-- `false`. An access outside the array is a fault, `none`.
pub mod Frame
pub mod Heart
use psuart.Prelude.{
  ℕ, ◌+◌, ◌-◌, ◌*◌, ◌/◌, ◌%◌, ◌^◌, Bool, ◌&&◌, List, Option, some, ◌>>=◌, leb, if◌then◌else◌, add32,
  bit_or, u8, peek, poke, load, memcpy,
}
use psuart.Rader.Crc.{crc8}

-- a `char` promoted to `int`, as a pattern of 32 bits
abbrev pub char_int : Bool → ℕ → ℕ
char_int signed b = if signed && leb 128 b then b + 2 ^ 32 - 256 else b

unfoldable pub get_begin : List ℕ → Option ℕ
get_begin buf = peek buf 0

-- `buf[1] << 8 | buf[2]`, as a pattern of 32 bits
unfoldable pub get_len : Bool → List ℕ → Option ℕ
get_len signed buf = do
  hi ← peek buf 1
  lo ← peek buf 2
  some (bit_or (char_int signed hi * 2 ^ 8 % 2 ^ 32) (char_int signed lo))

unfoldable pub get_crc : Bool → List ℕ → Option ℕ
get_crc signed buf = do n ← get_len signed buf; peek buf (add32 n 4)

unfoldable pub get_end : Bool → List ℕ → Option ℕ
get_end signed buf = do n ← get_len signed buf; peek buf (add32 n 5)

unfoldable pub get_packet_len : Bool → List ℕ → Option ℕ
get_packet_len signed buf = do n ← get_len signed buf; some (add32 n 6)

-- `crc8(ERUP_GET_DATA(buf), ERUP_GET_LEN(buf))`
unfoldable pub data_crc : Bool → List ℕ → Option ℕ
data_crc signed buf = do n ← get_len signed buf; bytes ← load buf 4 n; some (crc8 bytes)

unfoldable pub set_begin : List ℕ → Option (List ℕ)
set_begin buf = poke buf 0 0xfb

unfoldable pub set_len : List ℕ → ℕ → Option (List ℕ)
set_len buf val = do buf' ← poke buf 1 (u8 (val / 2 ^ 8)); poke buf' 2 (u8 val)

unfoldable pub set_flag : List ℕ → ℕ → Option (List ℕ)
set_flag buf val = poke buf 3 (u8 val)

unfoldable pub set_crc : Bool → List ℕ → Option (List ℕ)
set_crc signed buf = do crc ← data_crc signed buf; n ← get_len signed buf; poke buf (add32 n 4) crc

unfoldable pub set_end : Bool → List ℕ → Option (List ℕ)
set_end signed buf = do n ← get_len signed buf; poke buf (add32 n 5) 0xfe

-- `ERUP_SET_BEGIN`, `ERUP_SET_LEN` and `ERUP_SET_FLAG`, as `rader_heart` and `rader_recv` call them
unfoldable pub set_header : List ℕ → ℕ → ℕ → Option (List ℕ)
set_header buf val flag = do begun ← set_begin buf; sized ← set_len begun val; set_flag sized flag

-- `ERUP_SET_CRC` and `ERUP_SET_END`
unfoldable pub set_trailer : Bool → List ℕ → Option (List ℕ)
set_trailer signed buf = do summed ← set_crc signed buf; set_end signed summed

-- The result is the buffer and the length of the packet in it.
unfoldable pub rader_heart : Bool → List ℕ → List ℕ → ℕ → Option (List ℕ × ℕ)
rader_heart signed buf bytes len = do
  headed ← set_header buf len 0
  filled ← memcpy headed 4 bytes 0 len
  ended ← set_trailer signed filled
  n ← get_packet_len signed ended
  some (ended, n)
