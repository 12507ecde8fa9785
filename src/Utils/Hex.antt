-- ===== src/Utils/Hex.antt =====
-- `HexEncode`, `GetHexValue` and `HexDecode` of src/utils.c. Pointers are not null. The destination
-- is an array of `*pnDestLen` elements at least; a read past the source's end is a fault.
pub mod Laws
use psuart.Prelude.{
  ℕ, zero, suc, ◌+◌, ◌-◌, ◌*◌, ◌/◌, ◌%◌, List, [], ◌∷◌, Option, some, none, ◌>>=◌, Bool, true,
  false, ◌&&◌, ◌||◌, leb, ltb, ◌==◌, if◌then◌else◌, peek, drop, u8, bit_and,
}

unfoldable pub hex_encode_get_required_length : ℕ → ℕ
hex_encode_get_required_length n = 2 * n + 1

unfoldable pub hex_decode_get_required_length : ℕ → ℕ
hex_decode_get_required_length n = n / 2

-- `s_chHexChars[d]` at `d < 16`
abbrev pub hex_char : ℕ → ℕ
hex_char d = if ltb d 10 then b'0' + d else b'A' + d - 10

-- The loop: the characters written for the bytes read.
unfoldable pub encode_loop : List ℕ → ℕ → Option (List ℕ)
encode_loop src zero = some []
encode_loop src (suc left) = do
  ch ← peek src 0
  rest ← encode_loop (drop 1 src) left
  some (hex_char (bit_and (ch / 16) 0x0f) ∷ hex_char (bit_and ch 0x0f) ∷ rest)

-- `FALSE` is `some none`; else what was written, whose length is the new `*pnDestLen`.
unfoldable pub hex_encode : List ℕ → ℕ → ℕ → Option (Option (List ℕ))
hex_encode src src_len dest_len =
    if ltb dest_len (hex_encode_get_required_length src_len)
    then some none
    else (encode_loop src src_len >>= λ written. some (some written))

-- `HEX_INVALID` is `none`.
unfoldable pub get_hex_value : ℕ → Option ℕ
get_hex_value ch =
    if leb b'0' ch && leb ch b'9'
    then some (ch - b'0')
    else if leb b'A' ch && leb ch b'F'
    then some (ch - b'A' + 10)
    else if leb b'a' ch && leb ch b'f'
    then some (ch - b'a' + 10)
    else none

-- what two characters give, and what the rest gave
abbrev pub join_digits : Option ℕ → Option ℕ → Option (Option (List ℕ)) → Option (Option (List ℕ))
join_digits (some hi) (some lo) rest =
    rest >>= λ decoded. some (decoded >>= λ bytes. some (u8 (16 * hi + lo) ∷ bytes))
join_digits _ _ rest = some none

-- One round of the loop, `rest` being what the later rounds give.
unfoldable pub decode_round : List ℕ → Option (Option (List ℕ)) → Option (Option (List ℕ))
decode_round src rest = peek src 0 >>= λ c1.
    if c1 == b'\r' || c1 == b'\n'
    then some (some [])
    else (peek src 1 >>= λ c2. join_digits (get_hex_value c1) (get_hex_value c2) rest)

-- The loop; the number is `nSrcLen - nRead`, which the last round of an odd length takes below 0.
unfoldable pub decode_loop : List ℕ → ℕ → Option (Option (List ℕ))
unfolding decode_round
decode_loop src zero = some (some [])
decode_loop src (suc zero) = decode_round src (some (some []))
decode_loop src (suc (suc left)) = decode_round src (decode_loop (drop 2 src) left)

unfoldable pub hex_decode : List ℕ → ℕ → ℕ → Option (Option (List ℕ))
hex_decode src src_len dest_len =
    if ltb dest_len (hex_decode_get_required_length src_len)
    then some none
    else decode_loop src src_len
