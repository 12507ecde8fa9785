-- ===== src/Utils/Hex/Laws.antt =====
-- Encoding in hexadecimal digits and back.
use psuart.Prelude.{
  ℕ, suc, ◌+◌, ◌-◌, ◌*◌, ◌/◌, ◌%◌, ◌≤◌, ◌<◌, ◌≡◌, refl, sym, ap, ◌∙◌, arith, List, [], ◌∷◌, ◌++◌,
  Option, some, none, ◌>>=◌, Bool, true, false, ◌&&◌, ltb, ◌==◌, if◌then◌else◌, length, bit_and,
  ge→ltb, lt→ltb, u8, ◌||◌,
}
use psuart.Prelude.Bits.{every_below, every_below_lem}
use psuart.Rader.Crc.Laws.{AreBytes}
use psuart.Utils.Hex.{
  hex_char, encode_loop, hex_encode, hex_encode_get_required_length, get_hex_value, decode_round,
  decode_loop, hex_decode, hex_decode_get_required_length,
}

-- the two digits of a byte
abbrev pub digits_of : ℕ → List ℕ
digits_of b = hex_char (b / 16) ∷ hex_char (b % 16) ∷ []

abbrev pub encoded : List ℕ → List ℕ
encoded [] = []
encoded (b ∷ bs) = hex_char (b / 16) ∷ hex_char (b % 16) ∷ encoded bs

nibble_row : ℕ → Bool
nibble_row b = bit_and (b / 16) 0x0f == b / 16 && bit_and b 0x0f == b % 16

nibble_table : every_below 256 nibble_row ≡ true
unfolding every_below nibble_row
nibble_table = refl

nibbles : (b : ℕ) → b < 256 → (bit_and (b / 16) 0x0f ≡ b / 16) × (bit_and b 0x0f ≡ b % 16)
unfolding nibble_row
nibbles b h = let row = every_below_lem 256 nibble_row b nibble_table h in ground arith

encode_loop_lem :
    (bytes rest : List ℕ)
    → AreBytes bytes
    → encode_loop (bytes ++ rest) (length bytes) ≡ some (encoded bytes)
unfolding encode_loop
encode_loop_lem [] rest h = refl
encode_loop_lem (b ∷ bytes) rest h = ground (arith, encode_loop_lem bytes rest h.1, nibbles b h.0)

length-encoded : (bytes : List ℕ) → length (encoded bytes) ≡ 2 * length bytes
length-encoded [] = omega arith
length-encoded (b ∷ bytes) = omega (arith, length-encoded bytes)

-- With room for two characters a byte and a terminator, encoding writes two digits for each byte;
-- with less it fails and writes nothing.
pub hex_encode_lem :
    (bytes rest : List ℕ) (dest_len : ℕ)
    → AreBytes bytes
    → hex_encode (bytes ++ rest) (length bytes) dest_len
      ≡ (if ltb dest_len (2 * length bytes + 1) then some none else some (some (encoded bytes)))
unfolding hex_encode hex_encode_get_required_length
hex_encode_lem bytes rest dest_len h = rw (encode_loop_lem bytes rest h)

digit :
    (d : ℕ)
    → d < 16
    → (get_hex_value (hex_char d) ≡ some d) × ((hex_char d == b'\r' || hex_char d == b'\n') ≡ false)
unfolding get_hex_value
digit d h = ground arith

decode_pair :
    (b : ℕ) (src : List ℕ) (rest : Option (Option (List ℕ)))
    → b < 256
    → decode_round (hex_char (b / 16) ∷ hex_char (b % 16) ∷ src) rest
      ≡ (rest >>= λ decoded. some (decoded >>= λ bytes. some (b ∷ bytes)))
unfolding decode_round
decode_pair b src rest h =
    let (hi, plain) = digit (b / 16) (omega arith) in
    let (lo, plain') = digit (b % 16) (omega arith) in
    let back : u8 (16 * (b / 16) + b % 16) ≡ b = omega arith in
    let first : ltb 0 (suc (suc (length src))) ≡ true = lt→ltb _ _ (omega arith) in
    let second : ltb 1 (suc (suc (length src))) ≡ true = lt→ltb _ _ (omega arith) in
    rw (first, plain, second, hi, lo, back)

decode_loop_lem :
    (bytes rest : List ℕ)
    → AreBytes bytes
    → decode_loop (encoded bytes ++ rest) (2 * length bytes) ≡ some (some bytes)
unfolding decode_loop
decode_loop_lem [] rest h = refl
decode_loop_lem (b ∷ bytes) rest h =
    let two : 2 * suc (length bytes) ≡ suc (suc (2 * length bytes)) = omega arith in
    rw (two, decode_loop_lem bytes rest h.1)
      (decode_pair b (encoded bytes ++ rest) (some (some bytes)) h.0)

decode_loop_odd :
    (bytes rest : List ℕ)
    → AreBytes bytes
    → 0 < length bytes
    → decode_loop (encoded bytes ++ rest) (2 * length bytes - 1) ≡ some (some bytes)
unfolding decode_loop
decode_loop_odd [] rest h one = absurd (omega arith)
decode_loop_odd (b ∷ []) rest h one = decode_pair b rest (some (some [])) h.0
decode_loop_odd (b ∷ c ∷ bytes) rest h one =
    let two : 2 * suc (suc (length bytes)) - 1 ≡ suc (suc (2 * suc (length bytes) - 1)) =
      omega arith in
    rw (two, decode_loop_odd (c ∷ bytes) rest h.1 (omega arith))
      (decode_pair b (encoded (c ∷ bytes) ++ rest) (some (some (c ∷ bytes))) h.0)

-- What encoding wrote decodes, with room for them, to the bytes that were encoded, whatever stands
-- behind it.
pub hex_decode-encode :
    (bytes rest after : List ℕ) (dest_len room : ℕ) {written : List ℕ}
    → AreBytes bytes
    → hex_encode (bytes ++ rest) (length bytes) dest_len ≡ some (some written)
    → length bytes ≤ room
    → hex_decode (written ++ after) (length written) room ≡ some (some bytes)
unfolding hex_decode hex_decode_get_required_length
hex_decode-encode bytes rest after dest_len room {written} h e enough =
    let same : encoded bytes ≡ written = ground (arith, hex_encode_lem bytes rest dest_len h) in
    let size : length written ≡ 2 * length bytes = sym (ap length same) ∙ length-encoded bytes in
    let fits : ltb room (length written / 2) ≡ false = ge→ltb _ _ (omega arith) in
    rw (fits, size, ← same) (decode_loop_lem bytes after h)

-- An odd number of characters, with a further digit behind them, decodes to one byte more than
-- the length that the caller is told to provide.
pub hex_decode_odd :
    (bytes after : List ℕ) (room : ℕ)
    → AreBytes bytes
    → 0 < length bytes
    → length bytes - 1 ≤ room
    → (hex_decode_get_required_length (2 * length bytes - 1) ≡ length bytes - 1)
      × (hex_decode (encoded bytes ++ after) (2 * length bytes - 1) room ≡ some (some bytes))
unfolding hex_decode hex_decode_get_required_length
hex_decode_odd bytes after room h some_byte enough =
    let half : (2 * length bytes - 1) / 2 ≡ length bytes - 1 = omega arith in
    let fits : ltb room (length bytes - 1) ≡ false = ge→ltb _ _ enough in
    (half, rw (half, fits) (decode_loop_odd bytes after h some_byte))
