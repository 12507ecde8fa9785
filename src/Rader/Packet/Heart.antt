-- ===== src/Rader/Packet/Heart.antt =====
-- `rader_heart` of src/rader.c.
use psuart.Prelude.{
  ℕ, ◌+◌, ◌*◌, ◌/◌, ◌%◌, ◌^◌, ◌≤◌, ◌<◌, ◌≡◌, refl, ap, ◌∙◌, arith, Bool, true, ◌⊎◌, List, ◌++◌,
  some, none, length, take, drop, length-drop, length-taken, memcpy-append, drop-drop, load-eq-none,
  u8, bit_or, length-append,
}
use psuart.Prelude.Bits.{le-bit_or}
use psuart.Rader.Packet.{get_len, data_crc, set_trailer, set_crc, rader_heart, char_int}
use psuart.Rader.Packet.Frame.{
  IsPlain, header, frame, set_header_lem, set_trailer-frame, get_packet_len-frame,
}

-- A payload whose length reads back through a `char *` is framed at the front of the buffer, with
-- flag 0, and the rest of the buffer stays. The result is the length of the packet.
pub rader_heart_lem :
    (signed : Bool) (buf bytes : List ℕ) (len : ℕ)
    → IsPlain signed len
    → len ≤ length bytes
    → len + 6 ≤ length buf
    → rader_heart signed buf bytes len
      ≡ some (frame 0 (take len bytes) ++ drop (len + 6) buf, len + 6)
unfolding rader_heart
rader_heart_lem signed buf bytes len plain enough room =
    let four : 4 + (len + 2) ≡ len + 6 = omega arith in
    let payload = take len bytes in
    let tail = drop len (drop 4 buf) in
    let size : length payload ≡ len = length-taken bytes 0 len (omega arith) in
    let headed = set_header_lem buf len 0 (omega arith) in
    let filled =
      memcpy-append (header 0 len) (drop 4 buf) bytes 4 len refl enough
        (omega (arith, length-drop 4 buf)) in
    let plain' : IsPlain signed (length payload) = rw size plain in
    let ended =
      set_trailer-frame signed 0 payload tail plain'
        (omega (arith, length-drop len (drop 4 buf), length-drop 4 buf)) in
    let measured = get_packet_len-frame signed 0 payload plain' (drop 2 tail) in
    let rest : drop 2 tail ≡ drop (len + 6) buf =
      drop-drop 2 len (drop 4 buf) ∙ drop-drop (len + 2) 4 buf ∙ ap (λ (t : ℕ). drop t buf) four in
    rw (headed, filled, rw size at ended, rw size at measured) (rw (rest, size))

-- the length read back from a header whose length has a byte that is negative as a `char`
get_len_negative :
    (n : ℕ) (rest : List ℕ)
    → (128 ≤ n / 2 ^ 8 % 2 ^ 8) ⊎ (128 ≤ n % 2 ^ 8)
    → (k : ℕ) × (get_len true (header 0 n ++ rest) ≡ some k) × (2 ^ 31 ≤ k)
unfolding get_len
get_len_negative n rest h =
    let hi = char_int true (u8 (n / 2 ^ 8)) * 2 ^ 8 % 2 ^ 32 in
    let lo = char_int true (u8 n) in (bit_or hi lo, ground arith, ground (arith, le-bit_or hi lo))

-- Where a plain `char` is signed, a length of which either byte is 128 or more makes `rader_heart`
-- read outside its buffer, one below 2 GB with room for the packet.
pub rader_heart_negative :
    (buf bytes : List ℕ) (len : ℕ)
    → (128 ≤ len / 2 ^ 8 % 2 ^ 8) ⊎ (128 ≤ len % 2 ^ 8)
    → len ≤ length bytes
    → len + 6 ≤ length buf
    → length buf < 2 ^ 31
    → rader_heart true buf bytes len ≡ none
unfolding rader_heart set_trailer set_crc data_crc
rader_heart_negative buf bytes len negative enough room small =
    let tail = drop len (drop 4 buf) in
    let headed = set_header_lem buf len 0 (omega arith) in
    let filled =
      memcpy-append (header 0 len) (drop 4 buf) bytes 4 len refl enough
        (omega (arith, length-drop 4 buf)) in
    let (k, read, huge) = get_len_negative len (take len bytes ++ tail) negative in
    let short : length (take len bytes ++ tail) ≤ length buf = omega (
      arith,
      length-append (take len bytes) tail,
      length-taken bytes 0 len (omega arith),
      length-drop len (drop 4 buf),
      length-drop 4 buf,
    ) in
    rw (
      headed,
      filled,
      read,
      load-eq-none (header 0 len ++ (take len bytes ++ tail)) 4 k (omega arith),
    )
