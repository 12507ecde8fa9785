-- ===== src/Rader/Packet/Frame.antt =====
-- Packets as byte strings, and the macros that write and read them.
use psuart.Prelude.{
  ℕ, ◌+◌, ◌/◌, ◌%◌, ◌^◌, ◌≤◌, ◌<◌, ◌≡◌, refl, ap, ◌∙◌, arith, Bool, false, ◌&&◌, List, [], ◌∷◌,
  ◌++◌, some, leb, add32, u8, poke, length, drop, length-append, load-append, poke-append,
  peek-append, append_assoc,
}
use psuart.Prelude.Bits.{bit_or_bytes}
use psuart.Rader.Crc.{crc8}
use psuart.Rader.Packet.{
  get_len, get_crc, get_end, get_packet_len, data_crc, set_begin, set_len, set_flag, set_crc,
  set_end, set_header, set_trailer,
}

-- begin mark, length, flag
abbrev pub header : ℕ → ℕ → List ℕ
header flag n = 0xfb ∷ u8 (n / 2 ^ 8) ∷ u8 n ∷ u8 flag ∷ []

-- checksum, end mark
abbrev pub trailer : ℕ → List ℕ
trailer crc = crc ∷ 0xfe ∷ []

-- a whole packet with the payload `bytes`
abbrev pub frame : ℕ → List ℕ → List ℕ
frame flag bytes = header flag (length bytes) ++ bytes ++ trailer (crc8 bytes)

-- A length that the macros write comes back through a `char *` as it was.
abbrev pub IsPlain : Bool → ℕ → Type 0
IsPlain signed n =
    (n < 2 ^ 16)
    × ((signed && leb 128 (n / 2 ^ 8)) ≡ false)
    × ((signed && leb 128 (n % 2 ^ 8)) ≡ false)

get_len-header :
    (signed : Bool) (flag n : ℕ) (rest : List ℕ)
    → IsPlain signed n
    → get_len signed (header flag n ++ rest) ≡ some n
unfolding get_len
get_len-header signed flag n rest p = ground (arith, bit_or_bytes (n / 2 ^ 8) (n % 2 ^ 8))

-- An array that starts with a packet's header and payload; `rest` stands behind the payload.
abbrev pub layout : ℕ → List ℕ → List ℕ → List ℕ
layout flag bytes rest = header flag (length bytes) ++ (bytes ++ rest)

-- header and payload, in front of the trailer
abbrev pub body : ℕ → List ℕ → List ℕ
body flag bytes = header flag (length bytes) ++ bytes

pub set_header_lem :
    (buf : List ℕ) (n flag : ℕ)
    → 4 ≤ length buf
    → set_header buf n flag ≡ some (header flag n ++ drop 4 buf)
unfolding set_header set_begin set_len set_flag
set_header_lem (a ∷ b ∷ c ∷ d ∷ r) n flag h = ground arith
set_header_lem (a ∷ b ∷ c ∷ []) n flag h = absurd (omega arith)
set_header_lem (a ∷ b ∷ []) n flag h = absurd (omega arith)
set_header_lem (a ∷ []) n flag h = absurd (omega arith)
set_header_lem [] n flag h = absurd (omega arith)

module _ (signed : Bool) (flag : ℕ) (bytes : List ℕ) (plain : IsPlain signed (length bytes)) where
  pub get_len-layout :
      (rest : List ℕ) → get_len signed (layout flag bytes rest) ≡ some (length bytes)
  get_len-layout rest = get_len-header signed flag (length bytes) (bytes ++ rest) plain

  pub data_crc-layout :
      (rest : List ℕ) → data_crc signed (layout flag bytes rest) ≡ some (crc8 bytes)
  unfolding data_crc
  data_crc-layout rest = rw (
    get_len-layout rest,
    load-append (header flag (length bytes)) bytes rest 4 (length bytes) refl refl,
  )

  index : (k : ℕ) → k ≤ 6 → add32 (length bytes) k ≡ length bytes + k
  index k small = omega (arith, plain)

  poke-layout :
      (x : ℕ) (rest : List ℕ) (v : ℕ)
      → poke (layout flag bytes (x ∷ rest)) (add32 (length bytes) 4) v
        ≡ some (layout flag bytes (v ∷ rest))
  poke-layout x rest v =
      poke-append (body flag bytes) x rest (add32 (length bytes) 4) v
        (omega (arith, index 4 (omega arith)))

  poke_next-layout :
      (x y : ℕ) (rest : List ℕ) (v : ℕ)
      → poke (layout flag bytes (x ∷ y ∷ rest)) (add32 (length bytes) 5) v
        ≡ some (layout flag bytes (x ∷ v ∷ rest))
  poke_next-layout x y rest v =
      let at_y =
        poke-append (body flag bytes ++ x ∷ []) y rest (add32 (length bytes) 5) v
          (omega (arith, index 5 (omega arith), length-append bytes (x ∷ []))) in
      simp append_assoc at at_y

  pub set_trailer_lem :
      (x y : ℕ) (rest : List ℕ)
      → set_trailer signed (layout flag bytes (x ∷ y ∷ rest))
        ≡ some (layout flag bytes (trailer (crc8 bytes) ++ rest))
  unfolding set_trailer set_crc set_end
  set_trailer_lem x y rest = rw (
    data_crc-layout (x ∷ y ∷ rest),
    get_len-layout (x ∷ y ∷ rest),
    poke-layout x (y ∷ rest) (crc8 bytes),
    get_len-layout (crc8 bytes ∷ y ∷ rest),
    poke_next-layout (crc8 bytes) y rest 0xfe,
  )

-- the packet and what stands behind it
pub framed-append :
    (flag : ℕ) (bytes rest : List ℕ)
    → layout flag bytes (trailer (crc8 bytes) ++ rest) ≡ frame flag bytes ++ rest
framed-append flag bytes rest = simp append_assoc

module _ (signed : Bool) (flag : ℕ) (bytes : List ℕ) (plain : IsPlain signed (length bytes)) where
  -- whatever stands where checksum and end mark belong
  pub get_crc-layout :
      (crc mark : ℕ) (rest : List ℕ)
      → get_crc signed (layout flag bytes (crc ∷ mark ∷ rest)) ≡ some crc
  unfolding get_crc
  get_crc-layout crc mark rest = rw (get_len-layout signed flag bytes plain (crc ∷ mark ∷ rest)) (
      peek-append (body flag bytes) crc (mark ∷ rest) (add32 (length bytes) 4)
        (omega (arith, index signed flag bytes plain 4 (omega arith))))

  pub get_end-layout :
      (crc mark : ℕ) (rest : List ℕ)
      → get_end signed (layout flag bytes (crc ∷ mark ∷ rest)) ≡ some mark
  unfolding get_end
  get_end-layout crc mark rest =
      let at_end = peek-append (body flag bytes ++ crc ∷ []) mark rest (add32 (length bytes) 5) (
        omega
          (arith, index signed flag bytes plain 5 (omega arith), length-append bytes (crc ∷ []))) in
      rw (get_len-layout signed flag bytes plain (crc ∷ mark ∷ rest)) (simp append_assoc at at_end)

  pub get_packet_len-layout :
      (rest : List ℕ) → get_packet_len signed (layout flag bytes rest) ≡ some (length bytes + 6)
  unfolding get_packet_len
  get_packet_len-layout rest =
      rw (get_len-layout signed flag bytes plain rest)
        (ap some (index signed flag bytes plain 6 (omega arith)))

  pub get_packet_len-frame :
      (rest : List ℕ) → get_packet_len signed (frame flag bytes ++ rest) ≡ some (length bytes + 6)
  get_packet_len-frame rest =
      rw (← framed-append flag bytes rest) (get_packet_len-layout (trailer (crc8 bytes) ++ rest))

-- The trailer goes over the two elements behind the payload.
pub set_trailer-frame :
    (signed : Bool) (flag : ℕ) (bytes rest : List ℕ)
    → IsPlain signed (length bytes)
    → 2 ≤ length rest
    → set_trailer signed (layout flag bytes rest) ≡ some (frame flag bytes ++ drop 2 rest)
set_trailer-frame signed flag bytes (x ∷ y ∷ rest) plain h =
    set_trailer_lem signed flag bytes plain x y rest ∙ ap some (framed-append flag bytes rest)
set_trailer-frame signed flag bytes (x ∷ []) plain h = absurd (omega arith)
set_trailer-frame signed flag bytes [] plain h = absurd (omega arith)

pub length-frame : (flag : ℕ) (bytes : List ℕ) → length (frame flag bytes) ≡ length bytes + 6
length-frame flag bytes = omega (arith, length-append bytes (trailer (crc8 bytes)))
