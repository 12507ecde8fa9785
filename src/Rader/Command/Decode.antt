-- ===== src/Rader/Command/Decode.antt =====
-- What `rader_cmd` makes of any bytes, against a decoder that is written on lists.
use psuart.Prelude.{
  ℕ, zero, suc, ◌+◌, ◌*◌, ◌/◌, ◌≤◌, ◌<◌, ◌^◌, ◌≡◌, refl, ap, ◌∙◌, arith, false, ◌&&◌, List, [], ◌∷◌,
  ◌++◌, append_assoc, Option, some, none, ◌>>=◌, leb, ltb, ◌==◌, ==_iff, if◌then◌else◌, length,
  take, drop, get_or, length-take, Bool-cases, inl, inr, leb→le, le→leb, lt→ltb, ge→ltb, u8,
}
use psuart.Prelude.Bits.{bit_or_bytes}
use psuart.Rader.Crc.{crc8}
use psuart.Rader.Crc.Laws.{AreBytes}
use psuart.Rader.Packet.{get_begin, get_len, get_packet_len}
use psuart.Rader.Packet.Frame.{header, layout}
use psuart.Rader.State.{Rader, Write}
use psuart.Rader.Command.{find_begin, check_packet, rader_cmd}
use psuart.Rader.Command.Find.{get_begin-cons, check_packet_lem}
use psuart.Rader.Command.Accept.{obeyed, obey_lem}

-- what stands from the first begin mark on
abbrev pub from_begin : List ℕ → List ℕ
from_begin [] = []
from_begin (b ∷ bs) = if b == 0xfb then b ∷ bs else from_begin bs

-- the first `n` bytes, if behind them stand their checksum and the end mark
abbrev pub sealed : ℕ → List ℕ → Option (List ℕ)
sealed n rest =
    if leb (n + 2) (length rest)
    then (if get_or rest (n + 1) 0 == 0xfe && get_or rest n 0 == crc8 (take n rest)
        then some (take n rest)
        else none)
    else none

-- the payload of a packet: begin mark, length in two bytes, flag, payload, checksum, end mark
abbrev pub payload_of : List ℕ → Option (List ℕ)
payload_of (b ∷ hi ∷ lo ∷ flag ∷ rest) = sealed (hi * 256 + lo) rest
payload_of p = none

-- the command that these bytes carry
abbrev pub carried : List ℕ → Option (List ℕ)
carried bytes = payload_of (from_begin bytes)

-- what is done about it
abbrev pub reaction : ℕ → Rader → Option (List ℕ) → Rader × List Write × ℕ
reaction fd st none = (st, [], 0)
reaction fd st (some cmd) = obeyed fd st cmd

find_begin-from_begin :
    (bytes behind : List ℕ)
    → find_begin (bytes ++ behind) (length bytes)
      ≡ some (from_begin bytes ++ behind, length (from_begin bytes))
unfolding find_begin
find_begin-from_begin [] behind = refl
find_begin-from_begin (b ∷ bytes) behind = elim (Bool-cases (b == 0xfb)) [
  | inl mark ↦ rw (get_begin-cons b (bytes ++ behind), mark)
  | inr other ↦ rw (get_begin-cons b (bytes ++ behind), other) (find_begin-from_begin bytes behind)
]

from_begin-AreBytes : (bytes : List ℕ) → AreBytes bytes → AreBytes (from_begin bytes)
from_begin-AreBytes [] h = tt
from_begin-AreBytes (b ∷ bytes) h = elim (Bool-cases (b == 0xfb)) [
  | inl mark ↦ rw mark h
  | inr other ↦ rw other (from_begin-AreBytes bytes h.1)
]

-- it is empty or starts with the mark
StartsWithMark : List ℕ → Type 0
StartsWithMark [] = Unit {0}
StartsWithMark (b ∷ bs) = b ≡ 0xfb

from_begin-StartsWithMark : (bytes : List ℕ) → StartsWithMark (from_begin bytes)
unfolding StartsWithMark
from_begin-StartsWithMark [] = tt
from_begin-StartsWithMark (b ∷ bytes) = elim (Bool-cases (b == 0xfb)) [
  | inl mark ↦ rw mark ((==_iff b 0xfb).0 mark)
  | inr other ↦ rw other (from_begin-StartsWithMark bytes)
]

-- two bytes behind the first `n`
split_at :
    (n : ℕ) (rest : List ℕ)
    → n + 2 ≤ length rest
    → rest ≡ take n rest ++ get_or rest n 0 ∷ get_or rest (n + 1) 0 ∷ drop (n + 2) rest
split_at zero (a ∷ b ∷ rest) h = refl
split_at (suc n) (a ∷ rest) h =
    let one : suc n + 1 ≡ suc (n + 1) = omega arith in
    let two : suc n + 2 ≡ suc (n + 2) = omega arith in
    rw (one, two) (ap (λ xs. a ∷ xs) (split_at n rest (omega arith)))
split_at n [] h = absurd (omega arith)
split_at zero (a ∷ []) h = absurd (omega arith)

get_packet_len-bytes :
    (b hi lo : ℕ) (rest : List ℕ)
    → hi < 256
    → lo < 256
    → get_packet_len false (b ∷ hi ∷ lo ∷ rest) ≡ some (hi * 256 + lo + 6)
unfolding get_packet_len get_len
get_packet_len-bytes b hi lo rest p q = ground (arith, bit_or_bytes hi lo)

-- the checksum and the mark behind the first `n` bytes
abbrev crc_at : ℕ → List ℕ → ℕ
crc_at n rest = get_or rest n 0

abbrev mark_at : ℕ → List ℕ → ℕ
mark_at n rest = get_or rest (n + 1) 0

header_same :
    (n hi lo flag : ℕ) (xs : List ℕ)
    → n ≡ hi * 256 + lo
    → hi < 256
    → lo < 256
    → flag < 256
    → 0xfb ∷ hi ∷ lo ∷ flag ∷ xs ≡ 0xfb ∷ u8 (n / 2 ^ 8) ∷ u8 n ∷ u8 flag ∷ xs
header_same n hi lo flag xs e p q r =
    let high : u8 (n / 2 ^ 8) ≡ hi = omega arith in
    let low : u8 n ≡ lo = omega arith in
    let same : u8 flag ≡ flag = omega arith in rw (high, low, same)

module _ (hi lo flag : ℕ) (rest behind : List ℕ) (p : hi < 256) (q : lo < 256) (r : flag < 256)
    (whole : hi * 256 + lo + 2 ≤ length rest) where
  abbrev size : ℕ
  size = hi * 256 + lo

  as_layout :
      0xfb ∷ hi ∷ lo ∷ flag ∷ rest ++ behind
      ≡ layout flag
          (take size rest)
          (crc_at size rest ∷ mark_at size rest ∷ (drop (size + 2) rest ++ behind))
  as_layout =
      let n : length (take size rest) ≡ size = omega (arith, length-take size rest) in
      ap (λ xs. 0xfb ∷ hi ∷ lo ∷ flag ∷ (xs ++ behind)) (split_at size rest whole)
      ∙ header_same (length (take size rest)) hi lo flag _ n p q r
      ∙ ap (λ xs. header flag (length (take size rest)) ++ xs)
          (append_assoc (take size rest) _ behind)

  check_packet-sealed :
      (fd : ℕ) (st : Rader)
      → check_packet fd st (0xfb ∷ hi ∷ lo ∷ flag ∷ rest ++ behind)
        ≡ some (reaction fd st (sealed size rest))
  check_packet-sealed fd st =
      let cmd = take size rest in
      let crc = crc_at size rest in
      let mark = mark_at size rest in
      let left = drop (size + 2) rest ++ behind in
      let checked =
        check_packet_lem fd st flag cmd crc mark left (omega (arith, length-take size rest)) in
      let enough = le→leb (size + 2) (length rest) whole in
      ap (check_packet fd st) as_layout
      ∙ checked
      ∙ elim (Bool-cases (mark == 0xfe && crc == crc8 cmd)) [
        | inl good ↦ rw (good, enough) (obey_lem fd st cmd (crc ∷ mark ∷ left))
        | inr bad ↦ rw (bad, enough)
      ]

-- the checks that `rader_cmd` makes on what stands at the begin mark
abbrev checked_packet : ℕ → Rader → List ℕ → ℕ → Option (Rader × List Write × ℕ)
checked_packet fd st p left = do
  size ← get_packet_len false p
  if ltb left size then some (st, [], 0) else check_packet fd st p

-- fewer bytes than the smallest packet has
too_few :
    (fd : ℕ) (st : Rader) (b hi lo : ℕ) (rest : List ℕ) (left : ℕ)
    → hi < 256
    → lo < 256
    → left < hi * 256 + lo + 6
    → checked_packet fd st (b ∷ hi ∷ lo ∷ rest) left ≡ some (st, [], 0)
too_few fd st b hi lo rest left p q few =
    rw (get_packet_len-bytes b hi lo rest p q, lt→ltb left (hi * 256 + lo + 6) few)

checked_packet_lem :
    (fd : ℕ) (st : Rader) (p behind : List ℕ)
    → AreBytes p
    → StartsWithMark p
    → checked_packet fd st (p ++ 0 ∷ 0 ∷ 0 ∷ behind) (length p)
      ≡ some (reaction fd st (payload_of p))
unfolding StartsWithMark
checked_packet_lem fd st [] behind h m =
    too_few fd st 0 0 0 behind 0 (omega arith) (omega arith) (omega arith)
checked_packet_lem fd st (b ∷ []) behind h m =
    too_few fd st b 0 0 (0 ∷ behind) 1 (omega arith) (omega arith) (omega arith)
checked_packet_lem fd st (b ∷ hi ∷ []) behind h m =
    too_few fd st b hi 0 (0 ∷ 0 ∷ behind) 2 h.1.0 (omega arith) (omega arith)
checked_packet_lem fd st (b ∷ hi ∷ lo ∷ []) behind h m =
    too_few fd st b hi lo (0 ∷ 0 ∷ 0 ∷ behind) 3 h.1.0 h.1.1.0 (omega arith)
checked_packet_lem fd st (b ∷ hi ∷ lo ∷ flag ∷ rest) behind (_, (p, (q, (r, _)))) m =
    let size = hi * 256 + lo in
    let left = length (b ∷ hi ∷ lo ∷ flag ∷ rest) in
    elim (Bool-cases (leb (size + 2) (length rest))) [
      | inl whole ↦
          let enough = leb→le (size + 2) (length rest) whole in
          rw
            (
              get_packet_len-bytes b hi lo (flag ∷ rest ++ 0 ∷ 0 ∷ 0 ∷ behind) p q,
              ge→ltb left (size + 6) (omega arith),
              m,
            )
            (check_packet-sealed hi lo flag rest (0 ∷ 0 ∷ 0 ∷ behind) p q r enough fd st)
      | inr cut ↦
          rw cut (
            too_few fd st b hi lo (flag ∷ rest ++ 0 ∷ 0 ∷ 0 ∷ behind) left p q
              (ground (arith, cut)))
    ]

-- Whatever the bytes, with three zero bytes behind them in the array: `rader_cmd` reads nothing outside
-- it, and does to the radar's state, writes and returns what the decoder on lists says. The bytes carry
-- a command if a whole packet with the right checksum and end mark stands at the first begin mark; it
-- is obeyed then, and otherwise the bytes are ignored.
pub rader_cmd-carried :
    (fd : ℕ) (st : Rader) (bytes behind : List ℕ)
    → AreBytes bytes
    → rader_cmd fd st (bytes ++ 0 ∷ 0 ∷ 0 ∷ behind) (length bytes)
      ≡ some (reaction fd st (carried bytes))
unfolding rader_cmd
rader_cmd-carried fd st bytes behind h =
    let (b, e) = first_byte bytes in
    rw (e, find_begin-from_begin bytes (0 ∷ 0 ∷ 0 ∷ behind))
      (checked_packet_lem fd st (from_begin bytes) behind (from_begin-AreBytes bytes h)
        (from_begin-StartsWithMark bytes))
  where
    first_byte : (bytes : List ℕ) → (b : ℕ) × (get_begin (bytes ++ 0 ∷ 0 ∷ 0 ∷ behind) ≡ some b)
    first_byte [] = (0, get_begin-cons 0 _)
    first_byte (b ∷ bytes) = (b, get_begin-cons b _)
