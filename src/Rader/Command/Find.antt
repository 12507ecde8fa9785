-- ===== src/Rader/Command/Find.antt =====
-- Finding the start of a packet, and the checks on it.
use psuart.Prelude.{
  ℕ, zero, suc, ◌+◌, ◌≤◌, ◌<◌, ◌^◌, ◌≡◌, refl, arith, false, ◌&&◌, List, [], ◌∷◌, ◌++◌, Option,
  some, none, ◌==◌, if◌then◌else◌, length, drop, append-nil, lt→ltb, ge→ltb,
}
use psuart.Rader.Crc.{crc8}
use psuart.Rader.Packet.{get_begin, get_len, get_packet_len}
use psuart.Rader.Packet.Frame.{
  IsPlain, layout, get_len-layout, get_packet_len-layout, get_crc-layout, get_end-layout,
  data_crc-layout,
}
use psuart.Rader.State.{Rader, Write}
use psuart.Rader.Command.{find_begin, obey, check_packet, rader_cmd}

-- no byte is the begin mark
abbrev pub HasNoBegin : List ℕ → Type 0
HasNoBegin [] = Unit {0}
HasNoBegin (b ∷ bs) = ((b == 0xfb) ≡ false) × HasNoBegin bs

pub get_begin-cons : (b : ℕ) (bs : List ℕ) → get_begin (b ∷ bs) ≡ some b
unfolding get_begin
get_begin-cons b bs = ground arith

-- Bytes in front of the begin mark are passed over.
find_begin_lem :
    (noise rest : List ℕ) (k : ℕ)
    → HasNoBegin noise
    → find_begin (noise ++ 0xfb ∷ rest) (length noise + suc k) ≡ some (0xfb ∷ rest, suc k)
unfolding find_begin
find_begin_lem [] rest k h =
    let same : 0 + suc k ≡ suc k = omega arith in rw (same, get_begin-cons 0xfb rest)
find_begin_lem (b ∷ noise) rest k h =
    let same : suc (length noise) + suc k ≡ suc (length noise + suc k) = omega arith in
    rw (same, get_begin-cons b (noise ++ 0xfb ∷ rest), h.0) (find_begin_lem noise rest k h.1)

-- Without a begin mark every byte is.
pub find_begin_none :
    (buf rest : List ℕ) → HasNoBegin buf → find_begin (buf ++ rest) (length buf) ≡ some (rest, 0)
unfolding find_begin
find_begin_none [] rest h = refl
find_begin_none (b ∷ buf) rest h =
    rw (get_begin-cons b (buf ++ rest), h.0) (find_begin_none buf rest h.1)

-- the outcome of the checks on a packet with this checksum and end mark
abbrev pub verdict : ℕ → Rader → List ℕ → ℕ → ℕ → List ℕ → Option (Rader × List Write × ℕ)
verdict fd st cmd crc mark rest =
    if mark == 0xfe && crc == crc8 cmd
    then obey fd st (cmd ++ crc ∷ mark ∷ rest) (length cmd)
    else some (st, [], 0)

module _ (fd : ℕ) (st : Rader) (flag : ℕ) (cmd : List ℕ) (crc mark : ℕ) (rest : List ℕ)
    (short : length cmd < 2 ^ 16) where
  plain : IsPlain false (length cmd)
  plain = (short, refl, refl)

  pub check_packet_lem :
      check_packet fd st (layout flag cmd (crc ∷ mark ∷ rest)) ≡ verdict fd st cmd crc mark rest
  unfolding check_packet
  check_packet_lem = rw (
    get_len-layout false flag cmd plain (crc ∷ mark ∷ rest),
    get_crc-layout false flag cmd plain crc mark rest,
    data_crc-layout false flag cmd plain (crc ∷ mark ∷ rest),
    get_end-layout false flag cmd plain crc mark rest,
  )

  some_begin : (noise p : List ℕ) → (b : ℕ) × (get_begin (noise ++ 0xfb ∷ p) ≡ some b)
  some_begin [] p = (0xfb, get_begin-cons 0xfb p)
  some_begin (b ∷ noise) p = (b, get_begin-cons b (noise ++ 0xfb ∷ p))

  -- Behind bytes that are no begin mark, a packet of which all bytes have come is checked.
  pub rader_cmd_whole :
      (noise : List ℕ) (k : ℕ)
      → HasNoBegin noise
      → length cmd + 6 ≤ k
      → rader_cmd fd st (noise ++ layout flag cmd (crc ∷ mark ∷ rest)) (length noise + k)
        ≡ verdict fd st cmd crc mark rest
  unfolding rader_cmd
  rader_cmd_whole noise zero h whole = absurd (omega arith)
  rader_cmd_whole noise (suc k) h whole =
      let (b, e) = some_begin noise (drop 1 (layout flag cmd (crc ∷ mark ∷ rest))) in
      rw
        (
          e,
          find_begin_lem noise (drop 1 (layout flag cmd (crc ∷ mark ∷ rest))) k h,
          get_packet_len-layout false flag cmd plain (crc ∷ mark ∷ rest),
          ge→ltb (suc k) (length cmd + 6) whole,
        )
        check_packet_lem

  -- One of which some are missing is left for a later call.
  pub rader_cmd_cut :
      (noise : List ℕ) (k : ℕ)
      → HasNoBegin noise
      → 0 < k
      → k < length cmd + 6
      → rader_cmd fd st (noise ++ layout flag cmd (crc ∷ mark ∷ rest)) (length noise + k)
        ≡ some (st, [], 0)
  unfolding rader_cmd
  rader_cmd_cut noise zero h pos cut = absurd (omega arith)
  rader_cmd_cut noise (suc k) h pos cut =
      let (b, e) = some_begin noise (drop 1 (layout flag cmd (crc ∷ mark ∷ rest))) in
      rw (
        e,
        find_begin_lem noise (drop 1 (layout flag cmd (crc ∷ mark ∷ rest))) k h,
        get_packet_len-layout false flag cmd plain (crc ∷ mark ∷ rest),
        lt→ltb (suc k) (length cmd + 6) cut,
      )

-- A buffer filled to its end, with no begin mark in it, is read past its end.
pub rader_cmd_overrun :
    (fd : ℕ) (st : Rader) (buf : List ℕ) → HasNoBegin buf → rader_cmd fd st buf (length buf) ≡ none
unfolding rader_cmd get_packet_len get_len get_begin
rader_cmd_overrun fd st [] h = refl
rader_cmd_overrun fd st (b ∷ buf) h =
    rw (get_begin-cons b buf, rw append-nil at (find_begin_none (b ∷ buf) [] h))
