-- ===== src/Rader/Command.antt =====
-- `rader_cmd` of src/rader.c: a packet from the network is found, checked and passed to the radar.
-- Packets are read through an `unsigned char *`. Lines printed to the console are left out, the
-- reads that they make are not.
pub mod Find
pub mod Accept
pub mod Decode
pub mod Session
use psuart.Prelude.{
  ℕ, zero, suc, ◌+◌, List, [], ◌∷◌, Option, some, ◌>>=◌, Bool, true, false, ◌&&◌, leb, ltb, ◌==◌,
  if◌then◌else◌, drop, load, memcpy, peek,
}
use psuart.RingBuffer
use psuart.Rader.Packet.{get_begin, get_len, get_crc, get_end, get_packet_len, data_crc}
use psuart.Rader.State.{Rader, Write, zeroed, rader_flag, rader_dlen}

-- `while (len > 0 && p[0] != 0xFB) { p++; len--; }`; the list is what `p` points to.
unfoldable pub find_begin : List ℕ → ℕ → Option (List ℕ × ℕ)
find_begin p zero = some (p, zero)
find_begin p (suc len) =
    let rest = find_begin (drop 1 p) len in
    get_begin p >>= λ b. if b == 0xfb then some (p, suc len) else rest

-- `tolower` of a byte
abbrev pub lower : ℕ → ℕ
lower c = if leb b'A' c && leb c b'Z' then c + 32 else c

-- `strcasecmp(s, text) == 0` for a literal `text`: reading stops at the first difference.
unfoldable pub str_case_eq : List ℕ → List ℕ → Option Bool
str_case_eq s [] = get_begin s >>= λ c. some (c == 0)
str_case_eq s (d ∷ text) =
    let rest = str_case_eq (drop 1 s) text in
    get_begin s >>= λ c. if lower c == lower d then rest else some false

-- "close socket!"
abbrev pub close_text : List ℕ
close_text =
    b'c' ∷ b'l' ∷ b'o' ∷ b's' ∷ b'e' ∷ b' ' ∷ b's' ∷ b'o' ∷ b'c' ∷ b'k' ∷ b'e' ∷ b't' ∷ b'!' ∷ []

-- With no answer awaited, the command is noted and sent to the radar.
unfoldable pub accept_command : ℕ → Rader → List ℕ → ℕ → Option (Rader × List Write)
accept_command fd st cmd n =
    if st.dlen == 0
    then (rader_flag cmd n >>= λ flag. load cmd 0 n >>= λ bytes. some (
      record { fifo = RingBuffer.reset st.fifo; cmd_flag = flag; dlen = rader_dlen flag },
      record { fd = fd; bytes = bytes } ∷ [],
    ))
    else some (st, [])

-- whether a payload of at most 30 bytes asks to close the socket
unfoldable pub asks_close : List ℕ → ℕ → Option Bool
asks_close cmd n =
    if leb n 30
    then (memcpy (zeroed 30) 0 cmd 0 n >>= λ ch_buf. str_case_eq ch_buf close_text)
    else some false

-- a packet that passed the checks; the payload starts at `cmd`
unfoldable pub obey : ℕ → Rader → List ℕ → ℕ → Option (Rader × List Write × ℕ)
obey fd st cmd n = do
  (st', sent) ← accept_command fd st cmd n
  close ← asks_close cmd n
  some (st', sent, if close then 1 else 0)

-- the checks on a packet of which all bytes are there
unfoldable pub check_packet : ℕ → Rader → List ℕ → Option (Rader × List Write × ℕ)
check_packet fd st p = do
  n ← get_len false p
  crc ← get_crc false p
  sum ← data_crc false p
  mark ← get_end false p
  if mark == 0xfe && crc == sum then obey fd st (drop 4 p) n else some (st, [], 0)

unfoldable pub rader_cmd : ℕ → Rader → List ℕ → ℕ → Option (Rader × List Write × ℕ)
unfolding check_packet
rader_cmd fd st buf len = do
  printed ← get_begin buf
  (p, left) ← find_begin buf len
  size ← get_packet_len false p
  if ltb left size then some (st, [], 0) else check_packet fd st p
