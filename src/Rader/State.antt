-- ===== src/Rader/State.antt =====
-- The file-level state of src/rader.c, its start, and the commands that it knows.
use psuart.Prelude.{
  ℕ, List, [], ◌==◌, if◌then◌else◌, ltb, Option, some, ◌>>=◌, u16, peek, replicate, length,
  length-replicate, drop-replicate, drop, ◌-◌, ◌≡◌, refl,
}
use psuart.RingBuffer
use psuart.RingBuffer.{RingBuffer}

-- `raderFifo`, `rdaerCmdFlag` and `raderDlen`
pub record Rader : Type 0 where
  pub fifo : RingBuffer
  pub cmd_flag : ℕ
  pub dlen : ℕ

-- a call `write(fd, bytes, n)`
pub record Write : Type 0 where
  pub fd : ℕ
  pub bytes : List ℕ

abbrev pub data_flag_F : ℕ
data_flag_F = 0x01

abbrev pub data_flag_f : ℕ
data_flag_f = 0x02

abbrev pub data_flag_m : ℕ
data_flag_m = 0x10

abbrev pub data_flag_M : ℕ
data_flag_M = 0x11

abbrev pub data_flag_p : ℕ
data_flag_p = 0x20

abbrev pub data_flag_S : ℕ
data_flag_S = 0x21

-- `n` bytes of zero, as `memset` and static storage have them
pub zeroed : ℕ → List ℕ
zeroed n = replicate n 0

pub zeroed_lem : (n : ℕ) → zeroed n ≡ replicate n 0
unfolding zeroed
zeroed_lem n = refl

pub length-zeroed : (n : ℕ) → length (zeroed n) ≡ n
unfolding zeroed
length-zeroed n = length-replicate n 0

-- the state when the program starts
abbrev pub initial : Rader
initial = record {
  fifo = record { in_index = 0; out_index = 0; mask = 0; rdata = [] };
  cmd_flag = 0;
  dlen = 0;
}

abbrev pub rader_buf_size : ℕ
rader_buf_size = 8192

-- The array `raderBuf`, of which nothing is cleared, becomes the storage.
unfoldable pub rader_init : List ℕ → Rader → Rader
rader_init rader_buf st = record st { fifo = (RingBuffer.init rader_buf rader_buf_size).0 }

-- the comparisons of `rader_flag` with its first byte
unfoldable pub flag_of_byte : ℕ → ℕ
flag_of_byte c =
    if c == b'f'
    then data_flag_f
    else if c == b'F'
    then data_flag_F
    else if c == b'p'
    then data_flag_p
    else if c == b'm'
    then data_flag_m
    else if c == b'M'
    then data_flag_M
    else if c == b'S'
    then data_flag_S
    else 0

-- `cmd[0]` is read only if there is a byte.
unfoldable pub rader_flag : List ℕ → ℕ → Option ℕ
rader_flag cmd len = if ltb len 1 then some 0 else do c ← peek cmd 0; some (flag_of_byte c)

unfoldable pub rader_dlen : ℕ → ℕ
rader_dlen flag =
    if flag == data_flag_f
    then 3172
    else if flag == data_flag_F
    then 3178
    else if flag == data_flag_p
    then 1024
    else if flag == data_flag_m
    then 2144
    else if flag == data_flag_M
    then 64
    else if flag == data_flag_S
    then 10
    else 0

unfoldable pub set_rader_dlen : Rader → ℕ → Rader
set_rader_dlen st value = record st { dlen = u16 value }

-- `n` zero bytes less `k` of them
pub drop-zeroed : (k n : ℕ) → drop k (zeroed n) ≡ zeroed (n - k)
unfolding zeroed
drop-zeroed k n = drop-replicate k n 0
