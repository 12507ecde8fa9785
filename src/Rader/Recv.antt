-- ===== src/Rader/Recv.antt =====
-- `rader_recv` of src/rader.c: bytes from the radar are gathered until the answer to the last
-- command is whole, and then sent on in one packet.
pub mod Answer
pub mod Stream
use psuart.Prelude.{
  ℕ, ◌+◌, Bool, List, [], ◌∷◌, ◌++◌, Option, some, ◌>>=◌, leb, ltb, ◌==◌, if◌then◌else◌, take, drop,
  load,
}
use psuart.RingBuffer
use psuart.RingBuffer.{RingBuffer}
use psuart.Rader.Packet.{set_header, set_trailer, get_packet_len}
use psuart.Rader.State.{Rader, Write, zeroed, data_flag_S}

-- the body of the `if`, with the fifo that holds a whole answer; `buf` is the local array
unfoldable pub send_answer :
    Bool → List ℕ → ℕ → Rader → RingBuffer → Option (Rader × List Write × ℕ)
send_answer signed buf fd st fifo = do
  headed ← set_header buf st.dlen st.cmd_flag
  (fifo', payload, n) ← RingBuffer.out_bytes fifo (drop 4 headed) st.dlen
  ended ← set_trailer signed (take 4 headed ++ payload)
  size ← get_packet_len signed ended
  packet ← load ended 0 size
  some (
    record { fifo = fifo'; cmd_flag = 0; dlen = 0 },
    record { fd = fd; bytes = packet } ∷ [],
    if st.cmd_flag == data_flag_S then data_flag_S else 0,
  )

-- The result is the new state, what was written, and the flag returned.
unfoldable pub rader_recv : Bool → ℕ → Rader → List ℕ → ℕ → Option (Rader × List Write × ℕ)
rader_recv signed fd st bytes len =
    if ltb 0 st.dlen
    then (RingBuffer.in_bytes st.fifo bytes len >>= λ (fifo', held).
        if leb st.dlen held
        then send_answer signed (zeroed 4096) fd st fifo'
        else some (record st { fifo = fifo' }, [], 0))
    else some (st, [], 0)
