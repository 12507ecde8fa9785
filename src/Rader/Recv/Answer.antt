-- ===== src/Rader/Recv/Answer.antt =====
-- One call of `rader_recv`.
use psuart.Prelude.{
  ℕ, ◌+◌, ◌≤◌, ◌<◌, ◌≡◌, refl, sym, arith, Bool, List, [], ◌∷◌, ◌++◌, some, ◌==◌, if◌then◌else◌,
  length, take, drop, length-append, length-take, length-drop, load-append, le→leb, gt→leb, lt→ltb,
  ge→ltb, load, subst, eq-nil_of_length,
}
use psuart.RingBuffer
use psuart.RingBuffer.{RingBuffer}
use psuart.RingBuffer.In.{Represents, in_bytes_fits}
use psuart.RingBuffer.View.{contents, length-contents}
use psuart.RingBuffer.Out.{out_bytes_exact}
use psuart.Rader.Packet.{set_header, set_trailer, get_packet_len}
use psuart.Rader.Packet.Frame.{
  IsPlain, header, frame, set_header_lem, set_trailer-frame, get_packet_len-frame, length-frame,
}
use psuart.Rader.State.{Rader, zeroed, length-zeroed, data_flag_S, rader_dlen, rader_init}
use psuart.Rader.Recv.{send_answer, rader_recv}

-- the last index of the fifo's storage
abbrev pub last : ℕ
last = 8191

-- The fifo holds `q`. Either no answer is awaited, or one of the length that belongs to the last
-- command, of which `q` is a part.
pub record IsGathering (st : Rader) (q : List ℕ) : Type 0 where
  pub holds : Represents last q st.fifo
  pub awaited : st.dlen ≡ rader_dlen st.cmd_flag
  pub partial : length q < st.dlen

-- Whatever the state before and whatever the array's 8192 bytes, `rader_init` leaves a valid, empty
-- fifo that can take 8191 bytes.
pub rader_init_lem :
    (rader_buf : List ℕ) (st : Rader)
    → length rader_buf ≡ 8192
    → Represents last [] (rader_init rader_buf st).fifo
unfolding rader_init RingBuffer.init
rader_init_lem rader_buf st whole = record {
  valid = record {
    storage = omega (arith, whole);
    small = omega arith;
    in_within = omega arith;
    out_within = omega arith;
  };
  same_mask = refl;
  holds =
      eq-nil_of_length (contents (rader_init rader_buf st).fifo)
        (length-contents (rader_init rader_buf st).fifo);
}

rader_dlen-IsPlain :
    (signed : Bool) (flag : ℕ) → IsPlain signed (rader_dlen flag) × (rader_dlen flag ≤ 3178)
unfolding rader_dlen
rader_dlen-IsPlain signed flag = ground arith

-- the flag that a call returns when it has sent an answer
abbrev pub sent_flag : ℕ → ℕ
sent_flag flag = if flag == data_flag_S then data_flag_S else 0

send_answer_steps :
    (signed : Bool) (buf : List ℕ) (fd : ℕ) (st : Rader) (fifo : RingBuffer) {fifo' : RingBuffer}
    {rest buf' payload packet : List ℕ} {size : ℕ}
    → set_header buf st.dlen st.cmd_flag ≡ some (header st.cmd_flag st.dlen ++ rest)
    → RingBuffer.out_bytes fifo rest st.dlen ≡ some (fifo', payload, st.dlen)
    → set_trailer signed (header st.cmd_flag st.dlen ++ payload) ≡ some buf'
    → get_packet_len signed buf' ≡ some size
    → load buf' 0 size ≡ some packet
    → send_answer signed buf fd st fifo
      ≡ some (
        record { fifo = fifo'; cmd_flag = 0; dlen = 0 },
        record { fd = fd; bytes = packet } ∷ [],
        sent_flag st.cmd_flag,
      )
unfolding send_answer
send_answer_steps signed buf fd st fifo headed taken ended measured read =
    rw (headed, taken, ended, measured, read)

module _ (signed : Bool) (buf : List ℕ) (fd : ℕ) (st : Rader) (fifo : RingBuffer) (q : List ℕ)
    (plain : IsPlain signed st.dlen) (there : st.dlen ≤ length q)
    (room : st.dlen + 6 ≤ length buf) where
  payload : List ℕ
  payload = take st.dlen q

  -- what stands behind the payload in the buffer
  tail : List ℕ
  tail = drop st.dlen (drop 4 buf)

  length-payload : length payload ≡ st.dlen
  unfolding payload
  length-payload = omega (arith, length-take st.dlen q)

  -- The buffer with header and payload gets its trailer, and the packet is read back from it.
  framed :
      (buf' : List ℕ) × (set_trailer signed (header st.cmd_flag st.dlen ++ (payload ++ tail))
        ≡ some buf')
      × (get_packet_len signed buf' ≡ some (st.dlen + 6))
      × (load buf' 0 (st.dlen + 6) ≡ some (frame st.cmd_flag payload))
  unfolding tail
  framed =
      let plain' : IsPlain signed (length payload) = rw length-payload plain in
      let packet = frame st.cmd_flag payload in
      subst
        (λ (n : ℕ).
          (buf' : List ℕ) × (set_trailer signed (header st.cmd_flag n ++ (payload ++ tail))
            ≡ some buf')
          × (get_packet_len signed buf' ≡ some (n + 6))
          × (load buf' 0 (n + 6) ≡ some packet))
        length-payload
        (
          packet ++ drop 2 tail,
          set_trailer-frame signed st.cmd_flag payload tail plain'
              (omega (arith, length-drop st.dlen (drop 4 buf), length-drop 4 buf)),
          get_packet_len-frame signed st.cmd_flag payload plain' (drop 2 tail),
          load-append [] packet (drop 2 tail) 0 (length payload + 6) refl
              (sym (length-frame st.cmd_flag payload)),
        )

  -- Sending takes the first `dlen` bytes of the fifo and leaves the others in it.
  send_answer_lem :
      Represents last q fifo
      → (fifo' : RingBuffer) × (send_answer signed buf fd st fifo
          ≡ some (
            record { fifo = fifo'; cmd_flag = 0; dlen = 0 },
            record { fd = fd; bytes = frame st.cmd_flag (take st.dlen q) } ∷ [],
            sent_flag st.cmd_flag,
          ))
        × Represents last (drop st.dlen q) fifo'
  unfolding payload tail
  send_answer_lem r =
      let (fifo', taken, r') =
        out_bytes_exact (drop 4 buf) st.dlen r there (omega (arith, length-drop 4 buf)) in
      let (buf', ended, measured, read) = framed in
      let headed = set_header_lem buf st.dlen st.cmd_flag (omega arith) in
      (fifo', send_answer_steps signed buf fd st fifo headed taken ended measured read, r')

-- While no answer is awaited nothing is gathered and nothing is sent.
pub rader_recv_idle :
    (signed : Bool) (fd : ℕ) (st : Rader) (bytes : List ℕ) (len : ℕ)
    → st.dlen ≡ 0
    → rader_recv signed fd st bytes len ≡ some (st, [], 0)
unfolding rader_recv
rader_recv_idle signed fd st bytes len idle = rw (ge→ltb 0 st.dlen (omega arith))

module _ (signed : Bool) (fd : ℕ) (st : Rader) (q bytes : List ℕ) (len : ℕ) (g : IsGathering st q)
    (enough : len ≤ length bytes) where
  -- Bytes that do not complete the answer are kept.
  pub rader_recv_partial :
      length q + len < st.dlen
      → (fifo' : RingBuffer) × (rader_recv signed fd st bytes len
          ≡ some (record st { fifo = fifo' }, [], 0))
        × IsGathering (record st { fifo = fifo' }) (q ++ take len bytes)
  unfolding rader_recv
  rader_recv_partial more =
      let small = (rader_dlen-IsPlain signed st.cmd_flag).1 in
      let (fifo', e, r) = in_bytes_fits bytes len g.holds (omega (arith, g.awaited)) enough in
      (
        fifo',
        rw (lt→ltb 0 st.dlen (omega arith), e, gt→leb st.dlen (length q + len) more),
        record {
          holds = r;
          awaited = g.awaited;
          partial = omega (arith, length-append q (take len bytes), length-take len bytes);
        },
      )

  -- Bytes that complete it send one packet, with the flag of the command and the first `dlen` bytes
  -- gathered; the state then awaits no answer.
  pub rader_recv_complete :
      len ≤ 4096
      → st.dlen ≤ length q + len
      → (fifo' : RingBuffer) × (rader_recv signed fd st bytes len
          ≡ some (
            record { fifo = fifo'; cmd_flag = 0; dlen = 0 },
            record { fd = fd; bytes = frame st.cmd_flag (take st.dlen (q ++ take len bytes)) } ∷ [],
            sent_flag st.cmd_flag,
          ))
        × Represents last (drop st.dlen (q ++ take len bytes)) fifo'
  unfolding rader_recv
  rader_recv_complete chunk whole =
      let (plain, small) = rader_dlen-IsPlain signed st.cmd_flag in
      let (fifo', e, r) =
        in_bytes_fits bytes len g.holds (omega (arith, g.awaited, g.partial)) enough in
      let (fifo'', sent, r') =
        send_answer_lem signed (zeroed 4096) fd st fifo' (q ++ take len bytes) (rw g.awaited plain)
          (omega (arith, length-append q (take len bytes), length-take len bytes))
          (omega (arith, g.awaited, length-zeroed 4096)) r in
      (
        fifo'',
        rw (lt→ltb 0 st.dlen (omega (arith, g.partial)), e, le→leb st.dlen (length q + len) whole)
            sent,
        r',
      )
