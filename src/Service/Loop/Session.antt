-- ===== src/Service/Loop/Session.antt =====
-- A command from the network, through the loop to the radar, and its answer back.
use psuart.Prelude.{
  if◌then◌else◌, ℕ, ◌+◌, ◌-◌, ◌<◌, ◌^◌, ◌≡◌, refl, ap, ◌∙◌, arith, List, [], ◌∷◌, ◌++◌, map,
  append_assoc, some, Bool, true, false, lt→ltb, ◌==◌, length, length-append,
}
use psuart.Utils.Serial.{is_open}
use psuart.RingBuffer.In.{Represents}
use psuart.Rader.State.{zeroed, data_flag_S, rader_dlen}
use psuart.Rader.Packet.Frame.{frame, length-frame}
use psuart.Rader.Recv.Answer.{last}
use psuart.Rader.Recv.Stream.{joined, answer}
use psuart.Rader.Command.{rader_cmd}
use psuart.Rader.Command.Accept.{command_flag, closes, awaiting}
use psuart.Rader.Command.Session.{rader_cmd-frame, obeyed_idle, awaiting-IsGathering}
use psuart.Service.{Service, wrote}
use psuart.Service.Turn.{Answers, buffer, on_udp_bytes, note_sender, wait_message_and_handle}
use psuart.Service.Turn.Ready.{IsUp, wait_ready, dispatch_udp}
use psuart.Service.Turn.Radar.{with_radar}
use psuart.Service.Loop.{serve}
use psuart.Service.Loop.Traffic.{ArePieces, uart_turns, serve_cons, serve_gathers}

-- a turn in which a datagram comes
abbrev pub udp_turn : Answers → ℕ → ℕ → List ℕ → Answers
udp_turn a udp from bytes = record a {
  select = λ rfds wfds. (1, udp ∷ [], []);
  udp_read = some bytes;
  udp_from = from;
}

-- the state behind a datagram: its sender is noted
abbrev pub noted : ℕ → Service → Service
noted from st = record st { net_ip = from; net_port = st.udpport }

note_sender_lem :
    (bytes : List ℕ) (from : ℕ) (st : Service) → note_sender (some bytes) from st ≡ noted from st
unfolding note_sender
note_sender_lem bytes from st = refl

module _ (st : Service) (flag : ℕ) (cmd rest : List ℕ) (idle : st.rader.dlen ≡ 0)
    (short : length cmd < 2 ^ 16) where
  abbrev pub datagram : List ℕ
  datagram = frame flag cmd ++ rest

  pub datagram_size : length datagram ≡ length cmd + 6 + length rest
  datagram_size = omega (arith, length-append (frame flag cmd) rest, length-frame flag cmd)

  -- A packet that has come whole in a datagram, while no answer is awaited, is obeyed.
  pub datagram_lem :
      rader_cmd st.uart_fd st.rader (buffer datagram) (length datagram)
      ≡ some (
        awaiting st.rader cmd,
        record { fd = st.uart_fd; bytes = cmd } ∷ [],
        if closes cmd then 1 else 0,
      )
  datagram_lem =
      let behind = zeroed (4096 - length datagram) in
      let start : 0 + length datagram ≡ length datagram = omega arith in
      let passed = rw start at (
        rader_cmd-frame st.uart_fd st.rader flag [] cmd (rest ++ behind) (length datagram) tt short
          (omega (arith, datagram_size))) in
      ap (λ b. rader_cmd st.uart_fd st.rader b (length datagram))
        (append_assoc (frame flag cmd) rest behind)
      ∙ passed
      ∙ ap some (obeyed_idle st.uart_fd st.rader cmd idle)

  -- It reaches the radar.
  datagram_obeyed :
      is_open st.udp_fd ≡ true
      → closes cmd ≡ false
      → on_udp_bytes st.uart_fd st.udp_fd datagram st
        ≡ some (
          with_radar st (awaiting st.rader cmd),
          wrote (record { fd = st.uart_fd; bytes = cmd }) ∷ [],
        )
  unfolding on_udp_bytes
  datagram_obeyed there open_still =
      rw
        (lt→ltb 0 (length datagram) (omega (arith, datagram_size)), there, datagram_lem, open_still)

module _ (signed : Bool) (a : Answers) (st : Service) (up : IsUp st) (from flag : ℕ)
    (cmd rest : List ℕ) (idle : st.rader.dlen ≡ 0) (short : length cmd < 2 ^ 16)
    (open_still : closes cmd ≡ false) where
  abbrev command_turn : Answers
  command_turn = udp_turn a st.udp_fd from (frame flag cmd ++ rest)

  command_taken :
      wait_message_and_handle signed command_turn st
      ≡ some (
        with_radar (noted from st) (awaiting st.rader cmd),
        wrote (record { fd = st.uart_fd; bytes = cmd }) ∷ [],
        1,
      )
  unfolding note_sender
  command_taken =
      wait_ready signed command_turn st up (st.udp_fd ∷ []) (λ rfds wfds. refl)
        (dispatch_udp signed command_turn st up
          (datagram_obeyed (noted from st) flag cmd rest idle short up.udp_open open_still))

-- While the descriptors are open, the connection is there and no answer is awaited: a datagram with a
-- known command in a whole packet, other than `S`, then turns in which the radar's bytes come, cut in
-- whatever way into reads of 1 to 4096 bytes. The loop runs through them all without a fault and goes
-- on; it writes the command to the serial port, and to the connection one packet with the command's
-- flag and as many of the first bytes as belong to the command, or none while there are fewer.
pub service_answers :
    (signed : Bool) (a : Answers) (st : Service) {q : List ℕ} (from flag : ℕ) (cmd rest : List ℕ)
    (chunks : List (List ℕ))
    → IsUp st
    → Represents last q st.rader.fifo
    → st.rader.dlen ≡ 0
    → 0 < rader_dlen (command_flag cmd)
    → (command_flag cmd == data_flag_S) ≡ false
    → closes cmd ≡ false
    → length cmd < 2 ^ 16
    → ArePieces chunks
    → (st' : Service) × (serve signed
          (udp_turn a st.udp_fd from (frame flag cmd ++ rest) ∷ uart_turns a st.uart_fd chunks)
          st
        ≡ some (
          st',
          wrote (record { fd = st.uart_fd; bytes = cmd })
              ∷ map wrote (answer st.tcp_fd (awaiting st.rader cmd) (joined chunks)),
          false,
        ))
service_answers signed a st from flag cmd rest chunks up r idle known other open_still short
      pieces =
    let st1 = with_radar (noted from st) (awaiting st.rader cmd) in
    let (r', e) =
      serve_gathers signed a st1 [] chunks up (awaiting-IsGathering st.rader cmd r known) other
        pieces in
    (
      with_radar st1 r',
      serve_cons signed (udp_turn a st.udp_fd from (frame flag cmd ++ rest))
          (uart_turns a st.uart_fd chunks) st
          (command_taken signed a st up from flag cmd rest idle short open_still) e,
    )
