-- ===== src/Service/Loop/Chain.antt =====
-- Two commands that start something else: `S`, whose answer makes the service send `F`, and the text that
-- closes the connection.
use psuart.Prelude.{
  ℕ, ◌+◌, ◌≤◌, ◌<◌, ◌^◌, ◌≡◌, refl, arith, List, [], ◌∷◌, ◌++◌, map, some, Bool, true, false,
  lt→ltb, ◌==◌, length, take,
}
use psuart.Rader.State.{data_flag_S, rader_dlen, flag_of_byte}
use psuart.Rader.Packet.Frame.{frame}
use psuart.Rader.Recv.Answer.{IsGathering}
use psuart.Rader.Recv.Stream.{joined, answer}
use psuart.Rader.Command.Accept.{command_flag, closes, awaiting}
use psuart.Rader.Command.Session.{awaiting-IsGathering}
use psuart.Service.{Service, wrote, closed}
use psuart.Service.Socket.{close_tcp_socket}
use psuart.Service.Turn.{Answers, on_udp_bytes, note_sender, wait_message_and_handle}
use psuart.Service.Turn.Ready.{IsUp, wait_ready, dispatch_udp}
use psuart.Service.Turn.Radar.{with_radar, idle_with, next_command, uart_bytes_last}
use psuart.Service.Loop.{serve}
use psuart.Service.Loop.Traffic.{
  ArePieces, uart_turn, uart_turns, uart_turn_lem, serve_cons, serve_gathers,
}
use psuart.Service.Loop.Session.{datagram_size, datagram_lem, udp_turn, noted}

next_known : 0 < rader_dlen (command_flag next_command)
unfolding rader_dlen flag_of_byte
next_known = omega arith

next_other : (command_flag next_command == data_flag_S) ≡ false
unfolding flag_of_byte
next_other = refl

-- Bytes that complete the answer to `S`, then turns in which more of the radar's bytes come: the loop
-- sends the packet, asks the radar for `F` at once, and sends the answer to that in one packet as well,
-- or none while there are fewer bytes than belong to it.
pub service_continues :
    (signed : Bool) (a : Answers) (st : Service) (q chunk : List ℕ) (chunks : List (List ℕ))
    → IsUp st
    → IsGathering st.rader q
    → 0 < length chunk
    → length chunk ≤ 4096
    → (st.rader.cmd_flag == data_flag_S) ≡ true
    → st.rader.dlen ≤ length q + length chunk
    → ArePieces chunks
    → (st' : Service) × (serve signed
          (uart_turn a st.uart_fd chunk ∷ uart_turns a st.uart_fd chunks)
          st
        ≡ some (
          st',
          wrote (record {
            fd = st.tcp_fd;
            bytes = frame st.rader.cmd_flag (take st.rader.dlen (q ++ chunk));
          })
              ∷ wrote (record { fd = st.uart_fd; bytes = b'F' ∷ [] })
              ∷ map wrote (answer st.tcp_fd (awaiting st.rader (b'F' ∷ [])) (joined chunks)),
          false,
        ))
service_continues signed a st q chunk chunks up g some_bytes small last_one whole pieces =
    let (fifo', e, (left, r)) =
      uart_bytes_last signed st.uart_fd st.tcp_fd st up.tcp_open up.connected_now chunk some_bytes q
        g small whole last_one in
    let next = idle_with fifo' in
    let st1 = with_radar st (awaiting next next_command) in
    let (r', f) =
      serve_gathers signed a st1 [] chunks up (awaiting-IsGathering next next_command r next_known)
        next_other pieces in
    (
      with_radar st1 r',
      serve_cons signed (uart_turn a st.uart_fd chunk) (uart_turns a st.uart_fd chunks) st
          (uart_turn_lem signed a st chunk up e) f,
    )

module _ (st : Service) (flag : ℕ) (cmd rest : List ℕ) (up : IsUp st) (idle : st.rader.dlen ≡ 0)
    (short : length cmd < 2 ^ 16) (asks : closes cmd ≡ true) where
  datagram_closes :
      on_udp_bytes st.uart_fd st.udp_fd (frame flag cmd ++ rest) st
      ≡ some (
        record st { tcp_fd = 0; rader = awaiting st.rader cmd },
        wrote (record { fd = st.uart_fd; bytes = cmd }) ∷ closed st.tcp_fd ∷ [],
      )
  unfolding on_udp_bytes close_tcp_socket
  datagram_closes =
      let some_bytes : 0 < length (frame flag cmd ++ rest) =
        omega (arith, datagram_size st flag cmd rest idle short) in
      rw (
        lt→ltb 0 (length (frame flag cmd ++ rest)) some_bytes,
        up.udp_open,
        datagram_lem st flag cmd rest idle short,
        asks,
        up.tcp_open,
      )

-- A datagram with the text that asks to close the connection, in whatever case its letters are, in a
-- whole packet while no answer is awaited: the connection is closed, and the text goes to the radar
-- like any command.
pub service_hangs_up :
    (signed : Bool) (a : Answers) (st : Service) (from flag : ℕ) (cmd rest : List ℕ)
    → IsUp st
    → st.rader.dlen ≡ 0
    → length cmd < 2 ^ 16
    → closes cmd ≡ true
    → wait_message_and_handle signed (udp_turn a st.udp_fd from (frame flag cmd ++ rest)) st
      ≡ some (
        record (noted from st) { tcp_fd = 0; rader = awaiting st.rader cmd },
        wrote (record { fd = st.uart_fd; bytes = cmd }) ∷ closed st.tcp_fd ∷ [],
        1,
      )
unfolding note_sender
service_hangs_up signed a st from flag cmd rest up idle short asks =
    let turn = udp_turn a st.udp_fd from (frame flag cmd ++ rest) in
    wait_ready signed turn st up (st.udp_fd ∷ []) (λ rfds wfds. refl)
      (dispatch_udp signed turn st up
        (datagram_closes (noted from st) flag cmd rest up idle short asks))
