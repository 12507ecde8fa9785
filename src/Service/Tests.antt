-- ===== src/Service/Tests.antt =====
-- Runs of the service.
use psuart.Prelude.{
  ℕ, ◌≡◌, ◌<◌, ◌^◌, ◌⊎◌, refl, arith, List, [], ◌∷◌, ◌++◌, ◌==◌, map, some, none, true, false, inl,
  replicate,
}
use psuart.RingBuffer.In.{Represents}
use psuart.Rader.Packet.Frame.{frame}
use psuart.Rader.State.{
  Rader, data_flag_S, zeroed, length-zeroed, initial, rader_init, rader_dlen, flag_of_byte,
}
use psuart.Rader.Recv.Answer.{last, rader_init_lem}
use psuart.Rader.Recv.Stream.{answer, joined}
use psuart.Rader.Command.Accept.{awaiting}
use psuart.Rader.Sound.{IsSound}
use psuart.Utils.Serial.{Tty, minus_one, is_open}
use psuart.Service.{Service, wrote, closed}
use psuart.Service.Socket.{start_tcp_socket, start_udp_socket, open_uart}
use psuart.Service.Turn.{
  Answers, select_and_dispatch, requested, fd_set_if, dispatch, when_set, fd_isset, on_tcp_bytes,
  wait_message_and_handle,
}
use psuart.Service.Turn.Ready.{IsUp}
use psuart.Service.Turn.Faults.{wait_message_and_handle-none}
use psuart.Service.Turn.Invariant.{wait_message_and_handle_lem}
use psuart.Utils.Hex.Laws.{encoded}
use psuart.Service.Dump.{dump_buffer, all_lines, dump_buffer_lem}
use psuart.Service.Loop.{serve, shut_down}
use psuart.Service.Loop.Traffic.{uart_turns}
use psuart.Service.Loop.Session.{service_answers, udp_turn}
use psuart.Service.Loop.PeerClose.{tcp_turn, serve_peer_closed}
use psuart.RingBuffer
use psuart.RingBuffer.Out.{reset_lem}
use psuart.Rader.Recv.Answer.{IsGathering}
use psuart.Rader.Command.{close_text}
use psuart.Service.Loop.Traffic.{uart_turn}
use psuart.Service.Loop.Chain.{service_continues, service_hangs_up}
use psuart.Service.Loop.Endless.{GoesOn, StopsAtFault, serve_endless, shut, shut_down_lem}

-- a system on which every call succeeds
abbrev pub plain_tty : Tty
plain_tty = record {
  masks = record {
    csize = 0x30;
    cs7 = 0x20;
    cs8 = 0x30;
    parenb = 0x100;
    parodd = 0x200;
    inpck = 0x10;
    cstopb = 0x40;
    icanon = 2;
    echo = 8;
    echoe = 0x10;
    isig = 1;
    iexten = 0x8000;
    brkint = 2;
    icrnl = 0x100;
    istrip = 0x20;
    ixon = 0x400;
    opost = 1;
  };
  atoi = λ text. 8;
  open_path = λ path. 3;
  get_attr = none;
  set_attr = true;
}

abbrev pub answers : Answers
answers = record {
  tty = plain_tty;
  tcp_made = 4;
  tcp_connects = true;
  udp_made = 5;
  udp_binds = true;
  select = λ rfds wfds. (1, [], []);
  tcp_error = some 0;
  uart_read = none;
  tcp_read = none;
  udp_read = none;
  udp_from = 0;
  typed = [];
}

abbrev pub radar : Rader
radar = rader_init (zeroed 8192) initial

abbrev pub up : Service
up = record {
  uart_fd = 3;
  tcp_fd = 4;
  udp_fd = 5;
  tcp_connected = 1;
  select_timeout = 3;
  net_ip = 0;
  net_port = 0;
  udpport = 5000;
  uart_port = none;
  rader = radar;
}

up-IsUp : IsUp up
up-IsUp = record {
  uart_open = refl;
  tcp_open = refl;
  udp_open = refl;
  uart_fits = omega arith;
  tcp_fits = omega arith;
  udp_fits = omega arith;
  uart_not_tcp = refl;
  uart_not_udp = refl;
  tcp_not_udp = refl;
  connected_now = refl;
}

pub radar_empty : Represents last [] radar.fifo
radar_empty = rader_init_lem (zeroed 8192) initial (length-zeroed 8192)

pub radar_idle : radar.dlen ≡ 0
unfolding rader_init
radar_idle = refl

radar-IsSound : IsSound radar
radar-IsSound = ([], radar_empty, inl radar_idle)

-- a command, and its answer of 64 bytes in two reads, with more behind it
abbrev pub short_command : List ℕ
short_command = b'M' ∷ []

abbrev pub pieces : List (List ℕ)
pieces = replicate 60 7 ∷ replicate 10 8 ∷ []

pub short_dlen : 0 < rader_dlen (flag_of_byte b'M')
unfolding rader_dlen flag_of_byte
short_dlen = omega arith

pub not_last : (flag_of_byte b'M' == data_flag_S) ≡ false
unfolding flag_of_byte
not_last = refl

service_answers_example :
    (st' : Service) × (serve true
        (udp_turn answers 5 9 (frame 0 short_command ++ []) ∷ uart_turns answers 3 pieces)
        up
      ≡ some (
        st',
        wrote (record { fd = 3; bytes = short_command })
            ∷ map wrote (answer 4 (awaiting radar short_command) (joined pieces)),
        false,
      ))
service_answers_example =
    service_answers true answers up 9 0 short_command [] pieces up-IsUp radar_empty radar_idle
      short_dlen not_last refl (omega arith)
      (omega arith, omega arith, (omega arith, omega arith, tt))

serve_peer_closed_example :
    serve true (replicate 3 (tcp_turn answers 4 [])) up ≡ some (up, [], false)
serve_peer_closed_example = serve_peer_closed true answers up 3 up-IsUp

-- a turn in which the peer has closed
quiet_turn : wait_message_and_handle true (tcp_turn answers 4 []) up ≡ some (up, [], 1)
unfolding wait_message_and_handle open_uart select_and_dispatch requested fd_set_if start_udp_socket
    start_tcp_socket dispatch when_set fd_isset on_tcp_bytes
quiet_turn = refl

wait_message_and_handle_lem_example : IsSound up.rader × 1 < 2 ^ 31
wait_message_and_handle_lem_example =
    wait_message_and_handle_lem true (tcp_turn answers 4 []) up (tt, omega arith, tt) radar-IsSound
      quiet_turn

serve_endless_example :
    GoesOn true (tcp_turn answers 4 [] ∷ []) up ⊎ StopsAtFault true (tcp_turn answers 4 [] ∷ []) up
serve_endless_example =
    serve_endless true (tcp_turn answers 4 [] ∷ []) up ((tt, omega arith, tt), tt) radar-IsSound

-- no connection can be started
abbrev refused : Answers
refused = record answers { tcp_made = minus_one }

abbrev fresh : Service
fresh = record up { uart_fd = 0; tcp_fd = 0; udp_fd = 0; tcp_connected = 0 }

wait_message_and_handle-none_example : wait_message_and_handle true refused fresh ≡ none
unfolding start_udp_socket start_tcp_socket open_uart
wait_message_and_handle-none_example =
    wait_message_and_handle-none true refused fresh (refl, inl (omega arith))

shut_down_lem_example :
    (shut_down up
      ≡ (record up { uart_fd = 0; udp_fd = 0; tcp_fd = 0 }, closed 3 ∷ closed 5 ∷ closed 4 ∷ []))
    × (is_open 0 ≡ false)
    × (is_open 0 ≡ false)
    × (is_open 0 ≡ false)
    × ((shut_down (shut up)).1 ≡ [])
shut_down_lem_example = shut_down_lem up

-- the answer to `S` is awaited
abbrev waiting : Rader
waiting = record { fifo = RingBuffer.reset radar.fifo; cmd_flag = 0x21; dlen = 10 }

waiting-IsGathering : IsGathering waiting []
unfolding rader_dlen
waiting-IsGathering = record {
  holds = reset_lem radar_empty;
  awaited = refl;
  partial = omega arith;
}

service_continues_example :
    (st' : Service) × (serve true
        (uart_turn answers 3 (replicate 10 5) ∷ uart_turns answers 3 (replicate 20 6 ∷ []))
        (record up { rader = waiting })
      ≡ some (
        st',
        wrote (record { fd = 4; bytes = frame 0x21 (replicate 10 5) })
            ∷ wrote (record { fd = 3; bytes = b'F' ∷ [] })
            ∷ map wrote (answer 4 (awaiting waiting (b'F' ∷ [])) (replicate 20 6)),
        false,
      ))
service_continues_example =
    service_continues true answers (record up { rader = waiting }) [] (replicate 10 5)
      (replicate 20 6 ∷ []) up-IsUp waiting-IsGathering (omega arith) (omega arith) refl
      (omega arith) (omega arith, omega arith, tt)

service_hangs_up_run :
    wait_message_and_handle true (udp_turn answers 5 9 (frame 0 close_text ++ [])) up
    ≡ some (
      record up { net_ip = 9; net_port = 5000; tcp_fd = 0; rader = awaiting radar close_text },
      wrote (record { fd = 3; bytes = close_text }) ∷ closed 4 ∷ [],
      1,
    )
service_hangs_up_run =
    service_hangs_up true answers up 9 0 close_text [] up-IsUp radar_idle (omega arith) refl

dump_buffer_lem_run :
    (lines : List (List ℕ)) × (dump_buffer (replicate 20 0x5a ++ 0 ∷ []) 20 ≡ some lines)
    × (all_lines lines ≡ encoded (replicate 20 0x5a))
dump_buffer_lem_run = dump_buffer_lem (replicate 20 0x5a) (0 ∷ []) (ground arith)
