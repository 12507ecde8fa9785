-- ===== src/Service/Bridge/Tests.antt =====
-- Runs of the bridge and of the service beside it.
use psuart.Prelude.{
  ℕ, ◌-◌, ◌≡◌, refl, arith, Option, List, [], ◌∷◌, ◌++◌, map, some, none, true, false, inl, inr,
  replicate, get_or,
}
use psuart.Utils.Serial.{Tty, com_open, configure, keep_or_close, com_set_parity, com_settings}
use psuart.Rader.Crc.{crc8, crc_from, crc_byte}
use psuart.Rader.State.{rader_dlen, flag_of_byte, length-zeroed, zeroed}
use psuart.Rader.Packet.Frame.{frame}
use psuart.Rader.Recv.Stream.{answer, joined}
use psuart.Rader.Command.Accept.{awaiting}
use psuart.Service.{Service, Effect, wrote}
use psuart.Service.Turn.{Answers}
use psuart.Service.Loop.{serve}
use psuart.Service.Loop.Session.{udp_turn}
use psuart.Service.Loop.Traffic.{uart_turn, uart_turns}
use psuart.Service.Tests.{
  answers, up, radar, radar_empty, radar_idle, short_command, pieces, short_dlen, not_last,
}
use psuart.Service.Turn.Stages.{Fits}
use psuart.Service.Bridge.{run}
use psuart.Service.Bridge.Relation.{Implements, AreEnds, IsTimely, IsPacket, IsOrderly, AreOrderly}
use psuart.Service.Bridge.Refines.{serve-Refines}
use psuart.Service.Bridge.Start.{idle_bridge, fresh, AreOpened, serve_from_start}
use psuart.Service.Bridge.Packets.{AreLegal, serve-AreLegal}
use psuart.Service.Bridge.Recovery.{connect_turn, service_recovers}

pub ends : AreEnds 3 5
ends = record { uart_open = refl; udp_open = refl; uart_fits = omega arith; udp_fits = omega arith }

abbrev late : Answers
late = record answers { select = λ rfds wfds. (0, [], []) }

-- the connection, a command, its answer in two reads, and a turn in which nothing comes
abbrev pub session : List Answers
session =
    connect_turn answers
    ∷ udp_turn answers 5 9 (0 ∷ frame 0 short_command)
    ∷ uart_turn answers 3 (replicate 60 7)
    ∷ uart_turn answers 3 (replicate 10 8)
    ∷ late
    ∷ []

session_output :
    (run 3 5 session idle_bridge).1
    ≡ wrote (record { fd = 3; bytes = short_command })
      ∷ wrote (record { fd = 4; bytes = frame 0x11 (replicate 60 7 ++ replicate 4 8) })
      ∷ []
unfolding crc8 crc_from crc_byte rader_dlen flag_of_byte
session_output = refl

-- answers of a system on which every call succeeds
orderly :
    (tty : Tty) (from : ℕ) (err : Option ℕ) (select : List ℕ → List ℕ → ℕ × List ℕ × List ℕ)
    (bytes datagram : Option (List ℕ))
    → ((rfds wfds : List ℕ) → IsTimely (select rfds wfds))
    → Fits bytes
    → IsPacket datagram
    → IsOrderly (record answers {
      tty = tty;
      select = select;
      tcp_error = err;
      uart_read = bytes;
      udp_read = datagram;
      udp_from = from;
    })
orderly tty from err select bytes datagram timely fits packet = record {
  made_open = refl;
  made_fits = omega arith;
  connects = refl;
  selects = timely;
  uart_fits = fits;
  tcp_packet = tt;
  udp_packet = packet;
}

pub session-AreOrderly : AreOrderly session
unfolding crc8 crc_from crc_byte
session-AreOrderly =
    let tty = answers.tty in
    (
      orderly tty 0 (some 0) _ none none (λ r w. inl (refl, refl)) tt tt,
      (
        orderly tty 9 (some 0) _ none (some (0 ∷ frame 0 short_command)) (λ r w. inl (refl, refl))
            tt (ground arith),
        (
          orderly tty 0 (some 0) _ (some (replicate 60 7)) none (λ r w. inl (refl, refl))
              (omega arith) tt,
          (
            orderly tty 0 (some 0) _ (some (replicate 10 8)) none (λ r w. inl (refl, refl))
                (omega arith) tt,
            (orderly tty 0 (some 0) _ none none (λ r w. inr (refl, refl)) tt tt, tt),
          ),
        ),
      ),
    )

-- the service with both ends open and no connection
abbrev apart : Service
apart = record up { tcp_fd = 0; tcp_connected = 0 }

apart-Implements : Implements 3 5 idle_bridge apart
apart-Implements = record {
  same_uart = refl;
  same_udp = refl;
  same_tcp = refl;
  same_up = refl;
  tcp_fits = omega arith;
  radar = (radar_idle, ([], radar_empty));
}

serve-Refines_example :
    (st' : Service) × (serve true session apart
      ≡ some (st', (run 3 5 session idle_bridge).1, false))
    × Implements 3 5 (run 3 5 session idle_bridge).0 st'
serve-Refines_example =
    serve-Refines 3 5 true session idle_bridge apart ends session-AreOrderly apart-Implements

serve-AreLegal_example :
    (st' : Service) × (calls : List Effect) × (serve true session apart ≡ some (st', calls, false))
    × AreLegal 3 calls
serve-AreLegal_example =
    serve-AreLegal 3 5 true session idle_bridge apart ends session-AreOrderly apart-Implements

service_recovers_example :
    (st' : Service) × (serve true
        (connect_turn answers
          ∷ udp_turn answers 5 9 (frame 0 short_command ++ [])
          ∷ uart_turns answers 3 pieces)
        apart
      ≡ some (
        st',
        wrote (record { fd = 3; bytes = short_command })
            ∷ map wrote (answer 4 (awaiting radar short_command) (joined pieces)),
        false,
      ))
service_recovers_example =
    service_recovers 3 5 true answers idle_bridge apart 9 0 short_command [] pieces ends
      (orderly answers.tty 0 (some 0) _ none none (λ rfds wfds. inl (refl, refl)) tt tt)
      (refl, refl, refl) refl apart-Implements short_dlen not_last refl (omega arith)
      (omega arith, omega arith, (omega arith, omega arith, tt))

-- a port that opens and takes its settings
abbrev pub opening : Tty
opening = record answers.tty {
  atoi = λ text. get_or text 0 0 - b'0';
  get_attr =
      some (record { c_cflag = 0; c_iflag = 0; c_lflag = 0; c_oflag = 0; vtime = 0; vmin = 0 });
}

abbrev pub first : Answers
first = record (connect_turn answers) { tty = opening }

first-AreOpened : AreOpened first up 3 5
unfolding com_open configure keep_or_close com_set_parity com_settings
first-AreOpened = record { port = refl; port_kept = refl; made = refl; binds = refl }

pub first_session-AreOrderly : AreOrderly (first ∷ session)
first_session-AreOrderly =
    (orderly opening 0 (some 0) _ none none (λ r w. inl (refl, refl)) tt tt, session-AreOrderly)

serve_from_start_run :
    (st' : Service) × (serve true (first ∷ session) (fresh (zeroed 8192) up)
      ≡ some (st', (run 3 5 (first ∷ session) idle_bridge).1, false))
    × Implements 3 5 (run 3 5 (first ∷ session) idle_bridge).0 st'
serve_from_start_run =
    serve_from_start 3 5 true first session (zeroed 8192) up ends first_session-AreOrderly
      first-AreOpened (length-zeroed 8192)
