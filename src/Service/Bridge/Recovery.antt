-- ===== src/Service/Bridge/Recovery.antt =====
-- The connection that is made anew once it has been closed.
use psuart.Prelude.{
  ℕ, ◌<◌, ◌^◌, ◌≡◌, refl, subst, inl, arith, List, [], ◌∷◌, ◌++◌, map, Option, some, none, Bool,
  true, false, ltb, ◌==◌, length,
}
use psuart.Utils.Serial.{is_open}
use psuart.Rader.State.{Write, data_flag_S, rader_dlen}
use psuart.Rader.Packet.Frame.{frame}
use psuart.Rader.Recv.Stream.{joined, answer}
use psuart.Rader.Command.Accept.{command_flag, closes, awaiting}
use psuart.Service.{Service, Effect, wrote}
use psuart.Service.Turn.{Answers, has, wait_message_and_handle}
use psuart.Service.Turn.Ready.{IsUp}
use psuart.Service.Loop.{serve}
use psuart.Service.Loop.Traffic.{ArePieces, uart_turns, serve_after}
use psuart.Service.Loop.Session.{udp_turn, service_answers}
use psuart.Service.Bridge.{Bridge, turn}
use psuart.Service.Bridge.Relation.{Implements, AreEnds, IsOrderly}
use psuart.Service.Bridge.Refines.{Serves, turn-Serves}

-- a turn in which the connection that was made is found to be there
abbrev pub connect_turn : Answers → Answers
connect_turn a = record a { select = λ rfds wfds. (1, [], a.tcp_made ∷ []); tcp_error = some 0 }

turn-connects :
    (uart udp : ℕ) (a : Answers) (b : Bridge)
    → is_open b.tcp ≡ false
    → turn uart udp (connect_turn a) b
      ≡ (record { tcp = a.tcp_made; up = true; awaited = none }, [])
turn-connects uart udp a b shut =
    let there : has a.tcp_made (a.tcp_made ∷ []) ≡ true = ground arith in rw (shut, there)

connect_turn-IsOrderly : (a : Answers) → IsOrderly a → IsOrderly (connect_turn a)
connect_turn-IsOrderly a o = record {
  made_open = o.made_open;
  made_fits = o.made_fits;
  connects = o.connects;
  selects = λ rfds wfds. inl (refl, refl);
  uart_fits = o.uart_fits;
  tcp_packet = o.tcp_packet;
  udp_packet = o.udp_packet;
}

-- The state behind the turn: the connection is up, and no answer is awaited.
reconnected :
    (uart udp : ℕ) (signed : Bool) (a : Answers) (b : Bridge) (st : Service)
    → AreEnds uart udp
    → IsOrderly a
    → is_open b.tcp ≡ false
    → Implements uart udp b st
    → (st' : Service) × (ret : ℕ) × (wait_message_and_handle signed (connect_turn a) st
        ≡ some (st', [], ret))
      × (ltb ret (2 ^ 31) ≡ true)
      × Implements uart udp (record { tcp = a.tcp_made; up = true; awaited = none }) st'
reconnected uart udp signed a b st ends o shut i =
    subst
      (Serves uart udp ends signed (connect_turn a) (connect_turn-IsOrderly a o)
        (wait_message_and_handle signed (connect_turn a) st))
      (turn-connects uart udp a b shut)
      (turn-Serves uart udp ends signed (connect_turn a) (connect_turn-IsOrderly a o) b st i)

-- numbers that differ
abbrev pub AreApart : ℕ → ℕ → ℕ → Type 0
AreApart uart tcp udp = ((uart == tcp) ≡ false) × ((uart == udp) ≡ false) × ((tcp == udp) ≡ false)

up_again :
    (uart udp tcp : ℕ) (st : Service)
    → AreEnds uart udp
    → AreApart uart tcp udp
    → is_open tcp ≡ true
    → Implements uart udp (record { tcp = tcp; up = true; awaited = none }) st
    → IsUp st
up_again uart udp tcp st ends apart there i =
    rw (i.same_uart, i.same_tcp, i.same_udp)
      (record {
        uart_open = ends.uart_open;
        tcp_open = there;
        udp_open = ends.udp_open;
        uart_fits = ends.uart_fits;
        tcp_fits = i.tcp_fits;
        udp_fits = ends.udp_fits;
        uart_not_tcp = apart.0;
        uart_not_udp = apart.1;
        tcp_not_udp = apart.2;
        connected_now = i.same_up;
      })

-- a state, and the numbers that it has
session_at :
    (uart udp tcp : ℕ) (signed : Bool) (a : Answers) (st st' : Service) (from : ℕ)
    (bytes cmd : List ℕ) (chunks : List (List ℕ)) (sent : ℕ → List Write)
    → st.uart_fd ≡ uart
    → st.udp_fd ≡ udp
    → st.tcp_fd ≡ tcp
    → serve signed (udp_turn a st.udp_fd from bytes ∷ uart_turns a st.uart_fd chunks) st
      ≡ some
          (st', wrote (record { fd = st.uart_fd; bytes = cmd }) ∷ map wrote (sent st.tcp_fd), false)
    → serve signed (udp_turn a udp from bytes ∷ uart_turns a uart chunks) st
      ≡ some (st', wrote (record { fd = uart; bytes = cmd }) ∷ map wrote (sent tcp), false)
session_at uart udp tcp signed a st st' from bytes cmd chunks sent eu ed et e =
    let result : ℕ → ℕ → Option (Service × List Effect × Bool) =
      λ u t. some (st', wrote (record { fd = u; bytes = cmd }) ∷ map wrote (sent t), false) in
    let at_udp =
      subst
        (λ (d : ℕ).
          serve signed (udp_turn a d from bytes ∷ uart_turns a st.uart_fd chunks) st
          ≡ result st.uart_fd st.tcp_fd)
        ed e in
    let at_uart =
      subst
        (λ (u : ℕ).
          serve signed (udp_turn a udp from bytes ∷ uart_turns a u chunks) st ≡ result u st.tcp_fd)
        eu at_udp in
    subst
      (λ (t : ℕ).
        serve signed (udp_turn a udp from bytes ∷ uart_turns a uart chunks) st ≡ result uart t)
      et at_uart

-- While the connection is closed, whatever was awaited before, with descriptors that are apart and below
-- 1024: a turn in which a new connection is made and is there, a turn with a datagram that holds a known
-- command in a whole packet, other than `S` and one that closes, shorter than 2 ^ 16 bytes, then turns
-- in which the radar's bytes come, in reads of 1 to 4096 bytes. The loop runs through them without a
-- fault and goes on; the command is sent to the radar, and its answer, once all of its bytes have come,
-- goes out on the new connection in one packet.
pub service_recovers :
    (uart udp : ℕ) (signed : Bool) (a : Answers) (b : Bridge) (st : Service) (from flag : ℕ)
    (cmd rest : List ℕ) (chunks : List (List ℕ))
    → AreEnds uart udp
    → IsOrderly a
    → AreApart uart a.tcp_made udp
    → is_open b.tcp ≡ false
    → Implements uart udp b st
    → 0 < rader_dlen (command_flag cmd)
    → (command_flag cmd == data_flag_S) ≡ false
    → closes cmd ≡ false
    → length cmd < 2 ^ 16
    → ArePieces chunks
    → (st' : Service) × (serve signed
          (connect_turn a ∷ udp_turn a udp from (frame flag cmd ++ rest) ∷ uart_turns a uart chunks)
          st
        ≡ some (
          st',
          wrote (record { fd = uart; bytes = cmd })
              ∷ map wrote (answer a.tcp_made (awaiting st.rader cmd) (joined chunks)),
          false,
        ))
service_recovers uart udp signed a b st from flag cmd rest chunks ends o apart shut i known other
      open_still short pieces =
    let (st1, ret, e, small, i1) = reconnected uart udp signed a b st ends o shut i in
    let up = up_again uart udp a.tcp_made st1 ends apart o.made_open i1 in
    let (st2, f) =
      service_answers signed a st1 from flag cmd rest chunks up i1.radar.1.1 i1.radar.0 known other
        open_still short pieces in
    (
      st2,
      serve_after signed (connect_turn a) _ st e small (
          session_at uart udp a.tcp_made signed a st1 st2 from (frame flag cmd ++ rest) cmd chunks
            (λ tcp. answer tcp (awaiting st1.rader cmd) (joined chunks)) i1.same_uart i1.same_udp
            i1.same_tcp f),
    )
