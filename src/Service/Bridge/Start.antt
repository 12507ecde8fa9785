-- ===== src/Service/Bridge/Start.antt =====
-- The service from its start on, and the connection that is made anew.
use psuart.Prelude.{
  ℕ, ◌≡◌, refl, ◌∙◌, arith, List, [], ◌∷◌, some, none, Bool, true, false, ◌==◌, length,
}
use psuart.Utils.Serial.{minus_one, com_open}
use psuart.Rader.State.{initial, rader_init}
use psuart.Rader.Recv.Answer.{rader_init_lem}
use psuart.Service.{Service}
use psuart.Service.Socket.{open_uart, start_tcp_socket, start_udp_socket}
use psuart.Service.Turn.{Answers, wait_message_and_handle}
use psuart.Service.Loop.{serve}
use psuart.Service.Bridge.{Bridge, run}
use psuart.Service.Bridge.Relation.{Implements, AreEnds, IsOrderly, AreOrderly}
use psuart.Service.Bridge.Refines.{serve-Refines}

-- the state that `main` hands to the loop, whatever the configuration in `st`: no descriptor is open
abbrev pub fresh : List ℕ → Service → Service
fresh rader_buf st = record st {
  uart_fd = 0;
  tcp_fd = 0;
  udp_fd = 0;
  tcp_connected = 0;
  rader = rader_init rader_buf initial;
}

-- the same state, with both ends open
abbrev with_ends : ℕ → ℕ → Service → Service
with_ends uart udp st = record st { uart_fd = uart; udp_fd = udp }

-- the bridge when nothing has happened yet
abbrev pub idle_bridge : Bridge
idle_bridge = record { tcp = 0; up = false; awaited = none }

fresh-Implements :
    (uart udp : ℕ) (rader_buf : List ℕ) (st : Service)
    → length rader_buf ≡ 8192
    → Implements uart udp idle_bridge (with_ends uart udp (fresh rader_buf st))
unfolding rader_init
fresh-Implements uart udp rader_buf st whole = record {
  same_uart = refl;
  same_udp = refl;
  same_tcp = refl;
  same_up = refl;
  tcp_fits = omega arith;
  radar = (refl, ([], rader_init_lem rader_buf initial whole));
}

-- The serial port opens as `uart`, and the datagram socket is made as `udp`.
pub record AreOpened (a : Answers) (st : Service) (uart udp : ℕ) : Type 0 where
  pub port : (com_open a.tty st.uart_port).fd ≡ uart
  pub port_kept : (com_open a.tty st.uart_port).closed ≡ []
  pub made : a.udp_made ≡ udp
  pub binds : a.udp_binds ≡ true

module _ (signed : Bool) (a : Answers) (uart udp : ℕ) (ends : AreEnds uart udp) (o : IsOrderly a)
    (st0 : Service) (opened : AreOpened a st0 uart udp) where
  uart_opened :
      (st : Service)
      → st.uart_fd ≡ 0
      → st.uart_port ≡ st0.uart_port
      → open_uart a.tty st ≡ (record st { uart_fd = uart }, [], uart)
  unfolding open_uart
  uart_opened st shut same = rw (shut, same, opened.port, opened.port_kept, ends.uart_open)

  uart_kept :
      (st : Service)
      → open_uart a.tty (record st { uart_fd = uart }) ≡ (record st { uart_fd = uart }, [], uart)
  unfolding open_uart
  uart_kept st = rw ends.uart_open

  tcp_made :
      (st : Service)
      → st.tcp_fd ≡ 0
      → start_tcp_socket a.tcp_made a.tcp_connects st
        ≡ (record st { tcp_fd = a.tcp_made; tcp_connected = 0 }, [], a.tcp_made)
  unfolding start_tcp_socket
  tcp_made st shut =
      let valid : (a.tcp_made == minus_one) ≡ false = ground (arith, o.made_open) in
      rw (shut, valid, o.connects)

  udp_made :
      (st : Service)
      → st.udp_fd ≡ 0
      → start_udp_socket a.udp_made a.udp_binds st ≡ (record st { udp_fd = udp }, [], udp)
  unfolding start_udp_socket
  udp_made st shut =
      let valid : (udp == minus_one) ≡ false = ground (arith, ends.udp_open) in
      rw (shut, opened.made, opened.binds, valid)

  udp_kept :
      (st : Service)
      → start_udp_socket a.udp_made a.udp_binds (record st { udp_fd = udp })
        ≡ (record st { udp_fd = udp }, [], udp)
  unfolding start_udp_socket
  udp_kept st = rw ends.udp_open

  -- The first turn opens both ends, and is a turn with both ends open.
  first_turn :
      (rader_buf : List ℕ) (st : Service)
      → st.uart_port ≡ st0.uart_port
      → wait_message_and_handle signed a (fresh rader_buf st)
        ≡ wait_message_and_handle signed a (with_ends uart udp (fresh rader_buf st))
  unfolding wait_message_and_handle
  first_turn rader_buf st same =
      let st1 = fresh rader_buf st in
      let st2 : Service = record st1 { tcp_fd = a.tcp_made; tcp_connected = 0 } in
      rw (
        uart_opened st1 refl same,
        uart_kept (record st1 { udp_fd = udp }),
        tcp_made (record st1 { uart_fd = uart }) refl,
        tcp_made (with_ends uart udp st1) refl,
        udp_made (record st2 { uart_fd = uart }) refl,
        udp_kept (record st2 { uart_fd = uart }),
      )

-- the loop from two states whose first turns are the same
same_first :
    (signed : Bool) (a : Answers) (turns : List Answers) (st st' : Service)
    → wait_message_and_handle signed a st ≡ wait_message_and_handle signed a st'
    → serve signed (a ∷ turns) st ≡ serve signed (a ∷ turns) st'
unfolding serve
same_first signed a turns st st' e = rw e

-- From the start, with no descriptor open: if the serial port opens and the datagram socket is made in
-- the first turn, the loop runs through all turns without a fault and goes on, and writes and closes
-- exactly what the bridge does, starting idle.
pub serve_from_start :
    (uart udp : ℕ) (signed : Bool) (a : Answers) (turns : List Answers) (rader_buf : List ℕ)
    (st : Service)
    → AreEnds uart udp
    → AreOrderly (a ∷ turns)
    → AreOpened a st uart udp
    → length rader_buf ≡ 8192
    → (st' : Service) × (serve signed (a ∷ turns) (fresh rader_buf st)
        ≡ some (st', (run uart udp (a ∷ turns) idle_bridge).1, false))
      × Implements uart udp (run uart udp (a ∷ turns) idle_bridge).0 st'
serve_from_start uart udp signed a turns rader_buf st ends orderly opened whole =
    let (st', e, i) =
      serve-Refines uart udp signed (a ∷ turns) idle_bridge
        (with_ends uart udp (fresh rader_buf st)) ends orderly
        (fresh-Implements uart udp rader_buf st whole) in
    (
      st',
      same_first signed a turns (fresh rader_buf st) (with_ends uart udp (fresh rader_buf st))
            (first_turn signed a uart udp ends orderly.0 st opened rader_buf st refl)
          ∙ e,
      i,
    )
