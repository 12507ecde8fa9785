-- ===== src/Service/Bridge/Refines.antt =====
-- The loop does what the bridge does.
use psuart.Prelude.{
  ℕ, ◌<◌, ◌^◌, ◌≡◌, refl, ap, ◌∙◌, arith, inl, inr, List, [], ◌∷◌, append-nil, Option, some, ◌>>=◌,
  Bool, true, false, ltb, ◌==◌, if◌then◌else◌, Bool-cases, lt→ltb,
}
use psuart.Utils.Serial.{is_open, minus_one}
use psuart.Service.{Service, Effect}
use psuart.Service.Socket.{open_uart, start_tcp_socket, start_udp_socket}
use psuart.Service.Turn.{
  Answers, has, fd_set_if, requested, on_connect, on_uart_bytes, on_tcp_bytes, on_stdin, read_then,
  on_nothing, dispatch, select_and_dispatch, wait_message_and_handle,
}
use psuart.Service.Turn.Ready.{udp_stage, when_set_out, fd_isset_room}
use psuart.Service.Loop.{serve}
use psuart.Service.Loop.Traffic.{serve_after}
use psuart.Service.Bridge.{
  Bridge, Out, connecting, connected, radar_bytes, obey_command, asks, hang_up, ◌>>◌, when, got,
  handle, readable_asked, writable_asked, selected, turn, run,
}
use psuart.Rader.Command.Decode.{carried}
use psuart.Service.Bridge.Relation.{
  flag_of, Implements, Refines, AreEnds, IsTimely, IsOrderly, AreOrderly,
}
use psuart.Service.Bridge.Stages.{when_set-Refines, on_connect-Refines}
use psuart.Service.Bridge.Radar.{uart_stage-Refines}
use psuart.Service.Bridge.Commands.{tcp_stage-Refines, udp_stage-Refines}

module _ (uart udp : ℕ) (ends : AreEnds uart udp) (signed : Bool) (a : Answers)
    (o : IsOrderly a) where
  dispatch-Refines :
      (tcp : ℕ) (rfds wfds : List ℕ) (b : Bridge) (st : Service)
      → is_open tcp ≡ true
      → b.tcp ≡ tcp
      → has 0 rfds ≡ false
      → Implements uart udp b st
      → Refines uart udp
          (dispatch signed a uart tcp udp rfds wfds st)
          (handle uart udp tcp a rfds wfds b)
  unfolding dispatch
  dispatch-Refines tcp rfds wfds b st there same quiet i =
      let fits : tcp < 1024 = rw (← same) i.tcp_fits in
      let f1 = when (has tcp wfds) (connected a.tcp_error) in
      let f2 = when (has uart rfds) (radar_bytes uart tcp (got a.uart_read)) in
      let f3 = when (has tcp rfds) (obey_command uart (carried (got a.tcp_read))) in
      let (st1, e1, i1) =
        when_set-Refines uart udp tcp wfds (λ s. some (on_connect a.tcp_error s))
          (connected a.tcp_error) b st fits i
          (on_connect-Refines uart udp a.tcp_error b st (rw same there) i) in
      let b1 = (f1 b).0 in
      let (st2, e2, i2) =
        when_set-Refines uart udp uart rfds (read_then a.uart_read (on_uart_bytes signed uart tcp))
          (radar_bytes uart tcp (got a.uart_read)) b1 st1 ends.uart_fits i1
          (uart_stage-Refines uart udp signed tcp a.uart_read b1 st1 there o.uart_fits i1) in
      let b2 = (f2 b1).0 in
      let (st3, e3, i3) =
        when_set-Refines uart udp tcp rfds (read_then a.tcp_read (on_tcp_bytes uart))
          (obey_command uart (carried (got a.tcp_read))) b2 st2 fits i2
          (tcp_stage-Refines uart udp a.tcp_read b2 st2 ends.uart_open o.tcp_packet i2) in
      let b3 = (f3 b2).0 in
      let (st4, e4, i4) =
        when_set-Refines uart udp udp rfds (udp_stage a uart udp)
          (obey_command uart (carried (got a.udp_read))
            >> hang_up (asks (carried (got a.udp_read))))
          b3 st3 ends.udp_fits i3
          (udp_stage-Refines uart udp a.udp_read a.udp_from b3 st3 ends.udp_open o.udp_packet i3) in
      let e5 = when_set_out (on_stdin uart a.typed) st4 0 rfds (omega arith) quiet in
      (st4, rw (e1, e2, e3, e4, e5, append-nil), i4)

  requested_lem :
      (tcp : ℕ) (up : Bool) (st : Service)
      → is_open tcp ≡ true
      → tcp < 1024
      → st.tcp_connected ≡ flag_of up
      → requested st uart tcp udp
        ≡ some (
          if up then tcp ∷ uart ∷ udp ∷ 0 ∷ [] else uart ∷ udp ∷ 0 ∷ [],
          if up then [] else tcp ∷ [],
        )
  unfolding requested fd_set_if
  requested_lem tcp true st there fits e = rw (
    ends.uart_open,
    there,
    ends.udp_open,
    e,
    lt→ltb _ _ ends.uart_fits,
    lt→ltb _ _ fits,
    lt→ltb _ _ ends.udp_fits,
  )
  requested_lem tcp false st there fits e = rw (
    ends.uart_open,
    there,
    ends.udp_open,
    e,
    lt→ltb _ _ ends.uart_fits,
    lt→ltb _ _ fits,
    lt→ltb _ _ ends.udp_fits,
  )

  -- `select` ran out of time.
  on_nothing_lem :
      (tcp : ℕ) (st : Service) → tcp < 1024 → on_nothing uart tcp udp [] st ≡ some (st, [])
  unfolding on_nothing
  on_nothing_lem tcp st fits = rw (
    fd_isset_room tcp [] fits,
    fd_isset_room uart [] ends.uart_fits,
    fd_isset_room udp [] ends.udp_fits,
  )

  -- The descriptors are there, and the turn's result lets the loop go on.
  abbrev pub Serves : Option (Service × List Effect × ℕ) → Out → Type 0
  Serves ran (b, calls) =
      (st : Service) × (ret : ℕ) × (ran ≡ some (st, calls, ret))
      × (ltb ret (2 ^ 31) ≡ true)
      × Implements uart udp b st

  -- what follows an answer of `select`
  abbrev answered : ℕ → Service → ℕ × List ℕ × List ℕ → Option (Service × List Effect × ℕ)
  answered tcp st (ret, readable, writable) =
      if is_open ret
      then (dispatch signed a uart tcp udp readable writable st >>= λ (st', calls).
          some (st', calls, ret))
      else (on_nothing uart tcp udp readable st >>= λ (st', calls). some (st', calls, 0))

  answered-Serves :
      (b : Bridge) (st : Service) (answer : ℕ × List ℕ × List ℕ)
      → is_open b.tcp ≡ true
      → Implements uart udp b st
      → IsTimely answer
      → Serves
          (answered b.tcp st answer)
          (when (is_open answer.0) (handle uart udp b.tcp a answer.1 answer.2) b)
  answered-Serves b st (ret, readable, writable) there i (inl (some_ready, quiet)) =
      let (st', e, i') = dispatch-Refines b.tcp readable writable b st there refl quiet i in
      rw some_ready (st', ret, rw e, ground (arith, some_ready), i')
  answered-Serves b st (ret, readable, writable) there i (inr (late, nothing)) =
      rw (late, nothing) (st, 0, rw (on_nothing_lem b.tcp st i.tcp_fits), refl, i)

  as_answered :
      (b : Bridge) (st : Service)
      → is_open b.tcp ≡ true
      → Implements uart udp b st
      → select_and_dispatch signed a uart b.tcp udp st ≡ answered b.tcp st (selected uart udp a b)
  unfolding select_and_dispatch
  as_answered b st there i =
      ap (λ sets. sets >>= λ (rfds, wfds). answered b.tcp st (a.select rfds wfds))
        (requested_lem b.tcp b.up st there i.tcp_fits i.same_up)

  select-Serves :
      (b : Bridge) (st : Service)
      → is_open b.tcp ≡ true
      → Implements uart udp b st
      → Serves (select_and_dispatch signed a uart b.tcp udp st) (
          when
            (is_open (selected uart udp a b).0)
            (handle uart udp b.tcp a (selected uart udp a b).1 (selected uart udp a b).2)
            b)
  select-Serves b st there i =
      let (st', ret, e, small, i') =
        answered-Serves b st (selected uart udp a b) there i
          (o.selects (readable_asked uart udp b) (writable_asked b)) in
      (st', ret, as_answered b st there i ∙ e, small, i')

  -- The descriptors that are open stay, and a connection that is not is made.
  nothing_opened : (st : Service) → st.uart_fd ≡ uart → open_uart a.tty st ≡ (st, [], uart)
  unfolding open_uart
  nothing_opened st e =
      let there : is_open st.uart_fd ≡ true = rw e ends.uart_open in
      rw there (ap (λ (fd : ℕ). (st, [], fd)) e)

  nothing_bound :
      (st : Service) → st.udp_fd ≡ udp → start_udp_socket a.udp_made a.udp_binds st ≡ (st, [], udp)
  unfolding start_udp_socket
  nothing_bound st e =
      let there : is_open st.udp_fd ≡ true = rw e ends.udp_open in
      rw there (ap (λ (fd : ℕ). (st, [], fd)) e)

  connecting-Implements :
      (b : Bridge) (st : Service)
      → Implements uart udp b st
      → (st' : Service) × (start_tcp_socket a.tcp_made a.tcp_connects st
          ≡ (st', [], (connecting a.tcp_made b).tcp))
        × (is_open (connecting a.tcp_made b).tcp ≡ true)
        × Implements uart udp (connecting a.tcp_made b) st'
  unfolding start_tcp_socket
  connecting-Implements b st i = elim (Bool-cases (is_open b.tcp)) [
    | inl there ↦
        let opened : is_open st.tcp_fd ≡ true = rw i.same_tcp there in
        rw (there, opened) (st, ap (λ (fd : ℕ). (st, [], fd)) i.same_tcp, there, i)
    | inr shut ↦
        let shut' : is_open st.tcp_fd ≡ false = rw i.same_tcp shut in
        let valid : (a.tcp_made == minus_one) ≡ false = ground (arith, o.made_open) in
        rw (shut, shut', valid, o.connects)
          (
            _,
            refl,
            o.made_open,
            record {
              same_uart = i.same_uart;
              same_udp = i.same_udp;
              same_tcp = refl;
              same_up = refl;
              tcp_fits = o.made_fits;
              radar = i.radar;
            },
          )
  ]

  -- One turn.
  pub turn-Serves :
      (b : Bridge) (st : Service)
      → Implements uart udp b st
      → Serves (wait_message_and_handle signed a st) (turn uart udp a b)
  unfolding wait_message_and_handle
  turn-Serves b st i =
      let (st1, e1, there, i1) = connecting-Implements b st i in
      let (st', ret, e, small, i') = select-Serves (connecting a.tcp_made b) st1 there i1 in
      (
        st',
        ret,
        rw (nothing_opened st i.same_uart, e1, nothing_bound st1 i1.same_udp, ends.uart_open, e),
        small,
        i',
      )

-- The loop refines the bridge. The state stands for one of the bridge, serial port and datagram socket
-- are open, all descriptors are below 1024, and in every turn a socket is made, `connect` does not fail
-- at once, `select` does not fail, nothing is typed, and a read from the serial port gives at most 4096
-- bytes and one from the network at most 4093: then the loop runs through all turns without a fault
-- and goes on, writes and closes exactly what the bridge does, and the state it leaves stands for the
-- bridge's.
pub serve-Refines :
    (uart udp : ℕ) (signed : Bool) (turns : List Answers) (b : Bridge) (st : Service)
    → AreEnds uart udp
    → AreOrderly turns
    → Implements uart udp b st
    → (st' : Service) × (serve signed turns st ≡ some (st', (run uart udp turns b).1, false))
      × Implements uart udp (run uart udp turns b).0 st'
unfolding serve
serve-Refines uart udp signed [] b st ends orderly i = (st, refl, i)
serve-Refines uart udp signed (a ∷ turns) b st ends (o, orderly) i =
    let (st1, ret, e, small, i1) = turn-Serves uart udp ends signed a o b st i in
    let (st', f, i') =
      serve-Refines uart udp signed turns (turn uart udp a b).0 st1 ends orderly i1 in
    (st', serve_after signed a turns st e small f, i')
