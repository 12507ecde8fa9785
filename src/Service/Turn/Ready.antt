-- ===== src/Service/Turn/Ready.antt =====
-- Turns with all three descriptors open, in which one of them is ready.
use psuart.Prelude.{
  ℕ, ◌<◌, ◌≡◌, refl, arith, List, [], ◌∷◌, append-nil, Option, some, Bool, true, false, lt→ltb,
  ◌==◌,
}
use psuart.Utils.Serial.{is_open}
use psuart.Service.{Service, Effect}
use psuart.Service.Socket.{open_uart, start_tcp_socket, start_udp_socket}
use psuart.Service.Turn.{
  Answers, has, fd_set_if, fd_isset, requested, on_connect, on_uart_bytes, on_tcp_bytes,
  on_udp_bytes, note_sender, on_stdin, when_set, read_then, dispatch, select_and_dispatch,
  wait_message_and_handle,
}

-- descriptors that are open, that a set has room for, and that differ; a connection that is there
pub record AreUp (uart tcp udp connected : ℕ) : Type 0 where
  pub uart_open : is_open uart ≡ true
  pub tcp_open : is_open tcp ≡ true
  pub udp_open : is_open udp ≡ true
  pub uart_fits : uart < 1024
  pub tcp_fits : tcp < 1024
  pub udp_fits : udp < 1024
  pub uart_not_tcp : (uart == tcp) ≡ false
  pub uart_not_udp : (uart == udp) ≡ false
  pub tcp_not_udp : (tcp == udp) ≡ false
  pub connected_now : connected ≡ 1

abbrev pub IsUp : Service → Type 0
IsUp st = AreUp st.uart_fd st.tcp_fd st.udp_fd st.tcp_connected

-- the stage of a datagram
abbrev pub udp_stage : Answers → ℕ → ℕ → Service → Option (Service × List Effect)
udp_stage a uart udp s =
    read_then a.udp_read (on_udp_bytes uart udp) (note_sender a.udp_read a.udp_from s)

pub fd_isset_room : (fd : ℕ) (fds : List ℕ) → fd < 1024 → fd_isset fd fds ≡ some (has fd fds)
unfolding fd_isset
fd_isset_room fd fds h = rw (lt→ltb fd 1024 h)

module _ (stage : Service → Option (Service × List Effect)) (st : Service) where
  -- a stage whose descriptor is in the set
  pub when_set_in :
      (fd : ℕ) (fds : List ℕ) → fd < 1024 → has fd fds ≡ true → when_set fd fds stage st ≡ stage st
  unfolding when_set
  when_set_in fd fds h there = rw (fd_isset_room fd fds h, there)

  -- a stage whose descriptor is not
  pub when_set_out :
      (fd : ℕ) (fds : List ℕ)
      → fd < 1024
      → has fd fds ≡ false
      → when_set fd fds stage st ≡ some (st, [])
  unfolding when_set
  when_set_out fd fds h apart = rw (fd_isset_room fd fds h, apart)

has-one : (fd other : ℕ) → (fd == other) ≡ false → has fd (other ∷ []) ≡ false
has-one fd other e = rw e

has_self : (fd : ℕ) → has fd (fd ∷ []) ≡ true
has_self fd = ground arith

==-flip : (m n : ℕ) → (m == n) ≡ false → (n == m) ≡ false
==-flip m n e = ground arith

open_not_zero : (fd : ℕ) → is_open fd ≡ true → (0 == fd) ≡ false
open_not_zero fd e = ground arith

module _ (signed : Bool) (a : Answers) (st : Service) (up : IsUp st) where
  -- what is asked of `select`
  requested_up :
      requested st st.uart_fd st.tcp_fd st.udp_fd
      ≡ some (st.tcp_fd ∷ st.uart_fd ∷ st.udp_fd ∷ 0 ∷ [], [])
  unfolding requested fd_set_if
  requested_up = rw (
    up.uart_open,
    up.tcp_open,
    up.udp_open,
    up.connected_now,
    lt→ltb _ _ up.uart_fits,
    lt→ltb _ _ up.tcp_fits,
    lt→ltb _ _ up.udp_fits,
  )

  select_ready :
      (readable : List ℕ) {st' : Service} {calls : List Effect}
      → ((rfds wfds : List ℕ) → a.select rfds wfds ≡ (1, readable, []))
      → dispatch signed a st.uart_fd st.tcp_fd st.udp_fd readable [] st ≡ some (st', calls)
      → select_and_dispatch signed a st.uart_fd st.tcp_fd st.udp_fd st ≡ some (st', calls, 1)
  unfolding select_and_dispatch
  select_ready readable e d = rw (requested_up, e, d)

  nothing_opened : open_uart a.tty st ≡ (st, [], st.uart_fd)
  unfolding open_uart
  nothing_opened = rw up.uart_open

  nothing_started :
      (start_tcp_socket a.tcp_made a.tcp_connects st ≡ (st, [], st.tcp_fd))
      × (start_udp_socket a.udp_made a.udp_binds st ≡ (st, [], st.udp_fd))
  unfolding start_tcp_socket start_udp_socket
  nothing_started = (rw up.tcp_open, rw up.udp_open)

  -- A turn in which `select` finds these descriptors ready is their dispatch.
  pub wait_ready :
      (readable : List ℕ) {st' : Service} {calls : List Effect}
      → ((rfds wfds : List ℕ) → a.select rfds wfds ≡ (1, readable, []))
      → dispatch signed a st.uart_fd st.tcp_fd st.udp_fd readable [] st ≡ some (st', calls)
      → wait_message_and_handle signed a st ≡ some (st', calls, 1)
  unfolding wait_message_and_handle
  wait_ready readable e d = rw (
    nothing_opened,
    nothing_started.0,
    nothing_started.1,
    up.uart_open,
    select_ready readable e d,
  )

  pub dispatch_uart :
      {st' : Service} {calls : List Effect}
      → read_then a.uart_read (on_uart_bytes signed st.uart_fd st.tcp_fd) st ≡ some (st', calls)
      → dispatch signed a st.uart_fd st.tcp_fd st.udp_fd (st.uart_fd ∷ []) [] st ≡ some (st', calls)
  unfolding dispatch
  dispatch_uart {st'} {calls} e = rw (
    when_set_out (λ s. some (on_connect a.tcp_error s)) st st.tcp_fd [] up.tcp_fits refl,
    when_set_in (read_then a.uart_read (on_uart_bytes signed st.uart_fd st.tcp_fd)) st st.uart_fd
        (st.uart_fd ∷ []) up.uart_fits (has_self st.uart_fd),
    e,
    when_set_out (read_then a.tcp_read (on_tcp_bytes st.uart_fd)) st' st.tcp_fd (st.uart_fd ∷ [])
        up.tcp_fits (has-one _ _ (==-flip _ _ up.uart_not_tcp)),
    when_set_out (udp_stage a st.uart_fd st.udp_fd) st' st.udp_fd (st.uart_fd ∷ []) up.udp_fits
        (has-one _ _ (==-flip _ _ up.uart_not_udp)),
    when_set_out (on_stdin st.uart_fd a.typed) st' 0 (st.uart_fd ∷ []) (omega arith)
        (has-one _ _ (open_not_zero _ up.uart_open)),
    append-nil calls,
  )

  pub dispatch_tcp :
      {st' : Service} {calls : List Effect}
      → read_then a.tcp_read (on_tcp_bytes st.uart_fd) st ≡ some (st', calls)
      → dispatch signed a st.uart_fd st.tcp_fd st.udp_fd (st.tcp_fd ∷ []) [] st ≡ some (st', calls)
  unfolding dispatch
  dispatch_tcp {st'} {calls} e = rw (
    when_set_out (λ s. some (on_connect a.tcp_error s)) st st.tcp_fd [] up.tcp_fits refl,
    when_set_out (read_then a.uart_read (on_uart_bytes signed st.uart_fd st.tcp_fd)) st st.uart_fd
        (st.tcp_fd ∷ []) up.uart_fits (has-one _ _ up.uart_not_tcp),
    when_set_in (read_then a.tcp_read (on_tcp_bytes st.uart_fd)) st st.tcp_fd (st.tcp_fd ∷ [])
        up.tcp_fits (has_self st.tcp_fd),
    e,
    when_set_out (udp_stage a st.uart_fd st.udp_fd) st' st.udp_fd (st.tcp_fd ∷ []) up.udp_fits
        (has-one _ _ (==-flip _ _ up.tcp_not_udp)),
    when_set_out (on_stdin st.uart_fd a.typed) st' 0 (st.tcp_fd ∷ []) (omega arith)
        (has-one _ _ (open_not_zero _ up.tcp_open)),
    append-nil calls,
  )

  pub dispatch_udp :
      {st' : Service} {calls : List Effect}
      → udp_stage a st.uart_fd st.udp_fd st ≡ some (st', calls)
      → dispatch signed a st.uart_fd st.tcp_fd st.udp_fd (st.udp_fd ∷ []) [] st ≡ some (st', calls)
  unfolding dispatch
  dispatch_udp {st'} {calls} e = rw (
    when_set_out (λ s. some (on_connect a.tcp_error s)) st st.tcp_fd [] up.tcp_fits refl,
    when_set_out (read_then a.uart_read (on_uart_bytes signed st.uart_fd st.tcp_fd)) st st.uart_fd
        (st.udp_fd ∷ []) up.uart_fits (has-one _ _ up.uart_not_udp),
    when_set_out (read_then a.tcp_read (on_tcp_bytes st.uart_fd)) st st.tcp_fd (st.udp_fd ∷ [])
        up.tcp_fits (has-one _ _ up.tcp_not_udp),
    when_set_in (udp_stage a st.uart_fd st.udp_fd) st st.udp_fd (st.udp_fd ∷ []) up.udp_fits
        (has_self st.udp_fd),
    e,
    when_set_out (on_stdin st.uart_fd a.typed) st' 0 (st.udp_fd ∷ []) (omega arith)
        (has-one _ _ (open_not_zero _ up.udp_open)),
    append-nil calls,
  )
