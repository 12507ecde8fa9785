-- ===== src/Service/Turn.antt =====
-- `WaitMessageAndHandle` of src/psuservice.c, one turn of the service's loop. Console output is left
-- out. FD_SET and FD_ISSET on a number that no set has room for are undefined, `none`.
pub mod Stages
pub mod Invariant
pub mod Faults
pub mod Ready
pub mod Radar
use psuart.Prelude.{
  ℕ, ◌+◌, ◌-◌, List, [], ◌∷◌, ◌++◌, map, Option, some, none, ◌>>=◌, Bool, true, false, not, ◌&&◌,
  ◌||◌, ltb, ◌==◌, if◌then◌else◌, length,
}
use psuart.Utils.Serial.{Tty, is_open}
use psuart.Rader.State.{Rader, Write, zeroed, data_flag_S, set_rader_dlen}
use psuart.Rader.Recv.{rader_recv}
use psuart.Rader.Command.{rader_cmd}
use psuart.Rader.Stdin.{rader_cmd_from_stdin}
use psuart.Service.{Service, Effect, wrote, closed}
use psuart.Service.Socket.{
  Done, open_uart, close_uart, start_tcp_socket, close_tcp_socket, start_udp_socket,
  close_udp_socket, tcp_socket_status,
}

-- What the system answers in a turn. `select` gives its result and the two sets that it leaves; a
-- read that fails is `none`; `typed` is the word that `scanf` stores.
pub record Answers : Type 0 where
  pub tty : Tty
  pub tcp_made : ℕ
  pub tcp_connects : Bool
  pub udp_made : ℕ
  pub udp_binds : Bool
  pub select : List ℕ → List ℕ → ℕ × List ℕ × List ℕ
  pub tcp_error : Option ℕ
  pub uart_read : Option (List ℕ)
  pub tcp_read : Option (List ℕ)
  pub udp_read : Option (List ℕ)
  pub udp_from : ℕ
  pub typed : List ℕ

-- FD_SETSIZE
abbrev pub fd_setsize : ℕ
fd_setsize = 1024

abbrev pub has : ℕ → List ℕ → Bool
has fd [] = false
has fd (x ∷ fds) = fd == x || has fd fds

-- `if (wanted) FD_SET(fd, &fds);`
unfoldable pub fd_set_if : Bool → ℕ → List ℕ → Option (List ℕ)
fd_set_if wanted fd fds =
    if wanted then (if ltb fd fd_setsize then some (fd ∷ fds) else none) else some fds

unfoldable pub fd_isset : ℕ → List ℕ → Option Bool
fd_isset fd fds = if ltb fd fd_setsize then some (has fd fds) else none

-- the sets that are handed to `select`
unfoldable pub requested : Service → ℕ → ℕ → ℕ → Option (List ℕ × List ℕ)
requested st uart tcp udp = do
  with_udp ← fd_set_if (is_open udp) udp (0 ∷ [])
  with_uart ← fd_set_if (is_open uart) uart with_udp
  wfds ← fd_set_if (is_open tcp && st.tcp_connected == 0) tcp []
  rfds ← fd_set_if (is_open tcp && st.tcp_connected == 1) tcp with_uart
  some (rfds, wfds)

-- `buf` behind `memset` and a read of these bytes
abbrev pub buffer : List ℕ → List ℕ
buffer bytes = bytes ++ zeroed (4096 - length bytes)

-- a new state of the radar and what it wrote
abbrev pub with_rader : Service → Rader × List Write → Service × List Effect
with_rader st (rader, sent) = (record st { rader = rader }, map wrote sent)

-- `select` has failed or timed out
unfoldable pub on_nothing : ℕ → ℕ → ℕ → List ℕ → Service → Option (Service × List Effect)
on_nothing uart tcp udp rfds st = do
  tcp_there ← fd_isset tcp rfds
  let (st1, c1) = if tcp_there then close_tcp_socket st else (st, [])
  uart_there ← fd_isset uart rfds
  let (st2, c2) = if uart_there then close_uart st1 else (st1, [])
  udp_there ← fd_isset udp rfds
  let (st3, c3) = if udp_there then close_udp_socket st2 else (st2, [])
  some (st3, c1 ++ (c2 ++ c3))

-- the connection is there or has failed
unfoldable pub on_connect : Option ℕ → Service → Service × List Effect
on_connect err st =
    let (st', calls, status) = tcp_socket_status err st in
    if status == 0
    then (record st' { tcp_connected = 1; rader = set_rader_dlen st'.rader 0 }, calls)
    else (record st' { tcp_connected = 0 }, calls)

-- bytes from the radar
unfoldable pub on_uart_bytes : Bool → ℕ → ℕ → List ℕ → Service → Option (Service × List Effect)
on_uart_bytes signed uart tcp bytes st =
    if ltb 0 (length bytes) && (is_open tcp && not (st.tcp_connected == 0))
    then (rader_recv signed tcp st.rader (buffer bytes) (length bytes) >>= λ (rader, sent, flag).
        if flag == data_flag_S
        then (rader_cmd_from_stdin uart rader (b'F' ∷ 0 ∷ []) 1 >>= λ (rader', more).
            some (with_rader st (rader', sent ++ more)))
        else some (with_rader st (rader, sent)))
    else some (st, [])

-- bytes from the connection
unfoldable pub on_tcp_bytes : ℕ → List ℕ → Service → Option (Service × List Effect)
on_tcp_bytes uart bytes st =
    if ltb 0 (length bytes) && is_open uart
    then (rader_cmd uart st.rader (buffer bytes) (length bytes) >>= λ (rader, sent, close).
        some (with_rader st (rader, sent)))
    else some (st, [])

-- a datagram: its sender is noted, and it may ask to close the connection
unfoldable pub on_udp_bytes : ℕ → ℕ → List ℕ → Service → Option (Service × List Effect)
on_udp_bytes uart udp bytes st =
    if ltb 0 (length bytes) && is_open udp
    then (rader_cmd uart st.rader (buffer bytes) (length bytes) >>= λ (rader, sent, close).
        let (st', calls) = with_rader st (rader, sent) in
        let (st'', more) = if close == 1 then close_tcp_socket st' else (st', []) in
        some (st'', calls ++ more))
    else some (st, [])

-- The sender of a datagram that fails to come is not stored; the port is.
unfoldable pub note_sender : Option (List ℕ) → ℕ → Service → Service
note_sender got from st =
    let noted = elim got as (λ x. Service) [
      | none ↦ st
      | some bytes ↦ record st { net_ip = from }
    ] in
    record noted { net_port = st.udpport }

-- a word from the console, in an array of 4096 bytes
unfoldable pub on_stdin : ℕ → List ℕ → Service → Option (Service × List Effect)
on_stdin uart typed st =
    if ltb (length typed) 4096
    then (rader_cmd_from_stdin uart st.rader (buffer typed) (length typed) >>= λ (rader, sent).
        some (with_rader st (rader, sent)))
    else none

-- a stage of the turn that is passed over if its descriptor is not in the set
unfoldable pub when_set :
    ℕ
    → List ℕ
    → (Service → Option (Service × List Effect))
    → Service
    → Option (Service × List Effect)
when_set fd fds stage st = fd_isset fd fds >>= λ there. if there then stage st else some (st, [])

-- bytes read, of which a failed read gives none
abbrev pub read_then :
    Option (List ℕ)
    → (List ℕ → Service → Option (Service × List Effect))
    → Service
    → Option (Service × List Effect)
read_then none stage st = some (st, [])
read_then (some bytes) stage st = stage bytes st

unfoldable pub dispatch :
    Bool → Answers → ℕ → ℕ → ℕ → List ℕ → List ℕ → Service → Option (Service × List Effect)
dispatch signed a uart tcp udp rfds wfds st = do
  (st1, c1) ← when_set tcp wfds (λ s. some (on_connect a.tcp_error s)) st
  (st2, c2) ← when_set uart rfds (read_then a.uart_read (on_uart_bytes signed uart tcp)) st1
  (st3, c3) ← when_set tcp rfds (read_then a.tcp_read (on_tcp_bytes uart)) st2
  (st4, c4) ←
      when_set udp rfds
        (λ s. read_then a.udp_read (on_udp_bytes uart udp) (note_sender a.udp_read a.udp_from s))
        st3
  (st5, c5) ← when_set 0 rfds (on_stdin uart a.typed) st4
  some (st5, c1 ++ (c2 ++ (c3 ++ (c4 ++ c5))))

-- What follows once the descriptors are there: the new state, the calls and the result.
unfoldable pub select_and_dispatch :
    Bool → Answers → ℕ → ℕ → ℕ → Service → Option (Service × List Effect × ℕ)
select_and_dispatch signed a uart tcp udp st = do
  (rfds, wfds) ← requested st uart tcp udp
  let (ret, readable, writable) = a.select rfds wfds
  if is_open ret
      then (dispatch signed a uart tcp udp readable writable st >>= λ (st', calls).
          some (st', calls, ret))
      else (on_nothing uart tcp udp readable st >>= λ (st', calls). some (st', calls, 0))

unfoldable pub wait_message_and_handle :
    Bool → Answers → Service → Option (Service × List Effect × ℕ)
wait_message_and_handle signed a st =
    let (st1, c1, uart) = open_uart a.tty st in
    let (st2, c2, tcp) = start_tcp_socket a.tcp_made a.tcp_connects st1 in
    let (st3, c3, udp) = start_udp_socket a.udp_made a.udp_binds st2 in
    if not (is_open uart) && not (is_open udp)
    then some (st3, c1 ++ (c2 ++ c3), 0)
    else (select_and_dispatch signed a uart tcp udp st3 >>= λ (st', calls, ret).
        some (st', c1 ++ (c2 ++ (c3 ++ calls)), ret))
