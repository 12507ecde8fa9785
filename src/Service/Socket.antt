-- ===== src/Service/Socket.antt =====
-- Opening and closing the three descriptors of src/psuservice.c.
pub mod Laws
use psuart.Prelude.{
  ℕ, ◌-◌, ◌^◌, List, [], ◌∷◌, ◌++◌, map, Option, some, none, Bool, true, false, not, ◌&&◌, ltb,
  ◌==◌, if◌then◌else◌, u16,
}
use psuart.Utils.Serial.{Tty, Opened, is_open, minus_one, com_open}
use psuart.Service.{Service, Effect, wrote, closed}

-- -2 and -3 as patterns
abbrev pub minus_two : ℕ
minus_two = 2 ^ 32 - 2

abbrev pub minus_three : ℕ
minus_three = 2 ^ 32 - 3

-- The new state, the calls made and the result.
abbrev pub Done : Type 0
Done = Service × List Effect × ℕ

-- `com_open` closes what it opened in vain.
unfoldable pub open_uart : Tty → Service → Done
open_uart tty st =
    if is_open st.uart_fd
    then (st, [], st.uart_fd)
    else let opened = com_open tty st.uart_port in
      (
        record st { uart_fd = opened.fd },
        map closed opened.closed,
        if is_open opened.fd then opened.fd else minus_one,
      )

unfoldable pub close_uart : Service → Service × List Effect
close_uart st =
    (record st { uart_fd = 0 }, if is_open st.uart_fd then closed st.uart_fd ∷ [] else [])

-- `socket` gives `made`; `bound` says whether `bind` succeeds.
unfoldable pub start_udp_socket : ℕ → Bool → Service → Done
start_udp_socket made bound st =
    if is_open st.udp_fd
    then (st, [], st.udp_fd)
    else if made == minus_one
    then (record st { udp_fd = made }, [], minus_one)
    else if bound
    then (record st { udp_fd = made }, [], made)
    else (record st { udp_fd = 0 }, closed made ∷ [], minus_two)

unfoldable pub close_udp_socket : Service → Service × List Effect
close_udp_socket st =
    if is_open st.udp_fd then (record st { udp_fd = 0 }, closed st.udp_fd ∷ []) else (st, [])

-- The connection is made or under way, or `connect` fails with another error. The options that are
-- set on the socket change nothing here.
unfoldable pub start_tcp_socket : ℕ → Bool → Service → Done
start_tcp_socket made connects st =
    if is_open st.tcp_fd
    then (st, [], st.tcp_fd)
    else if made == minus_one
    then (record st { tcp_fd = made }, [], minus_one)
    else if connects
    then (record st { tcp_fd = made; tcp_connected = 0 }, [], made)
    else (record st { tcp_fd = 0; tcp_connected = 0 }, closed made ∷ [], minus_two)

unfoldable pub close_tcp_socket : Service → Service × List Effect
close_tcp_socket st =
    if is_open st.tcp_fd then (record st { tcp_fd = 0 }, closed st.tcp_fd ∷ []) else (st, [])

-- `getsockopt` fails, `none`, or gives the pending error.
unfoldable pub tcp_socket_status : Option ℕ → Service → Done
unfolding close_tcp_socket
tcp_socket_status err st =
    let (shut, calls) = close_tcp_socket st in
    if not (is_open st.tcp_fd) then (st, [], minus_one) else elim err [
      | none ↦ (shut, calls, minus_two)
      | some e ↦ if e == 0 then (st, [], 0) else (shut, calls, minus_three)
    ]
