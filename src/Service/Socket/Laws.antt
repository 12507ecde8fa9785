-- ===== src/Service/Socket/Laws.antt =====
-- What opening and closing descriptors does.
use psuart.Prelude.{
  ℕ, ◌≡◌, refl, arith, List, [], ◌∷◌, Option, Bool, false, if◌then◌else◌, Bool-cases, inl, inr,
}
use psuart.Utils.Serial.{Tty, is_open}
use psuart.Service.{Service, Effect, closed}
use psuart.Service.Socket.{
  open_uart, close_uart, start_tcp_socket, close_tcp_socket, start_udp_socket, close_udp_socket,
  tcp_socket_status,
}

-- Opening and closing descriptors leaves the radar's state alone.
pub close_tcp_socket-rader : (st : Service) → (close_tcp_socket st).0.rader ≡ st.rader
unfolding close_tcp_socket
close_tcp_socket-rader st = ground arith

pub close_uart-rader : (st : Service) → (close_uart st).0.rader ≡ st.rader
unfolding close_uart
close_uart-rader st = refl

pub close_udp_socket-rader : (st : Service) → (close_udp_socket st).0.rader ≡ st.rader
unfolding close_udp_socket
close_udp_socket-rader st = ground arith

pub open_uart-rader : (tty : Tty) (st : Service) → (open_uart tty st).0.rader ≡ st.rader
unfolding open_uart
open_uart-rader tty st = ground arith

pub start_tcp_socket-rader :
    (made : ℕ) (connects : Bool) (st : Service)
    → (start_tcp_socket made connects st).0.rader ≡ st.rader
unfolding start_tcp_socket
start_tcp_socket-rader made connects st = ground arith

pub start_udp_socket-rader :
    (made : ℕ) (bound : Bool) (st : Service) → (start_udp_socket made bound st).0.rader ≡ st.rader
unfolding start_udp_socket
start_udp_socket-rader made bound st = ground arith

pub tcp_socket_status-rader :
    (err : Option ℕ) (st : Service) → (tcp_socket_status err st).0.rader ≡ st.rader
unfolding tcp_socket_status close_tcp_socket
tcp_socket_status-rader err st = ground arith

-- a descriptor behind its close, and the call that closes it
abbrev pub cleared : ℕ → ℕ
cleared fd = if is_open fd then 0 else fd

abbrev pub closing : ℕ → List Effect
closing fd = if is_open fd then closed fd ∷ [] else []

pub cleared-shut : (fd : ℕ) → is_open (cleared fd) ≡ false
cleared-shut fd = ground arith

pub close_tcp_socket_lem :
    (st : Service)
    → close_tcp_socket st ≡ (record st { tcp_fd = cleared st.tcp_fd }, closing st.tcp_fd)
unfolding close_tcp_socket
close_tcp_socket_lem st = elim (Bool-cases (is_open st.tcp_fd)) [
  | inl there ↦ rw (close_tcp_socket, there)
  | inr shut ↦ rw (close_tcp_socket, shut)
]

pub close_udp_socket_lem :
    (st : Service)
    → close_udp_socket st ≡ (record st { udp_fd = cleared st.udp_fd }, closing st.udp_fd)
unfolding close_udp_socket
close_udp_socket_lem st = elim (Bool-cases (is_open st.udp_fd)) [
  | inl there ↦ rw (close_udp_socket, there)
  | inr shut ↦ rw (close_udp_socket, shut)
]
