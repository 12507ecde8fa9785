-- ===== src/Service/Loop.antt =====
-- The loop of `main` in src/psuservice.c, and how the service ends: by a signal, or behind the loop.
pub mod Endless
pub mod Traffic
pub mod Session
pub mod PeerClose
pub mod Chain
use psuart.Prelude.{
  ℕ, ◌^◌, List, [], ◌∷◌, ◌++◌, Option, some, ◌>>=◌, Bool, true, false, ltb, if◌then◌else◌,
}
use psuart.Service.{Service, Effect}
use psuart.Service.Socket.{close_uart, close_udp_socket, close_tcp_socket}
use psuart.Service.Turn.{Answers, wait_message_and_handle}

-- the body of `signal_func`, and the calls behind the loop
unfoldable pub shut_down : Service → Service × List Effect
shut_down st =
    let (st1, c1) = close_uart st in
    let (st2, c2) = close_udp_socket st1 in
    let (st3, c3) = close_tcp_socket st2 in (st3, c1 ++ (c2 ++ c3))

-- `do iRet = WaitMessageAndHandle(...); while (iRet >= 0);` over the answers of the turns. The flag
-- says whether the loop has ended.
unfoldable pub serve : Bool → List Answers → Service → Option (Service × List Effect × Bool)
serve signed [] st = some (st, [], false)
serve signed (a ∷ turns) st = wait_message_and_handle signed a st >>= λ (st', calls, ret).
    if ltb ret (2 ^ 31)
    then (serve signed turns st' >>= λ (st'', more, ended). some (st'', calls ++ more, ended))
    else let (shut, last) = shut_down st' in some (shut, calls ++ last, true)
