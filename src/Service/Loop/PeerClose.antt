-- ===== src/Service/Loop/PeerClose.antt =====
-- What the loop does once the peer has ended the connection: `read` gives no bytes, at once.
use psuart.Prelude.{ℕ, zero, suc, ◌≡◌, refl, List, [], ◌∷◌, some, Bool, false, replicate}
use psuart.Service.{Service}
use psuart.Service.Turn.{Answers, on_tcp_bytes}
use psuart.Service.Turn.Ready.{IsUp, wait_ready, dispatch_tcp}
use psuart.Service.Loop.{serve}
use psuart.Service.Loop.Traffic.{serve_cons}

-- a turn in which these bytes come over the connection
abbrev pub tcp_turn : Answers → ℕ → List ℕ → Answers
tcp_turn a tcp bytes = record a { select = λ rfds wfds. (1, tcp ∷ [], []); tcp_read = some bytes }

nothing_taken : (uart : ℕ) (st : Service) → on_tcp_bytes uart [] st ≡ some (st, [])
unfolding on_tcp_bytes
nothing_taken uart st = refl

-- Once the peer has ended the connection, the loop runs through as many turns as there are without a
-- change of the state and without a call: the connection is neither closed nor made again.
pub serve_peer_closed :
    (signed : Bool) (a : Answers) (st : Service) (n : ℕ)
    → IsUp st
    → serve signed (replicate n (tcp_turn a st.tcp_fd [])) st ≡ some (st, [], false)
unfolding serve
serve_peer_closed signed a st zero up = refl
serve_peer_closed signed a st (suc n) up =
    let turn = tcp_turn a st.tcp_fd [] in
    serve_cons signed turn (replicate n turn) st
      (wait_ready signed turn st up (st.tcp_fd ∷ []) (λ rfds wfds. refl)
        (dispatch_tcp signed turn st up (nothing_taken st.uart_fd st)))
      (serve_peer_closed signed a st n up)
