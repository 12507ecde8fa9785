-- ===== src/Service/Loop/Traffic.antt =====
-- What passes through the loop: a command that comes as a datagram, and the answer to it.
use psuart.Prelude.{
  ℕ, ltb, ◌^◌, true, ◌+◌, ◌≤◌, ◌<◌, ◌≡◌, refl, sym, ap, ◌∙◌, arith, List, [], ◌∷◌, ◌++◌, map,
  append-nil, append_assoc, some, Bool, false, gt→leb, ◌==◌, length, length-append,
}
use native.Mathlib.Decide.{dec_le}
use psuart.Rader.State.{Rader, data_flag_S}
use psuart.Rader.Recv.Answer.{IsGathering}
use psuart.Rader.Recv.Stream.{joined, answer, answer-append}
use psuart.Service.{Service, Effect, wrote}
use psuart.Service.Turn.{Answers, on_uart_bytes, wait_message_and_handle}
use psuart.Service.Turn.Ready.{IsUp, wait_ready, dispatch_uart}
use psuart.Service.Turn.Radar.{
  with_radar, idle_with, uart_bytes_idle, uart_bytes_partial, uart_bytes_complete,
}
use psuart.Service.Loop.{serve}

-- a turn in which bytes come from the radar
abbrev pub uart_turn : Answers → ℕ → List ℕ → Answers
uart_turn a uart bytes = record a {
  select = λ rfds wfds. (1, uart ∷ [], []);
  uart_read = some bytes;
}

abbrev pub uart_turns : Answers → ℕ → List (List ℕ) → List Answers
uart_turns a uart [] = []
uart_turns a uart (chunk ∷ chunks) = uart_turn a uart chunk ∷ uart_turns a uart chunks

-- each read gives at least one byte and fits the array
abbrev pub ArePieces : List (List ℕ) → Type 0
ArePieces [] = Unit {0}
ArePieces (chunk ∷ chunks) = (0 < length chunk) × (length chunk ≤ 4096) × ArePieces chunks

-- a turn of the loop in front of others
pub serve_after :
    (signed : Bool) (a : Answers) (turns : List Answers) (st : Service) {st' st'' : Service}
    {calls more : List Effect} {ret : ℕ} {ended : Bool}
    → wait_message_and_handle signed a st ≡ some (st', calls, ret)
    → ltb ret (2 ^ 31) ≡ true
    → serve signed turns st' ≡ some (st'', more, ended)
    → serve signed (a ∷ turns) st ≡ some (st'', calls ++ more, ended)
unfolding serve
serve_after signed a turns st e goes_on f = rw (e, goes_on, f)

pub serve_cons :
    (signed : Bool) (a : Answers) (turns : List Answers) (st : Service) {st' st'' : Service}
    {calls more : List Effect}
    → wait_message_and_handle signed a st ≡ some (st', calls, 1)
    → serve signed turns st' ≡ some (st'', more, false)
    → serve signed (a ∷ turns) st ≡ some (st'', calls ++ more, false)
serve_cons signed a turns st e f = serve_after signed a turns st e refl f

pub uart_turn_lem :
    (signed : Bool) (a : Answers) (st : Service) (chunk : List ℕ) {st' : Service}
    {calls : List Effect}
    → IsUp st
    → on_uart_bytes signed st.uart_fd st.tcp_fd chunk st ≡ some (st', calls)
    → wait_message_and_handle signed (uart_turn a st.uart_fd chunk) st ≡ some (st', calls, 1)
uart_turn_lem signed a st chunk up e =
    let turn = uart_turn a st.uart_fd chunk in
    wait_ready signed turn st up (st.uart_fd ∷ []) (λ rfds wfds. refl)
      (dispatch_uart signed turn st up e)

serve_idle :
    (signed : Bool) (a : Answers) (st : Service) (chunks : List (List ℕ))
    → IsUp st
    → ArePieces chunks
    → st.rader.dlen ≡ 0
    → serve signed (uart_turns a st.uart_fd chunks) st ≡ some (st, [], false)
unfolding serve
serve_idle signed a st [] up pieces idle = refl
serve_idle signed a st (chunk ∷ chunks) up pieces idle =
    serve_cons signed (uart_turn a st.uart_fd chunk) (uart_turns a st.uart_fd chunks) st
      (uart_turn_lem signed a st chunk up (
        uart_bytes_idle signed st.uart_fd st.tcp_fd st up.tcp_open up.connected_now chunk pieces.0
          idle))
      (serve_idle signed a st chunks up pieces.2 idle)

-- While an answer is awaited, turns in which the radar's bytes come send it on whole.
pub serve_gathers :
    (signed : Bool) (a : Answers) (st : Service) (q : List ℕ) (chunks : List (List ℕ))
    → IsUp st
    → IsGathering st.rader q
    → (st.rader.cmd_flag == data_flag_S) ≡ false
    → ArePieces chunks
    → (r : Rader) × (serve signed (uart_turns a st.uart_fd chunks) st
        ≡ some (with_radar st r, map wrote (answer st.tcp_fd st.rader (q ++ joined chunks)), false))
unfolding serve
serve_gathers signed a st q [] up g other pieces =
    (st.rader, rw (append-nil q, gt→leb st.rader.dlen (length q) g.partial))
serve_gathers signed a st q (chunk ∷ chunks) up g other (some_bytes, small, pieces) =
    elim (dec_le st.rader.dlen (length q + length chunk)) [
      | yes whole ↦
          let (fifo', e, left) =
            uart_bytes_complete signed st.uart_fd st.tcp_fd st up.tcp_open up.connected_now chunk
              some_bytes q g small whole other in
          let done = idle_with fifo' in
          let answered =
            sym (
              answer-append st.tcp_fd st.rader (q ++ chunk) (joined chunks)
                (omega (arith, length-append q chunk)))
            ∙ ap (answer st.tcp_fd st.rader) (append_assoc q chunk (joined chunks)) in
          (
            done,
            serve_cons signed (uart_turn a st.uart_fd chunk) (uart_turns a st.uart_fd chunks) st
                  (uart_turn_lem signed a st chunk up e)
                  (serve_idle signed a (with_radar st done) chunks up pieces refl)
                ∙ ap (λ ws. some (with_radar st done, map wrote ws, false)) answered,
          )
      | no more ↦
          let (fifo', e, g') =
            uart_bytes_partial signed st.uart_fd st.tcp_fd st up.tcp_open up.connected_now chunk
              some_bytes q g (omega arith) in
          let st' = with_radar st (record st.rader { fifo = fifo' }) in
          let (r, f) = serve_gathers signed a st' (q ++ chunk) chunks up g' other pieces in
          (
            r,
            serve_cons signed (uart_turn a st.uart_fd chunk) (uart_turns a st.uart_fd chunks) st
                  (uart_turn_lem signed a st chunk up e) f
                ∙ ap
                    (λ bytes.
                      some (with_radar st r, map wrote (answer st.tcp_fd st.rader bytes), false))
                    (append_assoc q chunk (joined chunks)),
          )
    ]
