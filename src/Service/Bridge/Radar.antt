-- ===== src/Service/Bridge/Radar.antt =====
-- The stage of a turn that takes the radar's bytes does what the bridge does.
use psuart.Prelude.{
  ℕ, ◌+◌, ◌<◌, ◌≤◌, ◌≡◌, refl, subst, arith, inl, inr, List, [], ◌++◌, Option, some, none, Bool,
  true, false, ltb, leb, ◌==◌, if◌then◌else◌, length, length-append, Bool-cases, ltb→lt,
}
use psuart.Utils.Serial.{is_open}
use psuart.RingBuffer.{RingBuffer}
use psuart.RingBuffer.In.{Represents}
use psuart.Rader.State.{data_flag_F, data_flag_S, flag_of_byte, rader_dlen}
use psuart.Rader.Recv.Answer.{last, IsGathering}
use psuart.Rader.Command.Accept.{awaiting}
use psuart.Rader.Command.Session.{awaiting-IsGathering}
use psuart.Service.{Service}
use psuart.Service.Turn.{on_uart_bytes, read_then}
use psuart.Service.Turn.Stages.{Fits}
use psuart.Service.Turn.Radar.{
  idle_with, next_command, uart_bytes_idle, uart_bytes_partial, uart_bytes_complete,
  uart_bytes_last,
}
use psuart.Service.Bridge.{Bridge, gather, received, radar_bytes, got}
use psuart.Service.Bridge.Relation.{Matches, flag_of, Implements, Refines}
use psuart.Service.Bridge.Stages.{with_radar-Implements}

module _ (uart udp : ℕ) where
  next-Matches :
      (fifo : RingBuffer) {q : List ℕ}
      → Represents last q fifo
      → Matches (some (data_flag_F, [])) (awaiting (idle_with fifo) next_command)
  unfolding flag_of_byte rader_dlen
  next-Matches fifo holds =
      (refl, awaiting-IsGathering (idle_with fifo) next_command holds (omega arith))

  module _ (signed : Bool) (tcp : ℕ) (bytes : List ℕ) (there : is_open tcp ≡ true)
      (some_bytes : 0 < length bytes) (small : length bytes ≤ 4096) (b : Bridge) (st : Service)
      (i : Implements uart udp b st) (up : st.tcp_connected ≡ 1) where
    gather_flag-Refines :
        (q : List ℕ)
        → IsGathering st.rader q
        → Refines uart udp
            (on_uart_bytes signed uart tcp bytes st)
            (gather uart tcp bytes st.rader.cmd_flag q b)
    gather_flag-Refines q g = elim (Bool-cases (leb st.rader.dlen (length (q ++ bytes)))) [
      | inr cut ↦
          let (fifo', e, g') =
            uart_bytes_partial signed uart tcp st there up bytes some_bytes q g
              (ground (arith, cut, length-append q bytes)) in
          rw (← g.awaited, cut)
            (
              _,
              e,
              with_radar-Implements uart udp b st (some (st.rader.cmd_flag, q ++ bytes)) _ i
                  (refl, g'),
            )
      | inl enough ↦
          let whole : st.rader.dlen ≤ length q + length bytes =
            ground (arith, enough, length-append q bytes) in
          elim (Bool-cases (st.rader.cmd_flag == data_flag_S)) [
            | inl last_one ↦
                let (fifo', e, (left, r)) =
                  uart_bytes_last signed uart tcp st there up bytes some_bytes q g small whole
                    last_one in
                rw (← g.awaited, enough, last_one)
                  (
                    _,
                    e,
                    with_radar-Implements uart udp b st (some (data_flag_F, [])) _ i
                        (next-Matches fifo' r),
                  )
            | inr other ↦
                let (fifo', e, (left, r)) =
                  uart_bytes_complete signed uart tcp st there up bytes some_bytes q g small whole
                    other in
                rw (← g.awaited, enough, other)
                  (_, e, with_radar-Implements uart udp b st none _ i (refl, (left, r)))
          ]
    ]

    -- whatever is awaited
    received-Refines :
        (w : Option (ℕ × List ℕ))
        → Matches w st.rader
        → Refines uart udp (on_uart_bytes signed uart tcp bytes st) (received w uart tcp bytes b)
    received-Refines none (idle, fifo) =
        (st, uart_bytes_idle signed uart tcp st there up bytes some_bytes idle, i)
    received-Refines (some w) (flag, g) =
        subst
          (λ flag.
            Refines uart udp (on_uart_bytes signed uart tcp bytes st)
              (gather uart tcp bytes flag w.1 b))
          flag (gather_flag-Refines w.1 g)

  -- Bytes that come to nothing.
  lost :
      (signed : Bool) (tcp : ℕ) (bytes : List ℕ) (st : Service)
      → ltb 0 (length bytes) ≡ false
      → on_uart_bytes signed uart tcp bytes st ≡ some (st, [])
  unfolding on_uart_bytes
  lost signed tcp bytes st nothing = rw nothing

  lost_down :
      (signed : Bool) (tcp : ℕ) (bytes : List ℕ) (st : Service)
      → st.tcp_connected ≡ 0
      → on_uart_bytes signed uart tcp bytes st ≡ some (st, [])
  unfolding on_uart_bytes
  lost_down signed tcp bytes st down = ground (arith, down)

  up_or_down :
      (signed : Bool) (tcp : ℕ) (bytes : List ℕ) (b : Bridge) (st : Service)
      → is_open tcp ≡ true
      → 0 < length bytes
      → length bytes ≤ 4096
      → Implements uart udp b st
      → (up : Bool) → st.tcp_connected ≡ flag_of up
      → Refines uart udp
          (on_uart_bytes signed uart tcp bytes st)
          (if up then received b.awaited uart tcp bytes b else (b, []))
  up_or_down signed tcp bytes b st there some_bytes small i true up =
      received-Refines signed tcp bytes there some_bytes small b st i up b.awaited i.radar
  up_or_down signed tcp bytes b st there some_bytes small i false down =
      (st, lost_down signed tcp bytes st down, i)

  pub on_uart_bytes-Refines :
      (signed : Bool) (tcp : ℕ) (bytes : List ℕ) (b : Bridge) (st : Service)
      → is_open tcp ≡ true
      → length bytes ≤ 4096
      → Implements uart udp b st
      → Refines uart udp (on_uart_bytes signed uart tcp bytes st) (radar_bytes uart tcp bytes b)
  on_uart_bytes-Refines signed tcp bytes b st there small i =
      elim (Bool-cases (ltb 0 (length bytes))) [
        | inr nothing ↦ rw nothing (st, lost signed tcp bytes st nothing, i)
        | inl some_bytes ↦ rw some_bytes (
            up_or_down signed tcp bytes b st there (ltb→lt 0 (length bytes) some_bytes) small i b.up
              i.same_up)
      ]

  -- a read that may have failed
  pub uart_stage-Refines :
      (signed : Bool) (tcp : ℕ) (read : Option (List ℕ)) (b : Bridge) (st : Service)
      → is_open tcp ≡ true
      → Fits read
      → Implements uart udp b st
      → Refines uart udp
          (read_then read (on_uart_bytes signed uart tcp) st)
          (radar_bytes uart tcp (got read) b)
  uart_stage-Refines signed tcp none b st there fits i = (st, refl, i)
  uart_stage-Refines signed tcp (some bytes) b st there fits i =
      on_uart_bytes-Refines signed tcp bytes b st there fits i
