-- ===== src/Service/Turn/Radar.antt =====
-- What the bytes of one read from the radar do while the connection is there.
use psuart.Prelude.{
  ℕ, ◌+◌, ◌-◌, ◌≤◌, ◌<◌, ◌≡◌, refl, subst, List, [], ◌∷◌, ◌++◌, map, some, Bool, true, false,
  lt→ltb, ◌==◌, length, take, take-append, load,
}
use psuart.Utils.Serial.{is_open}
use psuart.RingBuffer.{RingBuffer}
use psuart.RingBuffer.In.{Represents}
use psuart.Rader.State.{Rader, Write, zeroed, data_flag_S, rader_flag}
use psuart.Rader.Packet.Frame.{frame}
use psuart.Rader.Recv.{rader_recv}
use psuart.Rader.Recv.Answer.{
  last, IsGathering, rader_recv_idle, rader_recv_partial, rader_recv_complete,
}
use psuart.Rader.Command.{accept_command}
use psuart.Rader.Command.Accept.{awaiting}
use psuart.Rader.Stdin.{rader_cmd_from_stdin}
use psuart.Service.{Service, wrote}
use psuart.Service.Turn.{buffer, on_uart_bytes}
use psuart.Service.Turn.Stages.{length-buffer}

-- a state with another radar
abbrev pub with_radar : Service → Rader → Service
with_radar st rader = record st { rader = rader }

-- the radar behind a whole answer
abbrev pub idle_with : RingBuffer → Rader
idle_with fifo = record { fifo = fifo; cmd_flag = 0; dlen = 0 }

-- the command that is sent behind the answer to `S`
abbrev pub next_command : List ℕ
next_command = b'F' ∷ []

pub taken-buffer : (bytes : List ℕ) → take (length bytes) (buffer bytes) ≡ bytes
taken-buffer bytes = take-append bytes (zeroed (4096 - length bytes)) (length bytes) refl

stdin_next :
    (uart : ℕ) (fifo : RingBuffer)
    → rader_cmd_from_stdin uart (idle_with fifo) (b'F' ∷ 0 ∷ []) 1
      ≡ some
          (awaiting (idle_with fifo) next_command, record { fd = uart; bytes = next_command } ∷ [])
unfolding rader_cmd_from_stdin accept_command rader_flag load
stdin_next uart fifo = refl

module _ (signed : Bool) (uart tcp : ℕ) (st : Service) (there : is_open tcp ≡ true)
    (up : st.tcp_connected ≡ 1) (chunk : List ℕ) (some_bytes : 0 < length chunk) where
  -- the bytes of a read, given to `rader_recv`
  uart_bytes_received :
      {r : Rader} {sent : List Write} {flag : ℕ}
      → rader_recv signed tcp st.rader (buffer chunk) (length chunk) ≡ some (r, sent, flag)
      → (flag == data_flag_S) ≡ false
      → on_uart_bytes signed uart tcp chunk st ≡ some (with_radar st r, map wrote sent)
  unfolding on_uart_bytes
  uart_bytes_received e other = rw (lt→ltb 0 (length chunk) some_bytes, there, up, e, other)

  pub uart_bytes_idle : st.rader.dlen ≡ 0 → on_uart_bytes signed uart tcp chunk st ≡ some (st, [])
  uart_bytes_idle idle =
      uart_bytes_received (rader_recv_idle signed tcp st.rader (buffer chunk) (length chunk) idle)
        refl

  module _ (q : List ℕ) (g : IsGathering st.rader q) where
    pub uart_bytes_partial :
        length q + length chunk < st.rader.dlen
        → (fifo' : RingBuffer) × (on_uart_bytes signed uart tcp chunk st
            ≡ some (with_radar st (record st.rader { fifo = fifo' }), []))
          × IsGathering (record st.rader { fifo = fifo' }) (q ++ chunk)
    uart_bytes_partial more =
        let (fifo', e, g') =
          rader_recv_partial signed tcp st.rader q (buffer chunk) (length chunk) g
            (length-buffer chunk) more in
        (
          fifo',
          uart_bytes_received e refl,
          subst (λ read. IsGathering (record st.rader { fifo = fifo' }) (q ++ read))
              (taken-buffer chunk) g',
        )

    module _ (small : length chunk ≤ 4096) (whole : st.rader.dlen ≤ length q + length chunk) where
      -- the packet that is sent
      abbrev pub answer_packet : Write
      answer_packet = record {
        fd = tcp;
        bytes = frame st.rader.cmd_flag (take st.rader.dlen (q ++ chunk));
      }

      pub uart_bytes_complete :
          (st.rader.cmd_flag == data_flag_S) ≡ false
          → (fifo' : RingBuffer) × (on_uart_bytes signed uart tcp chunk st
              ≡ some (with_radar st (idle_with fifo'), wrote answer_packet ∷ []))
            × ((left : List ℕ) × Represents last left fifo')
      uart_bytes_complete other =
          let (fifo', e, r) =
            rader_recv_complete signed tcp st.rader q (buffer chunk) (length chunk) g
              (length-buffer chunk) small whole in
          (
            fifo',
            subst
                (λ (read : List ℕ).
                  on_uart_bytes signed uart tcp chunk st
                  ≡ some (
                    with_radar st (idle_with fifo'),
                    wrote (record {
                      fd = tcp;
                      bytes = frame st.rader.cmd_flag (take st.rader.dlen (q ++ read));
                    })
                        ∷ [],
                  ))
                (taken-buffer chunk) (uart_bytes_received e (rw other)),
            (_, r),
          )

      pub uart_bytes_last :
          (st.rader.cmd_flag == data_flag_S) ≡ true
          → (fifo' : RingBuffer) × (on_uart_bytes signed uart tcp chunk st
              ≡ some (
                with_radar st (awaiting (idle_with fifo') next_command),
                wrote answer_packet ∷ wrote (record { fd = uart; bytes = next_command }) ∷ [],
              ))
            × ((left : List ℕ) × Represents last left fifo')
      unfolding on_uart_bytes
      uart_bytes_last last_one =
          let (fifo', e, r) =
            rader_recv_complete signed tcp st.rader q (buffer chunk) (length chunk) g
              (length-buffer chunk) small whole in
          (
            fifo',
            rw (
              lt→ltb 0 (length chunk) some_bytes,
              there,
              up,
              e,
              last_one,
              stdin_next uart fifo',
              taken-buffer chunk,
            ),
            (_, r),
          )
