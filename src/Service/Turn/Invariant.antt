-- ===== src/Service/Turn/Invariant.antt =====
-- What every turn of the service keeps, and every run of turns.
use psuart.Prelude.{
  ℕ, ◌^◌, ◌<◌, ◌≡◌, arith, List, [], Option, some, none, Bool, true, false, not, ◌&&◌, inl, inr,
  Holds, Holds-elim, Holds-if, Holds->>=, Holds->>=_after, if◌then◌else◌, Bool-cases,
}
use psuart.Utils.Serial.{is_open}
use psuart.Rader.Sound.{IsSound}
use psuart.Service.{Service, Effect}
use psuart.Service.Socket.{
  open_uart, close_uart, start_tcp_socket, close_tcp_socket, start_udp_socket, close_udp_socket,
}
use psuart.Service.Socket.Laws.{
  open_uart-rader, close_uart-rader, start_tcp_socket-rader, close_tcp_socket-rader,
  start_udp_socket-rader, close_udp_socket-rader,
}
use psuart.Service.Turn.{
  Answers, fd_isset, requested, on_nothing, on_connect, on_uart_bytes, on_tcp_bytes, on_udp_bytes,
  note_sender, on_stdin, when_set, read_then, dispatch, select_and_dispatch,
  wait_message_and_handle,
}
use psuart.Service.Turn.Stages.{
  Fits, KeepsSound, same-IsSound, when_set-KeepsSound, on_connect-IsSound, on_uart_bytes-KeepsSound,
  on_tcp_bytes-KeepsSound, on_udp_bytes-KeepsSound, on_stdin-KeepsSound, note_sender-rader,
}

-- what is read in a turn fits the array
abbrev pub IsBounded : Answers → Type 0
IsBounded a = Fits a.uart_read × Fits a.tcp_read × Fits a.udp_read

-- the radar's state behind a turn, and the turn's result, which is not negative
abbrev pub KeepsServing : Service × List Effect × ℕ → Type 0
KeepsServing out = IsSound out.0.rader × out.2 < 2 ^ 31

-- a change that is made if a descriptor is in the set
abbrev chosen : Bool → Service × List Effect → Service → Service × List Effect
chosen test changed st = if test then changed else (st, [])

chosen-IsSound :
    (test : Bool) (changed : Service × List Effect) (st : Service)
    → changed.0.rader ≡ st.rader
    → IsSound st.rader
    → IsSound (chosen test changed st).0.rader
chosen-IsSound true changed st e sound = same-IsSound e sound
chosen-IsSound false changed st e sound = sound

on_nothing-KeepsSound :
    (uart tcp udp : ℕ) (rfds : List ℕ) (st : Service)
    → IsSound st.rader
    → Holds KeepsSound (on_nothing uart tcp udp rfds st)
unfolding on_nothing
on_nothing-KeepsSound uart tcp udp rfds st sound =
    Holds->>= KeepsSound (fd_isset tcp rfds) _ (λ tcp_there.
      let (st1, c1) = chosen tcp_there (close_tcp_socket st) st in
      let sound1 =
        chosen-IsSound tcp_there (close_tcp_socket st) st (close_tcp_socket-rader st) sound in
      Holds->>= KeepsSound (fd_isset uart rfds) _ (λ uart_there.
        let (st2, c2) = chosen uart_there (close_uart st1) st1 in
        let sound2 = chosen-IsSound uart_there (close_uart st1) st1 (close_uart-rader st1) sound1 in
        Holds->>= KeepsSound (fd_isset udp rfds) _ (λ udp_there.
          chosen-IsSound udp_there (close_udp_socket st2) st2 (close_udp_socket-rader st2) sound2)))

read_then-KeepsSound :
    (got : Option (List ℕ)) (stage : List ℕ → Service → Option (Service × List Effect))
    (st : Service)
    → Fits got
    → IsSound st.rader
    → ((bytes : List ℕ) → Fits (some bytes) → Holds KeepsSound (stage bytes st))
    → Holds KeepsSound (read_then got stage st)
read_then-KeepsSound none stage st fits sound kept = sound
read_then-KeepsSound (some bytes) stage st fits sound kept = kept bytes fits

dispatch-KeepsSound :
    (signed : Bool) (a : Answers) (uart tcp udp : ℕ) (rfds wfds : List ℕ) (st : Service)
    → IsBounded a
    → IsSound st.rader
    → Holds KeepsSound (dispatch signed a uart tcp udp rfds wfds st)
unfolding dispatch
dispatch-KeepsSound signed a uart tcp udp rfds wfds st fits sound =
    Holds->>=_after KeepsSound KeepsSound
      (when_set tcp wfds (λ s. some (on_connect a.tcp_error s)) st) _
      (when_set-KeepsSound tcp wfds _ st sound (on_connect-IsSound a.tcp_error st sound))
      (λ o1 sound1.
        Holds->>=_after KeepsSound KeepsSound
          (when_set uart rfds (read_then a.uart_read (on_uart_bytes signed uart tcp)) o1.0) _
          (when_set-KeepsSound uart rfds _ o1.0 sound1 (
            read_then-KeepsSound a.uart_read (on_uart_bytes signed uart tcp) o1.0 fits.0 sound1
              (λ bytes small. on_uart_bytes-KeepsSound signed uart tcp bytes o1.0 small sound1)))
          (λ o2 sound2.
            Holds->>=_after KeepsSound KeepsSound
              (when_set tcp rfds (read_then a.tcp_read (on_tcp_bytes uart)) o2.0) _
              (when_set-KeepsSound tcp rfds _ o2.0 sound2 (
                read_then-KeepsSound a.tcp_read (on_tcp_bytes uart) o2.0 fits.1 sound2
                  (λ bytes small. on_tcp_bytes-KeepsSound uart bytes o2.0 sound2)))
              (λ o3 sound3.
                let noted = note_sender a.udp_read a.udp_from o3.0 in
                let still = same-IsSound (note_sender-rader a.udp_read a.udp_from o3.0) sound3 in
                Holds->>=_after KeepsSound KeepsSound
                  (when_set udp rfds
                    (λ s.
                      read_then a.udp_read (on_udp_bytes uart udp)
                        (note_sender a.udp_read a.udp_from s))
                    o3.0)
                  _
                  (when_set-KeepsSound udp rfds _ o3.0 sound3 (
                    read_then-KeepsSound a.udp_read (on_udp_bytes uart udp) noted fits.2 still
                      (λ bytes small. on_udp_bytes-KeepsSound uart udp bytes noted still)))
                  (λ o4 sound4.
                    Holds->>=_after KeepsSound KeepsSound
                      (when_set 0 rfds (on_stdin uart a.typed) o4.0) _
                      (when_set-KeepsSound 0 rfds _ o4.0 sound4
                        (on_stdin-KeepsSound uart a.typed o4.0 sound4))
                      (λ o5 sound5. sound5)))))

is_open-lt : (n : ℕ) → is_open n ≡ true → n < 2 ^ 31
is_open-lt n h = ground arith

select_and_dispatch-KeepsServing :
    (signed : Bool) (a : Answers) (uart tcp udp : ℕ) (st : Service)
    → IsBounded a
    → IsSound st.rader
    → Holds KeepsServing (select_and_dispatch signed a uart tcp udp st)
unfolding select_and_dispatch
select_and_dispatch-KeepsServing signed a uart tcp udp st fits sound =
    Holds->>= KeepsServing (requested st uart tcp udp) _ (λ (rfds, wfds).
      let (ret, readable, writable) = a.select rfds wfds in
      elim (Bool-cases (is_open ret)) [
        | inl some_ready ↦ rw some_ready (
            Holds->>=_after KeepsSound KeepsServing
              (dispatch signed a uart tcp udp readable writable st) _
              (dispatch-KeepsSound signed a uart tcp udp readable writable st fits sound)
              (λ out kept. (kept, is_open-lt ret some_ready)))
        | inr nothing_ready ↦ rw nothing_ready (
            Holds->>=_after KeepsSound KeepsServing (on_nothing uart tcp udp readable st) _
              (on_nothing-KeepsSound uart tcp udp readable st sound)
              (λ out kept. (kept, omega arith)))
      ])

pub wait-KeepsServing :
    (signed : Bool) (a : Answers) (st : Service)
    → IsBounded a
    → IsSound st.rader
    → Holds KeepsServing (wait_message_and_handle signed a st)
unfolding wait_message_and_handle
wait-KeepsServing signed a st fits sound =
    let (st1, c1, uart) = open_uart a.tty st in
    let (st2, c2, tcp) = start_tcp_socket a.tcp_made a.tcp_connects st1 in
    let (st3, c3, udp) = start_udp_socket a.udp_made a.udp_binds st2 in
    let sound1 = same-IsSound (open_uart-rader a.tty st) sound in
    let sound2 = same-IsSound (start_tcp_socket-rader a.tcp_made a.tcp_connects st1) sound1 in
    let sound3 = same-IsSound (start_udp_socket-rader a.udp_made a.udp_binds st2) sound2 in
    Holds-if KeepsServing (not (is_open uart) && not (is_open udp)) _ _ (sound3, omega arith)
      (Holds->>=_after KeepsServing KeepsServing (select_and_dispatch signed a uart tcp udp st3) _
        (select_and_dispatch-KeepsServing signed a uart tcp udp st3 fits sound3) (λ out kept. kept))

-- However the system answers within its documented bounds, a turn that is defined keeps the state of
-- the radar sound, so that the fifo never overflows, and its result is not negative.
pub wait_message_and_handle_lem :
    (signed : Bool) (a : Answers) (st : Service) {st' : Service} {calls : List Effect} {ret : ℕ}
    → IsBounded a
    → IsSound st.rader
    → wait_message_and_handle signed a st ≡ some (st', calls, ret)
    → IsSound st'.rader × ret < 2 ^ 31
wait_message_and_handle_lem signed a st fits sound e =
    Holds-elim KeepsServing (wait-KeepsServing signed a st fits sound) e
