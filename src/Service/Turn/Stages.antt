-- ===== src/Service/Turn/Stages.antt =====
-- What each stage of a turn does to the state of the radar.
use psuart.Prelude.{
  ℕ, ◌-◌, ◌≤◌, ◌≡◌, refl, arith, List, [], ◌∷◌, Option, some, none, Bool, true, false, not, ◌&&◌,
  inl, inr, Holds, Holds-intro, Holds-if, Holds->>=, Holds->>=_after, length, length-append,
  if◌then◌else◌, ltb, ◌==◌, Bool-cases, subst, sym,
}
use psuart.Utils.Serial.{is_open}
use psuart.Rader.State.{Rader, zeroed, data_flag_S}
use psuart.Rader.Recv.{rader_recv}
use psuart.Rader.Command.{rader_cmd}
use psuart.Rader.Stdin.{rader_cmd_from_stdin}
use psuart.Rader.Sound.{
  IsSound, LeavesSound, LeavesSoundFlag, rader_cmd-IsSound, rader_cmd_from_stdin-IsSound,
  set_rader_dlen-IsSound, rader_recv-IsSound,
}
use psuart.Service.{Service, Effect}
use psuart.Service.Socket.{close_tcp_socket, tcp_socket_status}
use psuart.Service.Socket.Laws.{close_tcp_socket-rader, tcp_socket_status-rader}
use psuart.Service.Turn.{
  buffer, fd_isset, on_connect, on_uart_bytes, on_tcp_bytes, on_udp_bytes, note_sender, on_stdin,
  when_set,
}

-- what is read fits the array that it is read into
abbrev pub Fits : Option (List ℕ) → Type 0
Fits none = Unit {0}
Fits (some bytes) = length bytes ≤ 4096

-- the radar's state behind a stage of a turn
abbrev pub KeepsSound : Service × List Effect → Type 0
KeepsSound out = IsSound out.0.rader

-- a radar that is the same is as sound
pub same-IsSound : {r r' : Rader} → r ≡ r' → IsSound r' → IsSound r
same-IsSound e sound = subst IsSound (sym e) sound

pub when_set-KeepsSound :
    (fd : ℕ) (fds : List ℕ) (stage : Service → Option (Service × List Effect)) (st : Service)
    → IsSound st.rader
    → Holds KeepsSound (stage st)
    → Holds KeepsSound (when_set fd fds stage st)
unfolding when_set
when_set-KeepsSound fd fds stage st sound kept =
    Holds->>= KeepsSound (fd_isset fd fds) _ (λ there. Holds-if KeepsSound there _ _ kept sound)

pub on_connect-IsSound :
    (err : Option ℕ) (st : Service) → IsSound st.rader → IsSound (on_connect err st).0.rader
unfolding on_connect
on_connect-IsSound err st sound =
    let kept = same-IsSound (tcp_socket_status-rader err st) sound in
    elim (Bool-cases ((tcp_socket_status err st).2 == 0)) [
      | inl done ↦ rw done (set_rader_dlen-IsSound (tcp_socket_status err st).0.rader kept)
      | inr failed ↦ rw failed kept
    ]

pub length-buffer : (bytes : List ℕ) → length bytes ≤ length (buffer bytes)
length-buffer bytes = omega (arith, length-append bytes (zeroed (4096 - length bytes)))

pub on_uart_bytes-KeepsSound :
    (signed : Bool) (uart tcp : ℕ) (bytes : List ℕ) (st : Service)
    → length bytes ≤ 4096
    → IsSound st.rader
    → Holds KeepsSound (on_uart_bytes signed uart tcp bytes st)
unfolding on_uart_bytes
on_uart_bytes-KeepsSound signed uart tcp bytes st small sound =
    let (out, e, kept) =
      rader_recv-IsSound signed tcp st.rader (buffer bytes) (length bytes) sound
        (length-buffer bytes) small in
    Holds-if KeepsSound (ltb 0 (length bytes) && (is_open tcp && not (st.tcp_connected == 0))) _ _
      (Holds->>=_after LeavesSoundFlag KeepsSound
        (rader_recv signed tcp st.rader (buffer bytes) (length bytes)) _
        (Holds-intro LeavesSoundFlag e kept)
        (λ got left.
          Holds-if KeepsSound (got.2 == data_flag_S) _ _
            (Holds->>=_after LeavesSound KeepsSound
              (rader_cmd_from_stdin uart got.0 (b'F' ∷ 0 ∷ []) 1) _
              (rader_cmd_from_stdin-IsSound uart got.0 (b'F' ∷ 0 ∷ []) 1 left) (λ next last. last))
            left))
      sound

pub on_tcp_bytes-KeepsSound :
    (uart : ℕ) (bytes : List ℕ) (st : Service)
    → IsSound st.rader
    → Holds KeepsSound (on_tcp_bytes uart bytes st)
unfolding on_tcp_bytes
on_tcp_bytes-KeepsSound uart bytes st sound =
    Holds-if KeepsSound (ltb 0 (length bytes) && is_open uart) _ _
      (Holds->>=_after LeavesSoundFlag KeepsSound
        (rader_cmd uart st.rader (buffer bytes) (length bytes)) _
        (rader_cmd-IsSound uart st.rader (buffer bytes) (length bytes) sound) (λ out left. left))
      sound

pub on_udp_bytes-KeepsSound :
    (uart udp : ℕ) (bytes : List ℕ) (st : Service)
    → IsSound st.rader
    → Holds KeepsSound (on_udp_bytes uart udp bytes st)
unfolding on_udp_bytes
on_udp_bytes-KeepsSound uart udp bytes st sound =
    Holds-if KeepsSound (ltb 0 (length bytes) && is_open udp) _ _
      (Holds->>=_after LeavesSoundFlag KeepsSound
        (rader_cmd uart st.rader (buffer bytes) (length bytes)) _
        (rader_cmd-IsSound uart st.rader (buffer bytes) (length bytes) sound)
        (λ out left. maybe_closed (record st { rader = out.0 }) (out.2 == 1) left))
      sound
  where
    maybe_closed :
        (st' : Service) (close : Bool)
        → IsSound st'.rader
        → IsSound (if close then close_tcp_socket st' else (st', [])).0.rader
    maybe_closed st' true left = same-IsSound (close_tcp_socket-rader st') left
    maybe_closed st' false left = left

pub on_stdin-KeepsSound :
    (uart : ℕ) (typed : List ℕ) (st : Service)
    → IsSound st.rader
    → Holds KeepsSound (on_stdin uart typed st)
unfolding on_stdin
on_stdin-KeepsSound uart typed st sound =
    Holds-if KeepsSound (ltb (length typed) 4096) _ _
      (Holds->>=_after LeavesSound KeepsSound
        (rader_cmd_from_stdin uart st.rader (buffer typed) (length typed)) _
        (rader_cmd_from_stdin-IsSound uart st.rader (buffer typed) (length typed) sound)
        (λ out left. left))
      tt

pub note_sender-rader :
    (got : Option (List ℕ)) (from : ℕ) (st : Service) → (note_sender got from st).rader ≡ st.rader
unfolding note_sender
note_sender-rader none from st = refl
note_sender-rader (some bytes) from st = refl
