-- ===== src/Service/Turn/Faults.antt =====
-- Where a turn of the service is undefined, and where it misses that a connection has ended.
use psuart.Prelude.{
  ℕ, ◌≤◌, ◌≡◌, refl, ap, arith, List, Option, none, none->>=, Bool, true, false, not, ◌&&◌, ◌⊎◌,
  inl, inr, ltb, Bool-cases,
}
use psuart.Utils.Serial.{is_open}
use psuart.Service.{Service, Effect}
use psuart.Service.Socket.{open_uart, start_tcp_socket, start_udp_socket}
use psuart.Service.Turn.{
  Answers, fd_setsize, fd_isset, when_set, requested, on_nothing, dispatch, select_and_dispatch,
  wait_message_and_handle,
}

fd_isset-none : (fd : ℕ) (fds : List ℕ) → fd_setsize ≤ fd → fd_isset fd fds ≡ none
unfolding fd_isset
fd_isset-none fd fds h = let far : ltb fd 1024 ≡ false = ground (arith, h) in rw far

when_set-none :
    (fd : ℕ) (fds : List ℕ) (stage : Service → Option (Service × List Effect)) (st : Service)
    → fd_setsize ≤ fd
    → when_set fd fds stage st ≡ none
unfolding when_set
when_set-none fd fds stage st h = rw (fd_isset-none fd fds h)

on_nothing-none :
    (uart tcp udp : ℕ) (rfds : List ℕ) (st : Service)
    → (fd_setsize ≤ tcp) ⊎ (fd_setsize ≤ uart)
    → on_nothing uart tcp udp rfds st ≡ none
unfolding on_nothing
on_nothing-none uart tcp udp rfds st (inl h) = rw (fd_isset-none tcp rfds h)
on_nothing-none uart tcp udp rfds st (inr h) =
    none->>= (fd_isset tcp rfds) _ (λ there. rw (fd_isset-none uart rfds h))

dispatch-none :
    (signed : Bool) (a : Answers) (uart tcp udp : ℕ) (rfds wfds : List ℕ) (st : Service)
    → (fd_setsize ≤ tcp) ⊎ (fd_setsize ≤ uart)
    → dispatch signed a uart tcp udp rfds wfds st ≡ none
unfolding dispatch
dispatch-none signed a uart tcp udp rfds wfds st (inl h) = rw (when_set-none tcp wfds _ st h)
dispatch-none signed a uart tcp udp rfds wfds st (inr h) =
    none->>= (when_set tcp wfds _ st) _ (λ o1. rw (when_set-none uart rfds _ o1.0 h))

select_and_dispatch-none :
    (signed : Bool) (a : Answers) (uart tcp udp : ℕ) (st : Service)
    → (fd_setsize ≤ tcp) ⊎ (fd_setsize ≤ uart)
    → select_and_dispatch signed a uart tcp udp st ≡ none
unfolding select_and_dispatch
select_and_dispatch-none signed a uart tcp udp st h =
    none->>= (requested st uart tcp udp) _ (λ (rfds, wfds).
      let (ret, readable, writable) = a.select rfds wfds in
      elim (Bool-cases (is_open ret)) [
        | inl e ↦ rw (e, dispatch-none signed a uart tcp udp readable writable st h)
        | inr e ↦ rw (e, on_nothing-none uart tcp udp readable st h)
      ])

and_not : (b c : Bool) → c ≡ true → (not b && not c) ≡ false
and_not true c h = refl
and_not false c h = ap not h

-- A turn with a datagram socket in which the connection cannot be started, or the port cannot be
-- opened, is undefined whatever the system answers then: FD_ISSET is called on a negative number.
pub wait_message_and_handle-none :
    (signed : Bool) (a : Answers) (st : Service)
    → (let (st1, c1, uart) = open_uart a.tty st in
        let (st2, c2, tcp) = start_tcp_socket a.tcp_made a.tcp_connects st1 in
        let (st3, c3, udp) = start_udp_socket a.udp_made a.udp_binds st2 in
        (is_open udp ≡ true) × ((fd_setsize ≤ tcp) ⊎ (fd_setsize ≤ uart)))
    → wait_message_and_handle signed a st ≡ none
unfolding wait_message_and_handle
wait_message_and_handle-none signed a st (there, h) =
    let (st1, c1, uart) = open_uart a.tty st in
    let (st2, c2, tcp) = start_tcp_socket a.tcp_made a.tcp_connects st1 in
    let (st3, c3, udp) = start_udp_socket a.udp_made a.udp_binds st2 in
    rw (
      and_not (is_open uart) (is_open udp) there,
      select_and_dispatch-none signed a uart tcp udp st3 h,
    )
