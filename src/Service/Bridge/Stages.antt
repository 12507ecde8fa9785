-- ===== src/Service/Bridge/Stages.antt =====
-- Each stage of a turn does what the bridge does.
use psuart.Prelude.{
  ℕ, ◌<◌, ◌≡◌, refl, ap, ◌∙◌, arith, inl, inr, List, [], ◌∷◌, Option, some, none, true, false, ◌==◌,
  ==_iff, Bool-cases,
}
use psuart.Utils.Serial.{is_open}
use psuart.RingBuffer.In.{Represents}
use psuart.RingBuffer.Out.{reset_lem}
use psuart.Rader.State.{Rader, set_rader_dlen, rader_dlen}
use psuart.Rader.Recv.Answer.{last}
use psuart.Rader.Command.Accept.{command_flag, awaiting}
use psuart.Rader.Command.Session.{awaiting-IsGathering}
use psuart.Service.{Service, Effect, closed}
use psuart.Service.Socket.{tcp_socket_status, close_tcp_socket}
use psuart.Service.Turn.{has, on_connect, when_set}
use psuart.Service.Turn.Ready.{when_set_in, when_set_out}
use psuart.Service.Turn.Radar.{with_radar}
use psuart.Service.Bridge.{Bridge, Out, connected, expecting, when}
use psuart.Service.Bridge.Relation.{Matches, Implements, Refines}

module _ (uart udp : ℕ) where
  -- A stage that is gone through if its descriptor is ready.
  pub when_set-Refines :
      (fd : ℕ) (fds : List ℕ) (stage : Service → Option (Service × List Effect)) (f : Bridge → Out)
      (b : Bridge) (st : Service)
      → fd < 1024
      → Implements uart udp b st
      → Refines uart udp (stage st) (f b)
      → Refines uart udp (when_set fd fds stage st) (when (has fd fds) f b)
  when_set-Refines fd fds stage f b st fits i (st', e, i') = elim (Bool-cases (has fd fds)) [
    | inl there ↦ rw there (st', when_set_in stage st fd fds fits there ∙ e, i')
    | inr apart ↦ rw apart (st, when_set_out stage st fd fds fits apart, i)
  ]

  -- a fifo, whatever is awaited
  pub some_fifo :
      (w : Option (ℕ × List ℕ)) (r : Rader) → Matches w r → (q : List ℕ) × Represents last q r.fifo
  some_fifo none r m = m.1
  some_fifo (some w) r m = (w.1, m.1.holds)

  shut_off :
      (b : Bridge) (st : Service)
      → Implements uart udp b st
      → Refines uart udp
          (some (record st { tcp_fd = 0; tcp_connected = 0 }, closed st.tcp_fd ∷ []))
          (record b { tcp = 0; up = false }, closed b.tcp ∷ [])
  shut_off b st i =
      let st' : Service = record st { tcp_fd = 0; tcp_connected = 0 } in
      (
        st',
        ap (λ (fd : ℕ). some (st', closed fd ∷ [])) i.same_tcp,
        record {
          same_uart = i.same_uart;
          same_udp = i.same_udp;
          same_tcp = refl;
          same_up = refl;
          tcp_fits = omega arith;
          radar = i.radar;
        },
      )

  pub on_connect-Refines :
      (err : Option ℕ) (b : Bridge) (st : Service)
      → is_open b.tcp ≡ true
      → Implements uart udp b st
      → Refines uart udp (some (on_connect err st)) (connected err b)
  unfolding on_connect tcp_socket_status close_tcp_socket set_rader_dlen
  on_connect-Refines none b st there i =
      let opened : is_open st.tcp_fd ≡ true = rw i.same_tcp there in rw opened (shut_off b st i)
  on_connect-Refines (some err) b st there i =
      let opened : is_open st.tcp_fd ≡ true = rw i.same_tcp there in
      elim (Bool-cases (err == 0)) [
        | inl done ↦
            rw (opened, done)
              (
                _,
                refl,
                record {
                  same_uart = i.same_uart;
                  same_udp = i.same_udp;
                  same_tcp = i.same_tcp;
                  same_up = refl;
                  tcp_fits = i.tcp_fits;
                  radar = (refl, some_fifo b.awaited st.rader i.radar);
                },
              )
        | inr failed ↦ rw (opened, failed) (shut_off b st i)
      ]

  -- The radar's state is another one.
  pub with_radar-Implements :
      (b : Bridge) (st : Service) (w : Option (ℕ × List ℕ)) (r : Rader)
      → Implements uart udp b st
      → Matches w r
      → Implements uart udp (record b { awaited = w }) (with_radar st r)
  with_radar-Implements b st w r i m = record {
    same_uart = i.same_uart;
    same_udp = i.same_udp;
    same_tcp = i.same_tcp;
    same_up = i.same_up;
    tcp_fits = i.tcp_fits;
    radar = m;
  }

  -- A command that has been sent to the radar: its answer is awaited, if it has one.
  pub awaiting-Matches :
      (r : Rader) (cmd : List ℕ) {q : List ℕ}
      → Represents last q r.fifo
      → Matches (expecting (command_flag cmd)) (awaiting r cmd)
  awaiting-Matches r cmd holds = elim (Bool-cases (rader_dlen (command_flag cmd) == 0)) [
    | inl nothing ↦ rw nothing ((==_iff _ 0).0 nothing, ([], reset_lem holds))
    | inr known ↦ rw known (refl, awaiting-IsGathering r cmd holds (ground (arith, known)))
  ]
