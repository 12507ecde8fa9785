-- ===== src/Service/Bridge/Commands.antt =====
-- The stages of a turn that take commands from the network do what the bridge does.
use psuart.Prelude.{
  ℕ, suc, replicate, ◌-◌, ◌≤◌, ◌≡◌, refl, sym, ap, ◌∙◌, arith, List, [], ◌∷◌, ◌++◌, map, Option,
  some, none, ◌>>=◌, Bool, true, false, ◌==◌, if◌then◌else◌, length, lt→ltb,
}
use psuart.Utils.Serial.{is_open}
use psuart.Rader.State.{Rader, Write, zeroed, zeroed_lem}
use psuart.Rader.Command.{rader_cmd}
use psuart.Rader.Command.Accept.{command_flag, awaiting, obeyed}
use psuart.Rader.Command.Decode.{carried, reaction, rader_cmd-carried}
use psuart.Rader.Command.Session.{obeyed_idle}
use psuart.Service.{Service, wrote}
use psuart.Service.Socket.{close_tcp_socket}
use psuart.Service.Socket.Laws.{cleared, closing, close_tcp_socket_lem}
use psuart.Service.Turn.{buffer, on_tcp_bytes, on_udp_bytes, note_sender, read_then}
use psuart.Service.Turn.Radar.{with_radar}
use psuart.Service.Bridge.{
  Bridge, Out, expecting, obey_while, obey_command, asks, hang_up, ◌>>◌, got,
}
use psuart.Service.Bridge.Relation.{Matches, Implements, Refines, IsPacket}
use psuart.Service.Bridge.Stages.{with_radar-Implements, awaiting-Matches}

-- Three zero bytes at least stand behind a packet in the array.
buffer_tail :
    (bytes : List ℕ)
    → length bytes ≤ 4093
    → buffer bytes ≡ bytes ++ 0 ∷ 0 ∷ 0 ∷ zeroed (4093 - length bytes)
buffer_tail bytes fits =
    let three : 4096 - length bytes ≡ suc (suc (suc (4093 - length bytes))) = omega arith in
    ap (λ behind. bytes ++ behind)
      (zeroed_lem (4096 - length bytes)
        ∙ ap (λ n. replicate n 0) three
        ∙ ap (λ behind. 0 ∷ 0 ∷ 0 ∷ behind) (sym (zeroed_lem (4093 - length bytes))))

module _ (uart : ℕ) where
  rader_cmd-buffer :
      (r : Rader) (bytes : List ℕ)
      → IsPacket (some bytes)
      → rader_cmd uart r (buffer bytes) (length bytes) ≡ some (reaction uart r (carried bytes))
  rader_cmd-buffer r bytes (are_bytes, fits) =
      ap (λ b. rader_cmd uart r b (length bytes)) (buffer_tail bytes fits)
      ∙ rader_cmd-carried uart r bytes (zeroed (4093 - length bytes)) are_bytes

  module _ (udp : ℕ) where
    -- The radar's new state, what is written, and whether the connection is to be closed.
    abbrev Obeys : Option (List ℕ) → Service → Option (Rader × List Write × ℕ) → Out → Type 0
    Obeys read st ran (b, calls) =
        (r : Rader) × (sent : List Write) × (ran ≡ some (r, sent, if asks read then 1 else 0))
        × (map wrote sent ≡ calls)
        × Implements uart udp b (with_radar st r)

    obey_while-Obeys :
        (cmd : List ℕ) (b : Bridge) (st : Service) (w : Option (ℕ × List ℕ))
        → Matches w st.rader
        → Implements uart udp b st
        → Obeys (some cmd) st (some (obeyed uart st.rader cmd)) (obey_while w uart cmd b)
    obey_while-Obeys cmd b st none (idle, (q, holds)) i = (
      awaiting st.rader cmd,
      record { fd = uart; bytes = cmd } ∷ [],
      ap some (obeyed_idle uart st.rader cmd idle),
      refl,
      with_radar-Implements uart udp b st (expecting (command_flag cmd)) _ i
          (awaiting-Matches uart udp st.rader cmd holds),
    )
    obey_while-Obeys cmd b st (some w) (flag, g) i =
        let busy : (st.rader.dlen == 0) ≡ false = ground (arith, g.partial) in
        (st.rader, [], rw busy, refl, i)

    reaction-Obeys :
        (read : Option (List ℕ)) (b : Bridge) (st : Service)
        → Implements uart udp b st
        → Obeys read st (some (reaction uart st.rader read)) (obey_command uart read b)
    reaction-Obeys none b st i = (st.rader, [], refl, refl, i)
    reaction-Obeys (some cmd) b st i = obey_while-Obeys cmd b st b.awaited i.radar i

    -- what `rader_cmd` does to a packet in the array
    rader_cmd-Obeys :
        (bytes : List ℕ) (b : Bridge) (st : Service)
        → IsPacket (some bytes)
        → Implements uart udp b st
        → Obeys
            (carried bytes)
            st
            (rader_cmd uart st.rader (buffer bytes) (length bytes))
            (obey_command uart (carried bytes) b)
    rader_cmd-Obeys bytes b st packet i =
        let (r, sent, e, calls, i') = reaction-Obeys (carried bytes) b st i in
        (r, sent, rader_cmd-buffer st.rader bytes packet ∙ e, calls, i')

    on_tcp_bytes-Refines :
        (bytes : List ℕ) (b : Bridge) (st : Service)
        → is_open uart ≡ true
        → IsPacket (some bytes)
        → Implements uart udp b st
        → Refines uart udp (on_tcp_bytes uart bytes st) (obey_command uart (carried bytes) b)
    unfolding on_tcp_bytes
    on_tcp_bytes-Refines [] b st there packet i = (st, refl, i)
    on_tcp_bytes-Refines (x ∷ bytes) b st there packet i =
        let (r, sent, e, calls, i') = rader_cmd-Obeys (x ∷ bytes) b st packet i in
        let some_bytes = lt→ltb 0 (length (x ∷ bytes)) (omega arith) in
        (with_radar st r, rw (some_bytes, there, e, ← calls), i')

    pub tcp_stage-Refines :
        (read : Option (List ℕ)) (b : Bridge) (st : Service)
        → is_open uart ≡ true
        → IsPacket read
        → Implements uart udp b st
        → Refines uart udp
            (read_then read (on_tcp_bytes uart) st)
            (obey_command uart (carried (got read)) b)
    tcp_stage-Refines none b st there packet i = (st, refl, i)
    tcp_stage-Refines (some bytes) b st there packet i =
        on_tcp_bytes-Refines bytes b st there packet i

    hang_up-Refines :
        (close : Bool) (b : Bridge) (st : Service)
        → Implements uart udp b st
        → Refines uart udp
            (some (if (if close then 1 else 0) == 1 then close_tcp_socket st else (st, [])))
            (hang_up close b)
    hang_up-Refines false b st i = (st, refl, i)
    hang_up-Refines true b st i =
        let st' : Service = record st { tcp_fd = cleared st.tcp_fd } in
        (
          st',
          ap some (close_tcp_socket_lem st) ∙ ap (λ fd. some (st', closing fd)) i.same_tcp,
          record {
            same_uart = i.same_uart;
            same_udp = i.same_udp;
            same_tcp = ap cleared i.same_tcp;
            same_up = i.same_up;
            tcp_fits = ground (arith, i.tcp_fits);
            radar = i.radar;
          },
        )

    on_udp_bytes-Refines :
        (bytes : List ℕ) (b : Bridge) (st : Service)
        → is_open udp ≡ true
        → IsPacket (some bytes)
        → Implements uart udp b st
        → Refines uart udp
            (on_udp_bytes uart udp bytes st)
            ((obey_command uart (carried bytes) >> hang_up (asks (carried bytes))) b)
    unfolding on_udp_bytes
    on_udp_bytes-Refines [] b st there packet i = (st, refl, i)
    on_udp_bytes-Refines (x ∷ bytes) b st there packet i =
        let (r, sent, e, calls, i') = rader_cmd-Obeys (x ∷ bytes) b st packet i in
        let some_bytes = lt→ltb 0 (length (x ∷ bytes)) (omega arith) in
        let (st', f, i'') =
          hang_up-Refines (asks (carried (x ∷ bytes))) (obey_command uart (carried (x ∷ bytes)) b).0
            (with_radar st r) i' in
        (
          st',
          rw (some_bytes, there, e, ← calls)
              (ap (λ out. out >>= λ (st'', more). some (st'', map wrote sent ++ more)) f),
          i'',
        )

    noted-Implements :
        (read : Option (List ℕ)) (from : ℕ) (b : Bridge) (st : Service)
        → Implements uart udp b st
        → Implements uart udp b (note_sender read from st)
    unfolding note_sender
    noted-Implements none from b st i = record {
      same_uart = i.same_uart;
      same_udp = i.same_udp;
      same_tcp = i.same_tcp;
      same_up = i.same_up;
      tcp_fits = i.tcp_fits;
      radar = i.radar;
    }
    noted-Implements (some bytes) from b st i = record {
      same_uart = i.same_uart;
      same_udp = i.same_udp;
      same_tcp = i.same_tcp;
      same_up = i.same_up;
      tcp_fits = i.tcp_fits;
      radar = i.radar;
    }

    pub udp_stage-Refines :
        (read : Option (List ℕ)) (from : ℕ) (b : Bridge) (st : Service)
        → is_open udp ≡ true
        → IsPacket read
        → Implements uart udp b st
        → Refines uart udp
            (read_then read (on_udp_bytes uart udp) (note_sender read from st))
            ((obey_command uart (carried (got read)) >> hang_up (asks (carried (got read)))) b)
    udp_stage-Refines none from b st there packet i =
        (note_sender none from st, refl, noted-Implements none from b st i)
    udp_stage-Refines (some bytes) from b st there packet i =
        on_udp_bytes-Refines bytes b (note_sender (some bytes) from st) there packet
          (noted-Implements (some bytes) from b st i)
