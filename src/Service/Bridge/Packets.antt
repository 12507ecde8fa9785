-- ===== src/Service/Bridge/Packets.antt =====
-- What the loop writes: commands to the serial port, and whole packets to the network.
use psuart.Prelude.{
  ℕ, ◌≡◌, refl, arith, ◌⊎◌, inl, inr, List, [], ◌∷◌, ◌++◌, Option, some, none, Bool, true, false,
  ltb, leb, leb→le, ◌==◌, ◌&&◌, length, length-take, take, Bool-cases,
}
use psuart.Utils.Serial.{is_open}
use psuart.Rader.State.{data_flag_S, rader_dlen}
use psuart.Rader.Packet.Frame.{frame}
use psuart.Rader.Command.Decode.{carried}
use psuart.Service.{Service, Effect, wrote, closed}
use psuart.Service.Turn.{Answers, has}
use psuart.Service.Loop.{serve}
use psuart.Service.Socket.Laws.{closing}
use psuart.Service.Bridge.{
  Bridge, Out, connecting, connected, gather, received, radar_bytes, obey_while, obey_command, asks,
  hang_up, ◌>>◌, when, got, handle, selected, turn, run,
}
use psuart.Service.Bridge.Relation.{Implements, AreEnds, AreOrderly}
use psuart.Service.Bridge.Refines.{serve-Refines}

-- a packet with some flag and as many bytes as belong to it
abbrev pub IsAnswer : List ℕ → Type 0
IsAnswer bytes =
    (flag : ℕ) × (payload : List ℕ) × (bytes ≡ frame flag payload)
    × (length payload ≡ rader_dlen flag)

-- A call that closes, one that writes to the serial port, or one that writes a whole answer.
abbrev pub IsLegal : ℕ → Effect → Type 0
IsLegal uart (closed fd) = Unit {0}
IsLegal uart (wrote w) = (w.fd ≡ uart) ⊎ IsAnswer w.bytes

abbrev pub AreLegal : ℕ → List Effect → Type 0
AreLegal uart [] = Unit {0}
AreLegal uart (e ∷ es) = IsLegal uart e × AreLegal uart es

module _ (uart : ℕ) where
  append-AreLegal :
      (xs ys : List Effect) → AreLegal uart xs → AreLegal uart ys → AreLegal uart (xs ++ ys)
  append-AreLegal [] ys h k = k
  append-AreLegal (x ∷ xs) ys h k = (h.0, append-AreLegal xs ys h.1 k)

  -- a step of the bridge that makes legal calls only
  abbrev StaysLegal : (Bridge → Out) → Type 0
  StaysLegal f = (b : Bridge) → AreLegal uart (f b).1

  >>-StaysLegal : (f g : Bridge → Out) → StaysLegal f → StaysLegal g → StaysLegal (f >> g)
  >>-StaysLegal f g h k b = append-AreLegal (f b).1 (g (f b).0).1 (h b) (k (f b).0)

  when-StaysLegal : (there : Bool) (f : Bridge → Out) → StaysLegal f → StaysLegal (when there f)
  when-StaysLegal true f h b = h b
  when-StaysLegal false f h b = tt

  connected-StaysLegal : (err : Option ℕ) → StaysLegal (connected err)
  connected-StaysLegal none b = (tt, tt)
  connected-StaysLegal (some err) b = elim (Bool-cases (err == 0)) [
    | inl done ↦ rw done tt
    | inr failed ↦ rw failed (tt, tt)
  ]

  gather-StaysLegal :
      (tcp : ℕ) (bytes : List ℕ) (flag : ℕ) (q : List ℕ) → StaysLegal (gather uart tcp bytes flag q)
  gather-StaysLegal tcp bytes flag q b =
      elim (Bool-cases (leb (rader_dlen flag) (length (q ++ bytes)))) [
        | inr cut ↦ rw cut tt
        | inl whole ↦
            let answer : IsAnswer (frame flag (take (rader_dlen flag) (q ++ bytes))) = (
              flag,
              take (rader_dlen flag) (q ++ bytes),
              refl,
              omega (arith, length-take (rader_dlen flag) (q ++ bytes), leb→le _ _ whole),
            ) in
            elim (Bool-cases (flag == data_flag_S)) [
              | inl next ↦ rw (whole, next) (inr answer, (inl refl, tt))
              | inr other ↦ rw (whole, other) (inr answer, tt)
            ]
      ]

  received-StaysLegal :
      (w : Option (ℕ × List ℕ)) (tcp : ℕ) (bytes : List ℕ) → StaysLegal (received w uart tcp bytes)
  received-StaysLegal none tcp bytes b = tt
  received-StaysLegal (some (flag, q)) tcp bytes b = gather-StaysLegal tcp bytes flag q b

  radar_bytes-StaysLegal : (tcp : ℕ) (bytes : List ℕ) → StaysLegal (radar_bytes uart tcp bytes)
  radar_bytes-StaysLegal tcp bytes b =
      when-StaysLegal (ltb 0 (length bytes) && b.up) (received b.awaited uart tcp bytes)
        (received-StaysLegal b.awaited tcp bytes) b

  obey_while-StaysLegal :
      (w : Option (ℕ × List ℕ)) (cmd : List ℕ) → StaysLegal (obey_while w uart cmd)
  obey_while-StaysLegal none cmd b = (inl refl, tt)
  obey_while-StaysLegal (some w) cmd b = tt

  obey_command-StaysLegal : (read : Option (List ℕ)) → StaysLegal (obey_command uart read)
  obey_command-StaysLegal none b = tt
  obey_command-StaysLegal (some cmd) b = obey_while-StaysLegal b.awaited cmd b

  closing-AreLegal : (fd : ℕ) → AreLegal uart (closing fd)
  closing-AreLegal fd = elim (Bool-cases (is_open fd)) [
    | inl there ↦ rw there (tt, tt)
    | inr shut ↦ rw shut tt
  ]

  hang_up-StaysLegal : (close : Bool) → StaysLegal (hang_up close)
  hang_up-StaysLegal true b = closing-AreLegal b.tcp
  hang_up-StaysLegal false b = tt

  handle-StaysLegal :
      (udp tcp : ℕ) (a : Answers) (readable writable : List ℕ)
      → StaysLegal (handle uart udp tcp a readable writable)
  handle-StaysLegal udp tcp a readable writable =
      let result = when (has tcp writable) (connected a.tcp_error) in
      let bytes = radar_bytes uart tcp (got a.uart_read) in
      let from_radar = when (has uart readable) bytes in
      let packet = obey_command uart (carried (got a.tcp_read)) in
      let from_tcp = when (has tcp readable) packet in
      let datagram = obey_command uart (carried (got a.udp_read)) in
      let closes = hang_up (asks (carried (got a.udp_read))) in
      let from_udp = when (has udp readable) (datagram >> closes) in
      >>-StaysLegal result (from_radar >> from_tcp >> from_udp)
        (when-StaysLegal (has tcp writable) (connected a.tcp_error)
          (connected-StaysLegal a.tcp_error))
        (>>-StaysLegal from_radar (from_tcp >> from_udp)
          (when-StaysLegal (has uart readable) bytes (radar_bytes-StaysLegal tcp (got a.uart_read)))
          (>>-StaysLegal from_tcp from_udp
            (when-StaysLegal (has tcp readable) packet
              (obey_command-StaysLegal (carried (got a.tcp_read))))
            (when-StaysLegal (has udp readable) (datagram >> closes) (
              >>-StaysLegal datagram closes (obey_command-StaysLegal (carried (got a.udp_read)))
                (hang_up-StaysLegal (asks (carried (got a.udp_read))))))))

  turn-StaysLegal : (udp : ℕ) (a : Answers) → StaysLegal (turn uart udp a)
  turn-StaysLegal udp a b =
      let b' = connecting a.tcp_made b in
      let answer = selected uart udp a b' in
      when-StaysLegal (is_open answer.0) (handle uart udp b'.tcp a answer.1 answer.2)
        (handle-StaysLegal udp b'.tcp a answer.1 answer.2) b'

  run-StaysLegal : (udp : ℕ) (turns : List Answers) → StaysLegal (run uart udp turns)
  run-StaysLegal udp [] b = tt
  run-StaysLegal udp (a ∷ turns) b =
      >>-StaysLegal (turn uart udp a) (run uart udp turns) (turn-StaysLegal udp a)
        (run-StaysLegal udp turns) b

-- Whatever comes from the radar and the network, in any state that stands for one of the bridge, with
-- descriptors below 1024: in all turns in which a socket is made, `connect` and `select` do not fail,
-- nothing is typed and the reads give at most 4096 bytes, and 4093 from the network, the loop runs
-- without a fault and goes on, and writes to no descriptor but the serial port anything else than one
-- whole packet, whose payload has exactly the length that belongs to its flag.
pub serve-AreLegal :
    (uart udp : ℕ) (signed : Bool) (turns : List Answers) (b : Bridge) (st : Service)
    → AreEnds uart udp
    → AreOrderly turns
    → Implements uart udp b st
    → (st' : Service) × (calls : List Effect) × (serve signed turns st ≡ some (st', calls, false))
      × AreLegal uart calls
serve-AreLegal uart udp signed turns b st ends orderly i =
    let (st', e, i') = serve-Refines uart udp signed turns b st ends orderly i in
    (st', (run uart udp turns b).1, e, run-StaysLegal uart udp turns b)
