-- ===== src/Service/Bridge.antt =====
-- What the loop of src/psuservice.c promises, as a small machine: a bridge between the radar at the
-- serial port and the network. It knows no ring buffer and no packet buffer, only the connection and
-- the answer that is awaited.
pub mod Relation
pub mod Stages
pub mod Radar
pub mod Commands
pub mod Refines
pub mod Start
pub mod Packets
pub mod Recovery
pub mod Tests
use psuart.Prelude.{
  ℕ, ◌^◌, List, [], ◌∷◌, ◌++◌, Option, some, none, Bool, true, false, ltb, leb, ◌==◌, ◌&&◌,
  if◌then◌else◌, length, take,
}
use psuart.Utils.Serial.{is_open}
use psuart.Rader.State.{data_flag_F, data_flag_S, rader_dlen}
use psuart.Rader.Packet.Frame.{frame}
use psuart.Rader.Command.Accept.{command_flag, closes}
use psuart.Rader.Command.Decode.{carried}
use psuart.Service.{Effect, wrote, closed}
use psuart.Service.Turn.{Answers, has}
use psuart.Service.Socket.Laws.{cleared, closing}

-- the connection, whether it is up, and the flag and the bytes so far of the answer that is awaited
pub record Bridge : Type 0 where
  pub tcp : ℕ
  pub up : Bool
  pub awaited : Option (ℕ × List ℕ)

-- a state and what is done on the way to it
abbrev pub Out : Type 0
Out = Bridge × List Effect

-- A connection that is not there is made anew.
abbrev pub connecting : ℕ → Bridge → Bridge
connecting made b = if is_open b.tcp then b else record b { tcp = made; up = false }

-- how it ended: an answer that was awaited is forgotten
abbrev pub connected : Option ℕ → Bridge → Out
connected none b = (record b { tcp = 0; up = false }, closed b.tcp ∷ [])
connected (some err) b =
    if err == 0
    then (record b { up = true; awaited = none }, [])
    else (record b { tcp = 0; up = false }, closed b.tcp ∷ [])

-- the answer to a command with this flag is awaited, if it has one
abbrev pub expecting : ℕ → Option (ℕ × List ℕ)
expecting flag = if rader_dlen flag == 0 then none else some (flag, [])

-- Bytes for an answer. Behind the answer to `S` the radar is asked for `F`.
abbrev pub gather : ℕ → ℕ → List ℕ → ℕ → List ℕ → Bridge → Out
gather uart tcp bytes flag q b =
    if leb (rader_dlen flag) (length (q ++ bytes))
    then (let answer =
          wrote (record { fd = tcp; bytes = frame flag (take (rader_dlen flag) (q ++ bytes)) }) in
        if flag == data_flag_S
        then (
          record b { awaited = some (data_flag_F, []) },
          answer ∷ wrote (record { fd = uart; bytes = b'F' ∷ [] }) ∷ [],
        )
        else (record b { awaited = none }, answer ∷ []))
    else (record b { awaited = some (flag, q ++ bytes) }, [])

-- with what is awaited
abbrev pub received : Option (ℕ × List ℕ) → ℕ → ℕ → List ℕ → Bridge → Out
received none uart tcp bytes b = (b, [])
received (some (flag, q)) uart tcp bytes b = gather uart tcp bytes flag q b

-- Bytes from the radar are lost while the connection is not up or no answer is awaited.
abbrev pub radar_bytes : ℕ → ℕ → List ℕ → Bridge → Out
radar_bytes uart tcp bytes b =
    if ltb 0 (length bytes) && b.up then received b.awaited uart tcp bytes b else (b, [])

-- A command is sent to the radar, unless an answer is awaited.
abbrev pub obey_while : Option (ℕ × List ℕ) → ℕ → List ℕ → Bridge → Out
obey_while none uart cmd b = (
  record b { awaited = expecting (command_flag cmd) },
  wrote (record { fd = uart; bytes = cmd }) ∷ [],
)
obey_while (some w) uart cmd b = (b, [])

abbrev pub obey_command : ℕ → Option (List ℕ) → Bridge → Out
obey_command uart none b = (b, [])
obey_command uart (some cmd) b = obey_while b.awaited uart cmd b

-- whether these bytes carry the request to close the connection
abbrev pub asks : Option (List ℕ) → Bool
asks none = false
asks (some cmd) = closes cmd

abbrev pub hang_up : Bool → Bridge → Out
hang_up true b = (record b { tcp = cleared b.tcp }, closing b.tcp)
hang_up false b = (b, [])

-- the one, then the other
abbrev pub ◌>>◌ : (Bridge → Out) → (Bridge → Out) → Bridge → Out
◌>>◌ f g b = let (b1, c1) = f b in let (b2, c2) = g b1 in (b2, c1 ++ c2)

infixr 5 ◌>>◌
abbrev pub when : Bool → (Bridge → Out) → Bridge → Out
when there f b = if there then f b else (b, [])

-- what a read gave; one that failed gives nothing
abbrev pub got : Option (List ℕ) → List ℕ
got none = []
got (some bytes) = bytes

-- what happens with descriptors that are ready
abbrev pub handle : ℕ → ℕ → ℕ → Answers → List ℕ → List ℕ → Bridge → Out
handle uart udp tcp a readable writable =
    when (has tcp writable) (connected a.tcp_error)
    >> when (has uart readable) (radar_bytes uart tcp (got a.uart_read))
    >> when (has tcp readable) (obey_command uart (carried (got a.tcp_read)))
    >> when (has udp readable)
        (obey_command uart (carried (got a.udp_read)) >> hang_up (asks (carried (got a.udp_read))))

-- the descriptors that are waited for: until it is up, the connection is written to
abbrev pub readable_asked : ℕ → ℕ → Bridge → List ℕ
readable_asked uart udp b = if b.up then b.tcp ∷ uart ∷ udp ∷ 0 ∷ [] else uart ∷ udp ∷ 0 ∷ []

abbrev pub writable_asked : Bridge → List ℕ
writable_asked b = if b.up then [] else b.tcp ∷ []

-- what the system answers to it
abbrev pub selected : ℕ → ℕ → Answers → Bridge → ℕ × List ℕ × List ℕ
selected uart udp a b = a.select (readable_asked uart udp b) (writable_asked b)

abbrev pub turn : ℕ → ℕ → Answers → Bridge → Out
turn uart udp a b =
    let b' = connecting a.tcp_made b in
    let (ret, readable, writable) = selected uart udp a b' in
    when (is_open ret) (handle uart udp b'.tcp a readable writable) b'

abbrev pub run : ℕ → ℕ → List Answers → Bridge → Out
run uart udp [] b = (b, [])
run uart udp (a ∷ turns) b = (turn uart udp a >> run uart udp turns) b
