-- ===== src/Service/Bridge/Relation.antt =====
-- When a state of the service stands for a state of the bridge.
use psuart.Prelude.{
  ℕ, ◌<◌, ◌≤◌, ◌≡◌, ◌⊎◌, List, [], ◌∷◌, Option, some, none, Bool, true, false, if◌then◌else◌,
  length,
}
use psuart.Utils.Serial.{is_open}
use psuart.RingBuffer.In.{Represents}
use psuart.Rader.Crc.Laws.{AreBytes}
use psuart.Rader.State.{Rader}
use psuart.Rader.Recv.Answer.{last, IsGathering}
use psuart.Service.{Service, Effect}
use psuart.Service.Turn.{Answers, has}
use psuart.Service.Turn.Stages.{Fits}
use psuart.Service.Bridge.{Bridge, Out}

-- The radar's fifo holds the bytes that have come of the answer awaited.
abbrev pub Matches : Option (ℕ × List ℕ) → Rader → Type 0
Matches none r = (r.dlen ≡ 0) × ((q : List ℕ) × Represents last q r.fifo)
Matches (some w) r = (r.cmd_flag ≡ w.0) × IsGathering r w.1

abbrev pub flag_of : Bool → ℕ
flag_of up = if up then 1 else 0

-- the service's state stands for `b`, its other two descriptors being these
pub record Implements (uart udp : ℕ) (b : Bridge) (st : Service) : Type 0 where
  pub same_uart : st.uart_fd ≡ uart
  pub same_udp : st.udp_fd ≡ udp
  pub same_tcp : st.tcp_fd ≡ b.tcp
  pub same_up : st.tcp_connected ≡ flag_of b.up
  pub tcp_fits : b.tcp < 1024
  pub radar : Matches b.awaited st.rader

-- a part of a turn does what the bridge does
abbrev pub Refines : ℕ → ℕ → Option (Service × List Effect) → Out → Type 0
Refines uart udp ran (b, calls) =
    (st : Service) × (ran ≡ some (st, calls)) × Implements uart udp b st

-- Bytes from the network; with no three bytes of the array left behind them, `rader_cmd` may read past
-- its end.
abbrev pub IsPacket : Option (List ℕ) → Type 0
IsPacket none = Unit {0}
IsPacket (some bytes) = AreBytes bytes × (length bytes ≤ 4093)

-- Both ends are open, and a set has room for their numbers.
pub record AreEnds (uart udp : ℕ) : Type 0 where
  pub uart_open : is_open uart ≡ true
  pub udp_open : is_open udp ≡ true
  pub uart_fits : uart < 1024
  pub udp_fits : udp < 1024

-- `select` finds some descriptors ready, the console not among them, or none in time.
abbrev pub IsTimely : ℕ × List ℕ × List ℕ → Type 0
IsTimely (ret, readable, writable) =
    ((is_open ret ≡ true) × (has 0 readable ≡ false)) ⊎ ((ret ≡ 0) × (readable ≡ []))

-- A new connection gets a number that a set has room for, and `connect` does not fail at once. Nothing
-- is typed. Reads fit the array.
pub record IsOrderly (a : Answers) : Type 0 where
  pub made_open : is_open a.tcp_made ≡ true
  pub made_fits : a.tcp_made < 1024
  pub connects : a.tcp_connects ≡ true
  pub selects : (rfds wfds : List ℕ) → IsTimely (a.select rfds wfds)
  pub uart_fits : Fits a.uart_read
  pub tcp_packet : IsPacket a.tcp_read
  pub udp_packet : IsPacket a.udp_read

abbrev pub AreOrderly : List Answers → Type 0
AreOrderly [] = Unit {0}
AreOrderly (a ∷ turns) = IsOrderly a × AreOrderly turns
