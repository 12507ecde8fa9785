-- ===== src/Service.antt =====
-- The service of src/psuservice.c: its descriptors, its configuration and its loop. The answers of the
-- system are parameters. A descriptor is the 32-bit pattern of an `int`.
pub mod Config
pub mod Socket
pub mod Turn
pub mod Loop
pub mod Dump
pub mod Bridge
pub mod Main
pub mod Logging
mod Tests
use psuart.Prelude.{ℕ, List, Option, ◌==◌, if◌then◌else◌}
use psuart.Utils.Serial.{is_open}
use psuart.Rader.State.{Rader, Write}

-- the fields of `psus_data` that the loop uses, `tcp_connected`, and the state of src/rader.c
pub record Service : Type 0 where
  pub uart_fd : ℕ
  pub tcp_fd : ℕ
  pub udp_fd : ℕ
  pub tcp_connected : ℕ
  pub select_timeout : ℕ
  pub net_ip : ℕ
  pub net_port : ℕ
  pub udpport : ℕ
  pub uart_port : Option (List ℕ)
  pub rader : Rader

-- a call `write`, or a call `close`
pub data Effect : Type 0 where
  wrote : Write → Effect
  closed : ℕ → Effect
