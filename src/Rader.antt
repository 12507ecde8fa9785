-- ===== src/Rader.antt =====
-- src/rader.c and inc/rader.h: commands from the network to the radar, data from the radar to the
-- network, both framed as packets.
pub mod Crc
pub mod Packet
pub mod State
pub mod Recv
pub mod Command
pub mod Stdin
pub mod Sound
mod Tests
