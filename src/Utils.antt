-- ===== src/Utils.antt =====
-- src/utils.c: encoding, numbers, addresses and text.
pub mod Hex
pub mod Ip
pub mod Address
pub mod Number
pub mod Text
pub mod Split
pub mod CommandLine
pub mod Serial
pub mod Descriptor
mod Tests
