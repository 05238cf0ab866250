-- ===== src/Sx126x.antt =====
-- The SX126x radio driver (src/leos_sx126x/sx126x.c and its headers).
pub mod Types
pub mod Vendor
pub mod Convert
pub mod Context
pub mod Frame
pub mod Receive
pub mod Setup
pub mod Transmit
pub mod Globals
pub mod Api
pub mod Invariant
pub mod System
pub mod Reception
pub mod Transmission
pub mod Polling
pub mod Interrupts
pub mod Configuration
pub mod Abandoned
mod Examples
