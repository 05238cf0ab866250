-- ===== src/PicoPort.antt =====
-- The radio driver's port to the Raspberry Pi Pico (src/leos_sx126x/sx126x_port_pico.c).
pub mod Sdk
pub mod Port
pub mod Links
pub mod Select
pub mod Sharing
mod Examples
