-- ===== src/LinuxPort.antt =====
-- The radio driver's port to Linux (src/leos_sx126x/sx126x_port_linux.c).
pub mod Gpiod
pub mod Lines
pub mod Bus
pub mod Links
pub mod Balance
pub mod Ownership
pub mod Requests
pub mod Initialisation
pub mod Outcome
pub mod Release
pub mod Select
pub mod Clock
mod Simulation
mod Examples
