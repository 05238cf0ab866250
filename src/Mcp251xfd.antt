-- ===== src/Mcp251xfd.antt =====
-- The CAN controller's driver: mcp251xfd.c, platform.c and include/leos/mcp251xfd/debug.h of
-- src/leos_mcp251xfd.
pub mod Types
pub mod State
pub mod Driver
pub mod Task
pub mod Consistency
pub mod Stable
pub mod Servicing
pub mod Updates
pub mod Lifecycle
pub mod Stuck
pub mod Ready
pub mod Events
pub mod Finishing
pub mod Operations
pub mod System
pub mod Crc
pub mod Residue
pub mod Spi
pub mod Debug
mod Simulation
mod Examples
mod SpiExamples
