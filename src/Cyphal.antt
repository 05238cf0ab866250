-- ===== src/Cyphal.antt =====
-- The Cyphal node (src/leos_cyphal/node and src/leos_cyphal/transport/transport.c).
pub mod Table
pub mod Node
pub mod Slots
pub mod Clearing
pub mod Filling
pub mod Laws
pub mod Tracking
pub mod Subscribing
pub mod Unsubscribing
pub mod Dispatch
pub mod Capacity
pub mod Calls
pub mod Places
pub mod Serving
pub mod System
pub mod Task
pub mod Heartbeats
pub mod Simulation
mod Examples
