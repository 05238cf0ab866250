-- ===== src/Transport.antt =====
-- The Cyphal transport over the MCP251XFD (src/leos_cyphal/transport/mcp251xfd/driver.c).
pub mod Transmit
pub mod Frames
pub mod Receive
pub mod Link
pub mod Behaviour
pub mod Draining
pub mod Delivery
pub mod Reaching
mod Examples
