-- ===== src/Mcp342x.antt =====
-- The MCP342x ADC driver (src/leos_mcp342x/src/mcp342x.c and include/leos/mcp342x.h).
pub mod Device
pub mod Read
pub mod Fields
pub mod Samples
pub mod Conversion
pub mod Voltage
mod Examples
