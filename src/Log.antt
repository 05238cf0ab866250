-- ===== src/Log.antt =====
-- The console log (src/leos_log/log.c).
pub mod Text
pub mod Console
pub mod Reader
pub mod Digits
pub mod Lines
mod Examples
