-- ===== src/Purpleboard.antt =====
-- The sensor board (src/leos_purpleboard/purpleboard.cpp).
pub mod Types
pub mod Board
pub mod Read
pub mod Validity
pub mod Fresh
pub mod Objects
mod Examples
