-- ===== src/ByeDpi/Extend.antt =====
-- The hooks between the tunnels and the desynchronisation, engines/byedpi/upstream/extend.c.
pub mod Masks
pub mod Tracker
pub mod Groups
pub mod Trigger
pub mod Cache
mod Tests
