-- ===== src/ByeDpi.antt =====
-- The desync proxy of engines/byedpi/upstream.
pub mod Tls
pub mod Http
pub mod Desync
pub mod Conev
pub mod Mpool
pub mod Proxy
pub mod Extend
