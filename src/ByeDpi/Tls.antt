-- ===== src/ByeDpi/Tls.antt =====
-- TLS records and ClientHello messages: the TLS half of engines/byedpi/upstream/packets.c.
pub mod Ext
pub mod Hello
pub mod Records
pub mod Tests
