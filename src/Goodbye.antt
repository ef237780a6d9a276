-- ===== src/Goodbye.antt =====
-- The packet filter of engines/goodbye/upstream/src: its trackers of DNS requests and of TTLs.
pub mod Table
pub mod Cleanup
pub mod Dns
pub mod Single
pub mod Ttl
