-- ===== src/Net.antt =====
-- src/util.rs: what is shared across the modules of the client.
pub mod Screen
