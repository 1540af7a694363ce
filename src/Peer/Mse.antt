-- ===== src/Peer/Mse.antt =====
-- src/peer/mse/: message stream encryption.
pub mod Rc4
