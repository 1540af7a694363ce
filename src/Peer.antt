-- ===== src/Peer.antt =====
-- `peer/`: the peer wire protocol.
pub mod Message
pub mod Handshake
pub mod Mse
pub mod Utp
