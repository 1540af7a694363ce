-- ===== src/Peer/Utp.antt =====
-- src/peer/utp/: the uTP transport (BEP 29).
pub mod Packet
pub mod Ledbat
pub mod Connection
