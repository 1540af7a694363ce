-- ===== src/Piece.antt =====
-- src/piece/: which pieces and blocks are missing, and which one to ask a peer for.
pub mod Geometry
pub mod Row
pub mod Manager
pub mod Picker
