-- ===== src/Storage.antt =====
-- src/storage/: where a torrent's bytes go on disk.
pub mod Paths
pub mod Split
pub mod Layout
pub mod Memspool
