-- ===== src/Metainfo.antt =====
-- src/metainfo/: torrent files and the encoding they are written in.
pub mod Bencode
pub mod Torrent
pub mod Magnet
