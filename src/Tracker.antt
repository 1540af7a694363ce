-- ===== src/Tracker.antt =====
-- src/tracker/: asking a tracker for peers.
pub mod Udp
pub mod Dispatch
pub mod Redact
