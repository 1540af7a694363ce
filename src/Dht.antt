-- ===== src/Dht.antt =====
-- src/dht/: the distributed hash table (BEP 5).
pub mod NodeId
pub mod Bucket
pub mod Routing
pub mod Krpc
