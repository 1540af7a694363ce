-- ===== src/Examples.antt =====
-- Concrete runs of the theorems on the code of peer/, piece/, dht/ and the other parts, where their
-- hypotheses hold.
mod Wire
mod Session
mod Pieces
mod Picking
mod Choking
mod Files
mod Memory
mod Announcing
mod Kademlia
mod Bencoding
mod UtpStream
mod Dialling
mod Krpc
mod Magnets
mod Tiers
mod Torrents
