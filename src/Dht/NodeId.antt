-- ===== src/Dht/NodeId.antt =====
-- src/dht/node_id.rs: 160-bit identifiers, their XOR distance and the bucket index.
pub mod Distance
use rustytorrent.Base.{
  ℕ, ◌+◌, ◌-◌, ◌*◌, Bool, true, false, ◌&&◌, Option, none, some, List, [], ◌∷◌, ltb, ◌==◌, ◌!=◌,
  if◌then◌else◌, bit_xor, length, ◌≡◌,
}
use rustytorrent.Base.Bytes.{AreBytes}

-- `[u8; 20]`.
abbrev pub NodeId : Type 0
NodeId = List ℕ

abbrev pub IsNodeId : NodeId → Type 0
IsNodeId id = AreBytes id × (length id ≡ 20)

unfoldable pub distance : NodeId → NodeId → List ℕ
distance (a ∷ id) (b ∷ other) = bit_xor a b ∷ distance id other
distance _ _ = []

-- `u8::leading_zeros`.
unfoldable pub leading_zeros : ℕ → ℕ
leading_zeros b =
    if ltb b 1
    then 8
    else if ltb b 2
    then 7
    else if ltb b 4
    then 6
    else if ltb b 8
    then 5
    else if ltb b 16
    then 4
    else if ltb b 32
    then 3
    else if ltb b 64
    then 2
    else if ltb b 128
    then 1
    else 0

-- The loop of `bucket_index` over the distance's bytes from byte i on.
unfoldable pub bucket_from : ℕ → List ℕ → Option ℕ
bucket_from i [] = none
bucket_from i (byte ∷ d) =
    let rest = bucket_from (i + 1) d in
    if byte != 0 then some (159 - (i * 8 + leading_zeros byte)) else rest

unfoldable pub bucket_index : NodeId → NodeId → Option ℕ
unfolding bucket_from distance
bucket_index id other = bucket_from 0 (distance id other)
