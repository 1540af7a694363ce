-- ===== src/Dht/Routing.antt =====
-- src/dht/routing.rs: the routing table.
pub mod Invariant
pub mod Closest
use rustytorrent.Base.Bytes.{bytes_eq}
use rustytorrent.Base.{
  ℕ, ◌+◌, Bool, true, false, ◌&&◌, Option, none, some, List, [], ◌∷◌, ◌++◌, ltb, ◌==◌,
  if◌then◌else◌, length, get_or, set, replicate, take,
}
use rustytorrent.Dht.NodeId.{NodeId, distance, bucket_index}
use rustytorrent.Dht.Bucket
use rustytorrent.Dht.Bucket.{Contact}

pub record RoutingTable (Addr : Type 0) : Type 0 where
  pub local_id : NodeId
  pub buckets : List (List (Contact Addr))

-- The order of byte arrays.
unfoldable pub bytes_le : List ℕ → List ℕ → Bool
bytes_le [] bs = true
bytes_le (a ∷ xs) [] = false
bytes_le (a ∷ xs) (b ∷ ys) = if ltb a b then true else (a == b && bytes_le xs ys)

module _ {Addr : Type 0} where
  unfoldable pub new : NodeId → RoutingTable Addr
  new local_id = record { local_id = local_id; buckets = replicate 160 [] }

  -- The branches of `insert` on the bucket's index. The source panics on an index out of range,
  -- where this changes nothing.
  insert_at : ℕ → RoutingTable Addr → Contact Addr → Option ℕ → RoutingTable Addr × Bool
  insert_at now t contact none = (t, false)
  insert_at now t contact (some i) =
      let result = Bucket.insert now (get_or t.buckets i []) contact in
      (record t { buckets = set t.buckets i result.0 }, result.1)

  unfoldable pub insert : ℕ → RoutingTable Addr → Contact Addr → RoutingTable Addr × Bool
  unfolding insert_at
  insert now t contact =
      if bytes_eq contact.id t.local_id
      then (t, false)
      else insert_at now t contact (bucket_index t.local_id contact.id)

  unfoldable pub flat : List (List (Contact Addr)) → List (Contact Addr)
  flat [] = []
  flat (b ∷ bs) = b ++ flat bs

  unfoldable pub nearer : NodeId → Contact Addr → Contact Addr → Bool
  unfolding bytes_le
  nearer target c d = bytes_le (distance c.id target) (distance d.id target)

  -- `sort_by_key` is stable: a later contact goes behind the earlier ones that are as near.
  unfoldable pub insert_sorted : NodeId → Contact Addr → List (Contact Addr) → List (Contact Addr)
  insert_sorted target c [] = c ∷ []
  insert_sorted target c (d ∷ ds) =
      if nearer target c d then c ∷ (d ∷ ds) else d ∷ insert_sorted target c ds

  unfoldable pub sort : NodeId → List (Contact Addr) → List (Contact Addr)
  unfolding insert_sorted
  sort target [] = []
  sort target (c ∷ cs) = insert_sorted target c (sort target cs)

  unfoldable pub closest : RoutingTable Addr → NodeId → ℕ → List (Contact Addr)
  unfolding flat sort
  closest t target count = take count (sort target (flat t.buckets))

  unfoldable pub table_len : List (List (Contact Addr)) → ℕ
  table_len [] = 0
  table_len (b ∷ bs) = length b + table_len bs
