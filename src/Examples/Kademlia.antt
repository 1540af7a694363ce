-- ===== src/Examples/Kademlia.antt =====
-- src/dht/: the theorem on buckets and tests of node ids and the table, at concrete ones.
use rustytorrent.Base.{ℕ, ◌≡◌, refl, some, [], ◌∷◌, replicate}
use rustytorrent.Dht.NodeId.{NodeId, bucket_index, leading_zeros}
use rustytorrent.Dht.Bucket
use rustytorrent.Dht.Bucket.{Contact}
use rustytorrent.Dht.Bucket.Invariant as BucketInvariant
use rustytorrent.Dht.Routing.{RoutingTable, new, insert}
use rustytorrent.Dht.Routing.Invariant.{IsValid, table_new-IsValid, table_insert-IsValid}

abbrev own : NodeId
own = replicate 20 0

abbrev other : NodeId
other = 0 ∷ 5 ∷ replicate 18 1

abbrev a_contact : Contact ℕ
a_contact = record { id = other; addr = 6881; last_seen = 100 }

abbrev a_table : RoutingTable ℕ
a_table = (insert 120 (new own) a_contact).0

bucket_of_other : bucket_index own other ≡ some 146
unfolding bucket_index leading_zeros
bucket_of_other = refl

insert-Follows_example :
    BucketInvariant.Follows 120
      (a_contact ∷ [])
      a_contact
      (Bucket.insert 120 (a_contact ∷ []) a_contact)
insert-Follows_example = BucketInvariant.insert-Follows 120 (a_contact ∷ []) a_contact

a_table-IsValid : IsValid a_table
a_table-IsValid = table_insert-IsValid 120 (new own) a_contact (table_new-IsValid own)
