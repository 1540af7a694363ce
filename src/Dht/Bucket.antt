-- ===== src/Dht/Bucket.antt =====
-- src/dht/routing.rs: contacts and the k-bucket.
-- An `Instant` is a number of seconds, and the clock's reading `now` is an argument. A socket
-- address is of any type: the table only stores it.
pub mod Invariant
pub mod Distinct
use rustytorrent.Base.Bytes.{bytes_eq}
use rustytorrent.Base.{
  ℕ, zero, suc, ◌+◌, ◌-◌, ◌*◌, Bool, true, false, not, Option, none, some, List, [], ◌∷◌, ◌++◌, ltb,
  if◌then◌else◌, length, get_elem?, set, replicate, take,
}
use rustytorrent.Dht.NodeId.{NodeId}

-- `K`.
abbrev pub bucket_size : ℕ
bucket_size = 8

abbrev pub good_node_ttl : ℕ
good_node_ttl = 15 * 60

pub record Contact (Addr : Type 0) : Type 0 where
  pub id : NodeId
  pub addr : Addr
  pub last_seen : ℕ

module _ {Addr : Type 0} where
  -- `elapsed` is 0 for an instant in the future.
  unfoldable pub is_good : ℕ → Contact Addr → Bool
  is_good now c = ltb (now - c.last_seen) good_node_ttl

  kept :
      Contact Addr
      → Option (Contact Addr × List (Contact Addr))
      → Option (Contact Addr × List (Contact Addr))
  kept c none = none
  kept c (some (d, rest)) = some (d, c ∷ rest)

  -- `iter().position(p)`, with what `Vec::remove` of that position returns and leaves.
  unfoldable pub take_out :
      (Contact Addr → Bool) → List (Contact Addr) → Option (Contact Addr × List (Contact Addr))
  unfolding kept
  take_out p [] = none
  take_out p (c ∷ cs) = if p c then some (c, cs) else kept c (take_out p cs)

  abbrev pub has_id : NodeId → Contact Addr → Bool
  has_id id c = bytes_eq c.id id

  abbrev pub is_stale : ℕ → Contact Addr → Bool
  is_stale now c = not (is_good now c)

  -- A full bucket: the oldest stale contact makes room, or the new one is refused.
  replace_stale :
      List (Contact Addr)
      → Contact Addr
      → Option (Contact Addr × List (Contact Addr))
      → List (Contact Addr) × Bool
  replace_stale contacts contact (some (stale, rest)) = (rest ++ contact ∷ [], true)
  replace_stale contacts contact none = (contacts, false)

  -- A known contact is refreshed and moves to the end.
  insert_found :
      ℕ
      → List (Contact Addr)
      → Contact Addr
      → Option (Contact Addr × List (Contact Addr))
      → List (Contact Addr) × Bool
  unfolding replace_stale
  insert_found now contacts contact (some (existing, rest)) =
      (rest ++ record existing { last_seen = contact.last_seen; addr = contact.addr } ∷ [], true)
  insert_found now contacts contact none =
      if ltb (length contacts) bucket_size
      then (contacts ++ contact ∷ [], true)
      else replace_stale contacts contact (take_out (is_stale now) contacts)

  -- `KBucket::insert`.
  unfoldable pub insert : ℕ → List (Contact Addr) → Contact Addr → List (Contact Addr) × Bool
  unfolding insert_found
  insert now contacts contact =
      insert_found now contacts contact (take_out (has_id contact.id) contacts)
