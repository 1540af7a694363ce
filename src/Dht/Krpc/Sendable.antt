-- ===== src/Dht/Krpc/Sendable.antt =====
-- src/dht/krpc.rs: the messages that can be sent, and what arrives of them.
use rustytorrent.Base.{ℕ, ◌^◌, ◌<◌, ◌≡◌, refl, ap, ap₂, true, List, ◌∷◌, ◌++◌, length, All}
use rustytorrent.Base.Text.{is_utf8}
use rustytorrent.Base.Decimal.{IsI64}
use rustytorrent.Metainfo.Bencode.{
  BencodeValue, no_items, item, no_fields, field, int, bytes, list, dict, string_bytes, to_bytes,
  items_bytes, fields_bytes,
}
use rustytorrent.Dht.Krpc.{
  Query, ping, find_node, get_peers, announce_peer, Response, just_id, nodes, peers, peers_nodes,
  Message, query, response, error, encode, encode_items, encode_fields, nodes_to_bytes,
}
use rustytorrent.Dht.Krpc.Contacts.{FitsContact, FitsPort, received_nodes, received_addrs}

-- The encoder of the DHT and the printer of the torrent files give the same bytes.
pub encode-to_bytes : (v : BencodeValue) → encode v ≡ to_bytes v
unfolding encode to_bytes string_bytes
encode-to_bytes v =
    elim v
      as (λ v. encode v ≡ to_bytes v) (λ xs. encode_items xs ≡ items_bytes xs) (λ fs.
        encode_fields fs ≡ fields_bytes fs) [
          | int i ↦ refl
          | bytes b ↦ refl
          | list (xs → ih) ↦ ap (λ ys. 108 ∷ ys) ih
          | dict (fs → ih) ↦ ap (λ ys. 100 ∷ ys) ih
          | no_items ↦ refl
          | item (w → ih) (xs → ihs) ↦ ap₂ (λ ys zs. ys ++ zs) ih ihs
          | no_fields ↦ refl
          | field k (w → ih) (fs → ihs) ↦ ap₂ (λ ys zs. (string_bytes k) ++ (ys ++ zs)) ih ihs
        ]

-- Identifiers of 20 bytes, ports of 16 bits, and strings whose length a `usize` holds.
abbrev pub IsShort : List ℕ → Type 0
IsShort b = length b < 2 ^ 64

abbrev pub Is20 : List ℕ → Type 0
Is20 b = length b ≡ 20

abbrev pub FitsQuery : Query → Type 0
FitsQuery (ping id) = Is20 id
FitsQuery (find_node id target) = Is20 id × Is20 target
FitsQuery (get_peers id info_hash) = Is20 id × Is20 info_hash
FitsQuery (announce_peer id info_hash port token implied_port) =
    Is20 id × Is20 info_hash × (port < 2 ^ 16) × IsShort token

abbrev pub FitsResponse : Response → Type 0
FitsResponse (just_id id) = Is20 id
FitsResponse (nodes id ns) = Is20 id × All FitsContact ns × IsShort (nodes_to_bytes ns)
FitsResponse (peers id token values) = Is20 id × IsShort token × All FitsPort values
FitsResponse (peers_nodes id token ns) =
    Is20 id × IsShort token × All FitsContact ns × IsShort (nodes_to_bytes ns)

-- The text of an error is UTF-8.
abbrev pub FitsMessage : Message → Type 0
FitsMessage (query transaction_id q) = IsShort transaction_id × FitsQuery q
FitsMessage (response transaction_id r) = IsShort transaction_id × FitsResponse r
FitsMessage (error transaction_id code text) =
    IsShort transaction_id × IsI64 code × IsShort text × (is_utf8 text ≡ true)

-- What arrives of a message: contacts and addresses that are not of IPv4, or have no port, are lost.
abbrev pub received_response : ℕ → Response → Response
received_response now (just_id id) = just_id id
received_response now (nodes id ns) = nodes id (received_nodes now ns)
received_response now (peers id token values) = peers id token (received_addrs values)
received_response now (peers_nodes id token ns) = peers_nodes id token (received_nodes now ns)

abbrev pub received : ℕ → Message → Message
received now (query transaction_id q) = query transaction_id q
received now (response transaction_id r) = response transaction_id (received_response now r)
received now (error transaction_id code text) = error transaction_id code text
