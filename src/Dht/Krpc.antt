-- ===== src/Dht/Krpc.antt =====
-- src/dht/krpc.rs: the messages of the DHT and their wire format.
--
-- `now` is the reading of the clock at which contacts are read. The texts of errors are left out.
pub mod Contacts
pub mod Messages
pub mod Sendable
pub mod Reading
pub mod Shape
pub mod RoundTrip
pub mod Sound
use rustytorrent.Base.{
  ℕ, zero, suc, ◌+◌, ◌*◌, ◌/◌, ◌%◌, ◌^◌, Bool, true, false, not, ◌&&◌, Option, none, some, List, [],
  ◌∷◌, ◌++◌, ltb, ◌==◌, ◌!=◌, if◌then◌else◌, length, take, drop,
}
use rustytorrent.Base.Text.{codes}
use rustytorrent.Base.Bytes.{bytes_eq, be16, of_be16}
use rustytorrent.Base.Decimal.{ℤ, pos, negsuc, usize_to_string, i64_to_string}
use rustytorrent.Base.Outcome.{Error, Result, ok, err, ◌>>=◌, found_or, to_err}
use rustytorrent.Net.Screen.{IpAddr, v4, v6, SocketAddr}
use rustytorrent.Dht.NodeId.{NodeId}
use rustytorrent.Dht.Bucket.{Contact}
use rustytorrent.Metainfo.Bencode.{
  BencodeValue, Items, Fields, no_items, item, no_fields, field, int, bytes, list, dict, bytes_lt,
  Parsed, parsed, refused, starved, as_int, as_bytes, as_list, as_dict, get, parse_all,
}
use rustytorrent.Metainfo.Bencode.Text.{as_str}

pub data Query : Type 0 where
  ping : NodeId → Query
  find_node get_peers : NodeId → List ℕ → Query
  announce_peer : NodeId → List ℕ → ℕ → List ℕ → Bool → Query

-- The source's `Id`, `Nodes`, `Peers` and `PeersNodes`.
pub data Response : Type 0 where
  just_id : NodeId → Response
  nodes : NodeId → List (Contact SocketAddr) → Response
  peers : NodeId → List ℕ → List SocketAddr → Response
  peers_nodes : NodeId → List ℕ → List (Contact SocketAddr) → Response

pub data Message : Type 0 where
  query : List ℕ → Query → Message
  response : List ℕ → Response → Message
  error : List ℕ → ℤ → List ℕ → Message

-- `BTreeMap::insert`.
unfoldable pub insert : List ℕ → BencodeValue → Fields → Fields
unfolding bytes_lt bytes_eq
insert key v no_fields = field key v no_fields
insert key v (field k w fs) =
    if bytes_lt key k
    then field key v (field k w fs)
    else if bytes_eq key k
    then field k v fs
    else field k w (insert key v fs)

unfoldable pub inserted : Fields → List (List ℕ × BencodeValue) → Fields
unfolding insert
inserted d [] = d
inserted d ((k, v) ∷ entries) = inserted (insert k v d) entries

unfoldable pub build_dict : List (List ℕ × BencodeValue) → BencodeValue
unfolding inserted
build_dict entries = dict (inserted no_fields entries)

-- The encoder of this file.
unfoldable mutual
  pub encode : BencodeValue → List ℕ
  encode (int i) = 105 ∷ i64_to_string i ++ 101 ∷ []
  encode (bytes b) = usize_to_string (length b) ++ 58 ∷ b
  encode (list xs) = 108 ∷ encode_items xs
  encode (dict fs) = 100 ∷ encode_fields fs

  pub encode_items : Items → List ℕ
  encode_items no_items = 101 ∷ []
  encode_items (item v xs) = encode v ++ encode_items xs

  pub encode_fields : Fields → List ℕ
  encode_fields no_fields = 101 ∷ []
  encode_fields (field k v fs) =
      (usize_to_string (length k) ++ 58 ∷ k) ++ (encode v ++ encode_fields fs)

-- The compact form of an address is of IPv4 only.
unfoldable pub compact : SocketAddr → Option (List ℕ)
compact addr = elim addr.ip [
  | v4 a b c d ↦ some (a ∷ b ∷ c ∷ d ∷ be16 addr.port)
  | v6 a b c d e f g h ↦ none
]

unfoldable pub nodes_to_bytes : List (Contact SocketAddr) → List ℕ
unfolding compact
nodes_to_bytes [] = []
nodes_to_bytes (c ∷ cs) =
    let rest = nodes_to_bytes cs in
    elim (compact c.addr) [ some b ↦ c.id ++ (b ++ rest) | none ↦ rest ]

-- The address that six bytes are, in front of what follows, unless its port is zero.
unfoldable pub with_addr {ℓ} : {A : Type ℓ} → (SocketAddr → A) → List ℕ → List A → List A
with_addr f (a ∷ b ∷ c ∷ d ∷ e ∷ g ∷ []) rest =
    if of_be16 e g == 0 then rest else f (record { ip = v4 a b c d; port = of_be16 e g }) ∷ rest
with_addr f _ rest = rest

-- The loop over the chunks of 26 bytes.
unfoldable pub nodes_from : ℕ → ℕ → List ℕ → List (Contact SocketAddr)
unfolding with_addr
nodes_from now zero buf = []
nodes_from now (suc n) buf =
    with_addr (λ addr. record { id = take 20 buf; addr = addr; last_seen = now })
      (take 6 (drop 20 buf)) (nodes_from now n (drop 26 buf))

unfoldable pub parse_nodes_bytes : ℕ → List ℕ → Result (List (Contact SocketAddr))
unfolding nodes_from
parse_nodes_bytes now buf =
    if length buf % 26 != 0 then err Error.network else ok (nodes_from now (length buf / 26) buf)

unfoldable pub values_items : List SocketAddr → Items
unfolding compact
values_items [] = no_items
values_items (addr ∷ addrs) =
    let rest = values_items addrs in
    elim (compact addr) [ some b ↦ item (bytes b) rest | none ↦ rest ]

unfoldable pub values_to_list : List SocketAddr → BencodeValue
unfolding values_items
values_to_list values = list (values_items values)

-- The loop over the values. What has not six bytes is passed over.
unfoldable pub values_from : Items → Result (List SocketAddr)
unfolding as_bytes with_addr
values_from no_items = ok []
values_from (item v xs) = do
  b ← as_bytes v
  rest ← values_from xs
  ok (with_addr (λ addr. addr) b rest)

unfoldable pub parse_values_list : BencodeValue → Result (List SocketAddr)
unfolding as_list values_from
parse_values_list v = do xs ← as_list v; values_from xs
