-- ===== src/Dht/Krpc/Messages.antt =====
-- src/dht/krpc.rs: `Message::encode` and `Message::decode`.
use rustytorrent.Base.{
  ℕ, ◌^◌, Bool, true, not, Option, none, some, List, [], ◌∷◌, ltb, ◌==◌, if◌then◌else◌, length,
}
use rustytorrent.Base.Text.{codes}
use rustytorrent.Base.Bytes.{bytes_eq}
use rustytorrent.Base.Decimal.{ℤ, pos, negsuc}
use rustytorrent.Base.Outcome.{Error, Result, ok, err, ◌>>=◌, found_or}
use rustytorrent.Net.Screen.{SocketAddr}
use rustytorrent.Dht.NodeId.{NodeId}
use rustytorrent.Dht.Bucket.{Contact}
use rustytorrent.Metainfo.Bencode.{
  BencodeValue, Items, Fields, no_items, item, int, bytes, list, Parsed, parsed, refused, starved,
  as_int, as_bytes, as_list, as_dict, get, parse_all,
}
use rustytorrent.Metainfo.Bencode.Text.{as_str}
use rustytorrent.Dht.Krpc.{
  Query, ping, find_node, get_peers, announce_peer, Response, just_id, nodes, peers, peers_nodes,
  Message, query, response, error, build_dict, encode, nodes_to_bytes, parse_nodes_bytes,
  values_to_list, parse_values_list,
}

abbrev pub bit : Bool → ℤ
bit b = if b then pos 1 else pos 0

-- The name of a query, and its arguments.
unfoldable pub query_name : Query → List ℕ
query_name (ping id) = codes "ping"
query_name (find_node id target) = codes "find_node"
query_name (get_peers id info_hash) = codes "get_peers"
query_name (announce_peer id info_hash port token implied_port) = codes "announce_peer"

unfoldable pub query_args : Query → BencodeValue
unfolding build_dict
query_args (ping id) = build_dict ((codes "id", bytes id) ∷ [])
query_args (find_node id target) =
    build_dict ((codes "id", bytes id) ∷ (codes "target", bytes target) ∷ [])
query_args (get_peers id info_hash) =
    build_dict ((codes "id", bytes id) ∷ (codes "info_hash", bytes info_hash) ∷ [])
query_args (announce_peer id info_hash port token implied_port) = build_dict (
    (codes "id", bytes id)
    ∷ (codes "implied_port", int (bit implied_port))
    ∷ (codes "info_hash", bytes info_hash)
    ∷ (codes "port", int (pos port))
    ∷ (codes "token", bytes token)
    ∷ [])

unfoldable pub response_dict : Response → BencodeValue
unfolding build_dict nodes_to_bytes values_to_list
response_dict (just_id id) = build_dict ((codes "id", bytes id) ∷ [])
response_dict (nodes id ns) =
    build_dict ((codes "id", bytes id) ∷ (codes "nodes", bytes (nodes_to_bytes ns)) ∷ [])
response_dict (peers id token values) = build_dict (
    (codes "id", bytes id)
    ∷ (codes "token", bytes token)
    ∷ (codes "values", values_to_list values)
    ∷ [])
response_dict (peers_nodes id token ns) = build_dict (
    (codes "id", bytes id)
    ∷ (codes "nodes", bytes (nodes_to_bytes ns))
    ∷ (codes "token", bytes token)
    ∷ [])

unfoldable pub message_dict : Message → BencodeValue
unfolding build_dict query_name query_args response_dict
message_dict (query transaction_id q) = build_dict (
    (codes "a", query_args q)
    ∷ (codes "q", bytes (query_name q))
    ∷ (codes "t", bytes transaction_id)
    ∷ (codes "y", bytes (codes "q"))
    ∷ [])
message_dict (response transaction_id r) = build_dict (
    (codes "r", response_dict r)
    ∷ (codes "t", bytes transaction_id)
    ∷ (codes "y", bytes (codes "r"))
    ∷ [])
message_dict (error transaction_id code message) = build_dict (
    (codes "e", list (item (int code) (item (bytes message) no_items)))
    ∷ (codes "t", bytes transaction_id)
    ∷ (codes "y", bytes (codes "e"))
    ∷ [])

-- `Message::encode`.
unfoldable pub encode_message : Message → List ℕ
unfolding encode message_dict
encode_message m = encode (message_dict m)

-- A value that must be there.
unfoldable pub required : List ℕ → Fields → Result BencodeValue
unfolding get found_or
required key d = found_or Error.network (get key d)

unfoldable pub bytes20_from : Fields → List ℕ → Result (List ℕ)
unfolding required as_bytes
bytes20_from d key = do
  v ← required key d
  b ← as_bytes v
  if length b == 20 then ok b else err Error.network

unfoldable pub node_id_from : Fields → List ℕ → Result NodeId
unfolding bytes20_from
node_id_from = bytes20_from

-- `and_then(|v| v.as_int().ok()).unwrap_or(0)`.
unfoldable pub int_or_zero : Option BencodeValue → ℤ
int_or_zero (some (int i)) = i
int_or_zero _ = pos 0

-- `u16::try_from(port).unwrap_or(0)`.
unfoldable pub to_u16 : ℤ → ℕ
to_u16 (pos n) = if ltb n (2 ^ 16) then n else 0
to_u16 (negsuc n) = 0

unfoldable pub is_set : ℤ → Bool
is_set (pos n) = not (n == 0)
is_set (negsuc n) = true

unfoldable pub announce_from : NodeId → Fields → Result Query
unfolding bytes20_from required as_bytes int_or_zero to_u16 is_set get
announce_from id args = do
  info_hash ← bytes20_from args (codes "info_hash")
  v ← required (codes "token") args
  token ← as_bytes v
  ok (
      announce_peer id info_hash (to_u16 (int_or_zero (get (codes "port") args))) token
        (is_set (int_or_zero (get (codes "implied_port") args))))

unfoldable pub query_from : List ℕ → NodeId → Fields → Result Query
unfolding bytes_eq node_id_from bytes20_from announce_from
query_from name id args =
    if bytes_eq name (codes "ping")
    then ok (ping id)
    else if bytes_eq name (codes "find_node")
    then (do target ← node_id_from args (codes "target"); ok (find_node id target))
    else if bytes_eq name (codes "get_peers")
    then (do info_hash ← bytes20_from args (codes "info_hash"); ok (get_peers id info_hash))
    else if bytes_eq name (codes "announce_peer")
    then announce_from id args
    else err Error.network

unfoldable pub decode_query : Fields → List ℕ → Result Message
unfolding required as_bytes as_dict node_id_from query_from
decode_query d transaction_id = do
  v ← required (codes "q") d
  name ← as_bytes v
  a ← required (codes "a") d
  args ← as_dict a
  id ← node_id_from args (codes "id")
  q ← query_from name id args
  ok (query transaction_id q)

-- A value of another kind counts as none.
unfoldable pub nodes_field : ℕ → Option BencodeValue → Result (Option (List (Contact SocketAddr)))
unfolding parse_nodes_bytes
nodes_field now (some (bytes b)) = do ns ← parse_nodes_bytes now b; ok (some ns)
nodes_field now _ = ok none

unfoldable pub values_field : Option BencodeValue → Result (Option (List SocketAddr))
unfolding parse_values_list
values_field (some v) = do values ← parse_values_list v; ok (some values)
values_field none = ok none

unfoldable pub token_field : Option BencodeValue → Option (List ℕ)
token_field (some (bytes b)) = some b
token_field _ = none

unfoldable pub response_of :
    NodeId
    → Option (List (Contact SocketAddr))
    → Option (List SocketAddr)
    → Option (List ℕ)
    → Response
response_of id none none none = just_id id
response_of id (some ns) none none = nodes id ns
response_of id none (some values) (some token) = peers id token values
response_of id (some ns) none (some token) = peers_nodes id token ns
response_of id (some ns) (some values) (some token) = peers id token values
response_of id _ _ _ = just_id id

unfoldable pub decode_response : ℕ → Fields → List ℕ → Result Message
unfolding required as_dict node_id_from nodes_field values_field token_field response_of get
decode_response now d transaction_id = do
  v ← required (codes "r") d
  r ← as_dict v
  id ← node_id_from r (codes "id")
  ns ← nodes_field now (get (codes "nodes") r)
  values ← values_field (get (codes "values") r)
  ok (response transaction_id (response_of id ns values (token_field (get (codes "token") r))))

-- `unwrap_or("")`.
unfoldable pub text_or_empty : Result (List ℕ) → List ℕ
text_or_empty (ok s) = s
text_or_empty (err e) = []

unfoldable pub error_from : List ℕ → Items → Result Message
unfolding as_int as_str text_or_empty
error_from transaction_id (item c (item m rest)) = do
  code ← as_int c
  ok (error transaction_id code (text_or_empty (as_str m)))
error_from transaction_id _ = err Error.network

unfoldable pub decode_error : Fields → List ℕ → Result Message
unfolding required as_list error_from
decode_error d transaction_id = do
  v ← required (codes "e") d
  xs ← as_list v
  error_from transaction_id xs

unfoldable pub decode_kind : ℕ → Fields → List ℕ → List ℕ → Result Message
unfolding bytes_eq decode_query decode_response decode_error
decode_kind now d transaction_id kind =
    if bytes_eq kind (codes "q")
    then decode_query d transaction_id
    else if bytes_eq kind (codes "r")
    then decode_response now d transaction_id
    else if bytes_eq kind (codes "e")
    then decode_error d transaction_id
    else err Error.network

unfoldable pub decode_value : ℕ → BencodeValue → Result Message
unfolding as_dict required as_bytes decode_kind
decode_value now v = do
  d ← as_dict v
  t ← required (codes "t") d
  transaction_id ← as_bytes t
  y ← required (codes "y") d
  kind ← as_bytes y
  decode_kind now d transaction_id kind

-- The parser's answer; it is never for want of fuel.
unfoldable pub whole_value : Parsed BencodeValue → Result BencodeValue
whole_value (parsed v rest) = ok v
whole_value refused = err Error.network
whole_value starved = err Error.panicked

-- `Message::decode`.
unfoldable pub decode : ℕ → List ℕ → Result Message
unfolding parse_all whole_value decode_value
decode now buf = do v ← whole_value (parse_all buf); decode_value now v
