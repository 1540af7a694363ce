-- ===== src/Dht/Krpc/Reading.antt =====
-- src/dht/krpc.rs: decoding the value of a message.
use rustytorrent.Base.{
  ℕ, ◌^◌, ◌<◌, ◌≡◌, refl, Bool, true, false, some, List, arith, ◌==◌, length, lt→ltb,
}
use rustytorrent.Base.Text.{codes, is_utf8}
use rustytorrent.Base.Bytes.{bytes_eq}
use rustytorrent.Base.Decimal.{ℤ, pos}
use rustytorrent.Base.Outcome.{ok, found_or}
use rustytorrent.Metainfo.Bencode.{
  Fields, no_fields, field, int, bytes, dict, bytes_lt, as_int, as_bytes, as_list, as_dict, get,
}
use rustytorrent.Metainfo.Bencode.Text.{as_str}
use rustytorrent.Dht.Krpc.{
  Query, ping, find_node, get_peers, announce_peer, Response, just_id, nodes, peers, peers_nodes,
  query, response, error, insert, inserted, build_dict, values_to_list,
}
use rustytorrent.Dht.Krpc.Messages.{
  bit, query_name, query_args, response_dict, message_dict, required, bytes20_from, node_id_from,
  int_or_zero, to_u16, is_set, announce_from, query_from, decode_query, nodes_field, values_field,
  token_field, response_of, decode_response, text_or_empty, error_from, decode_error, decode_kind,
  decode_value,
}
use rustytorrent.Dht.Krpc.Contacts.{
  parse_nodes_bytes-nodes_to_bytes, parse_values_list-values_to_list,
}
use rustytorrent.Dht.Krpc.Sendable.{Is20, FitsQuery, FitsResponse, received_response}

-- A field of 20 bytes is read back.
bytes20_from-get :
    (d : Fields) (key b : List ℕ) → get key d ≡ some (bytes b) → Is20 b → bytes20_from d key ≡ ok b
unfolding bytes20_from required found_or as_bytes
bytes20_from-get d key b has is20 =
    let test : (length b == 20) ≡ true = ground arith in rw (has, test) refl

-- The arguments of a query as the map that they are.
query_fields : Query → Fields
query_fields (ping id) = field (codes "id") (bytes id) no_fields
query_fields (find_node id target) =
    field (codes "id") (bytes id) (field (codes "target") (bytes target) no_fields)
query_fields (get_peers id info_hash) =
    field (codes "id") (bytes id) (field (codes "info_hash") (bytes info_hash) no_fields)
query_fields (announce_peer id info_hash port token implied_port) = field (codes "id") (bytes id) (
    field (codes "implied_port") (int (bit implied_port)) (
      field (codes "info_hash") (bytes info_hash)
        (field (codes "port") (int (pos port)) (field (codes "token") (bytes token) no_fields))))

query_args-fields : (q : Query) → query_args q ≡ dict (query_fields q)
unfolding query_args query_fields build_dict inserted insert bytes_lt bytes_eq
query_args-fields (ping id) = refl
query_args-fields (find_node id target) = refl
query_args-fields (get_peers id info_hash) = refl
query_args-fields (announce_peer id info_hash port token implied_port) = refl

-- The identifier of who asks.
abbrev query_id : Query → List ℕ
query_id (ping id) = id
query_id (find_node id target) = id
query_id (get_peers id info_hash) = id
query_id (announce_peer id info_hash port token implied_port) = id

node_id_from-query_fields :
    (q : Query) → FitsQuery q → node_id_from (query_fields q) (codes "id") ≡ ok (query_id q)
unfolding node_id_from query_fields get bytes_eq
node_id_from-query_fields (ping id) h =
    bytes20_from-get (query_fields (ping id)) (codes "id") id refl h
node_id_from-query_fields (find_node id target) h =
    bytes20_from-get (query_fields (find_node id target)) (codes "id") id refl h.0
node_id_from-query_fields (get_peers id info_hash) h =
    bytes20_from-get (query_fields (get_peers id info_hash)) (codes "id") id refl h.0
node_id_from-query_fields (announce_peer id info_hash port token implied_port) h =
    bytes20_from-get (query_fields (announce_peer id info_hash port token implied_port))
      (codes "id") id refl h.0

announce_from-fields :
    (id info_hash : List ℕ) (port : ℕ) (token : List ℕ) (implied_port : Bool)
    → Is20 info_hash
    → port < 2 ^ 16
    → announce_from id (query_fields (announce_peer id info_hash port token implied_port))
      ≡ ok (announce_peer id info_hash port token implied_port)
unfolding announce_from query_fields get bytes_eq required found_or as_bytes int_or_zero to_u16
    is_set
announce_from-fields id info_hash port token implied_port is20 fits =
    let hash =
      bytes20_from-get (query_fields (announce_peer id info_hash port token implied_port))
        (codes "info_hash") info_hash refl is20 in
    rw (hash, lt→ltb port (2 ^ 16) fits) (flag implied_port)
  where
    flag :
        (b : Bool)
        → ok (announce_peer id info_hash port token (is_set (bit b)))
          ≡ ok (announce_peer id info_hash port token b)
    flag true = refl
    flag false = refl

query_from-fields :
    (q : Query) → FitsQuery q → query_from (query_name q) (query_id q) (query_fields q) ≡ ok q
unfolding query_from query_name query_fields get bytes_eq node_id_from
query_from-fields (ping id) h = refl
query_from-fields (find_node id target) h =
    rw (bytes20_from-get (query_fields (find_node id target)) (codes "target") target refl h.1) refl
query_from-fields (get_peers id info_hash) h =
    rw
      (bytes20_from-get (query_fields (get_peers id info_hash)) (codes "info_hash") info_hash refl
        h.1)
      refl
query_from-fields (announce_peer id info_hash port token implied_port) h =
    announce_from-fields id info_hash port token implied_port h.1 h.2

pub decode_value-query :
    (now : ℕ) (t : List ℕ) (q : Query)
    → FitsQuery q
    → decode_value now (message_dict (query t q)) ≡ ok (query t q)
unfolding decode_value message_dict build_dict inserted insert bytes_lt bytes_eq as_dict required
    get found_or as_bytes decode_kind decode_query
decode_value-query now t q h =
    rw (query_args-fields q, node_id_from-query_fields q h, query_from-fields q h) refl

-- The response as the map that it is.
pub decode_value-response :
    (now : ℕ) (t : List ℕ) (r : Response)
    → FitsResponse r
    → decode_value now (message_dict (response t r)) ≡ ok (response t (received_response now r))
unfolding decode_value message_dict response_dict build_dict inserted insert bytes_lt bytes_eq
    as_dict required get found_or as_bytes decode_kind decode_response node_id_from nodes_field
    values_field token_field response_of values_to_list
decode_value-response now t (just_id id) h = rw (bytes20_from-get _ (codes "id") id refl h) refl
decode_value-response now t (nodes id ns) h =
    rw (bytes20_from-get _ (codes "id") id refl h.0, parse_nodes_bytes-nodes_to_bytes now ns h.1)
      refl
decode_value-response now t (peers id token values) h =
    rw (bytes20_from-get _ (codes "id") id refl h.0, parse_values_list-values_to_list values h.2)
      refl
decode_value-response now t (peers_nodes id token ns) h =
    rw (bytes20_from-get _ (codes "id") id refl h.0, parse_nodes_bytes-nodes_to_bytes now ns h.2)
      refl

pub decode_value-error :
    (now : ℕ) (t : List ℕ) (code : ℤ) (text : List ℕ)
    → is_utf8 text ≡ true
    → decode_value now (message_dict (error t code text)) ≡ ok (error t code text)
unfolding decode_value message_dict build_dict inserted insert bytes_lt bytes_eq as_dict required
    get found_or as_bytes as_list as_int as_str decode_kind decode_error error_from text_or_empty
decode_value-error now t code text h = rw h refl
