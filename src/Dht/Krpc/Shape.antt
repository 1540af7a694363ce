-- ===== src/Dht/Krpc/Shape.antt =====
-- src/dht/krpc.rs: the value of a message is one that the parser reads back.
use rustytorrent.Base.{ℕ, ◌≤◌, refl, inl, inr, Bool, true, false, List, [], ◌∷◌, arith}
use rustytorrent.Base.Bytes.{bytes_eq, be16}
use rustytorrent.Base.Decimal.{IsI64}
use rustytorrent.Net.Screen.{SocketAddr}
use rustytorrent.Metainfo.Bencode.{BencodeValue, Items, item, bytes, bytes_lt, follows}
use rustytorrent.Metainfo.Bencode.Validity.{IsValid, ItemsAreValid, height, items_height}
use rustytorrent.Dht.Krpc.{
  Query, ping, find_node, get_peers, announce_peer, Response, just_id, nodes, peers, peers_nodes,
  Message, query, response, error, insert, inserted, build_dict, values_items, values_to_list,
}
use rustytorrent.Dht.Krpc.Messages.{bit, query_name, query_args, response_dict, message_dict}
use rustytorrent.Dht.Krpc.Contacts.{is_v4-cases, values_items-v4, values_items-v6}
use rustytorrent.Dht.Krpc.Sendable.{IsShort, FitsQuery, FitsResponse, FitsMessage}

values_items-AreValid :
    (addrs : List SocketAddr)
    → ItemsAreValid (values_items addrs) × (items_height (values_items addrs) ≤ 1)
values_items-AreValid [] = unfold values_items IsValid height in (tt, omega arith)
values_items-AreValid (addr ∷ addrs) =
    let ih = values_items-AreValid addrs in
    elim (is_v4-cases addr.ip) [
      | inl (a, b, c, d, ip) ↦
          rw (values_items-v4 addr addrs a b c d ip)
            (one (a ∷ b ∷ c ∷ d ∷ be16 addr.port) (values_items addrs) (omega arith) ih)
      | inr (p, q, r, s, t, u, v, w, ip) ↦ rw (values_items-v6 addr addrs p q r s t u v w ip) ih
    ]
  where
    one :
        (b : List ℕ) (xs : Items)
        → IsShort b
        → ItemsAreValid xs × (items_height xs ≤ 1)
        → ItemsAreValid (item (bytes b) xs) × (items_height (item (bytes b) xs) ≤ 1)
    one b xs short ih = unfold IsValid height in (let deep = ih.1 in ((short, ih.0), omega arith))

-- A value that may stand in a message: it is valid, and not deep.
abbrev IsFlat : BencodeValue → Type 0
IsFlat v = IsValid v × (height v ≤ 2)

query_args-IsFlat : (q : Query) → FitsQuery q → IsFlat (query_args q)
unfolding query_args build_dict inserted insert bytes_lt bytes_eq IsValid height follows
query_args-IsFlat (ping id) h = ((omega arith, refl, omega arith, tt), omega arith)
query_args-IsFlat (find_node id target) h =
    let (a, b) = h in
    ((omega arith, refl, omega arith, (omega arith, refl, omega arith, tt)), omega arith)
query_args-IsFlat (get_peers id info_hash) h =
    let (a, b) = h in
    ((omega arith, refl, omega arith, (omega arith, refl, omega arith, tt)), omega arith)
query_args-IsFlat (announce_peer id info_hash port token implied_port) h =
    let (a, b, c, short) = h in
    (
      (
        omega arith,
        refl,
        omega arith,
        (
          omega arith,
          refl,
          flag implied_port,
          (
            omega arith,
            refl,
            omega arith,
            (omega arith, refl, omega arith, (omega arith, refl, short, tt)),
          ),
        ),
      ),
      omega arith,
    )
  where
    flag : (b : Bool) → IsI64 (bit b)
    flag true = omega arith
    flag false = omega arith

response_dict-IsFlat : (r : Response) → FitsResponse r → IsFlat (response_dict r)
unfolding response_dict values_to_list build_dict inserted insert bytes_lt bytes_eq IsValid height
    follows
response_dict-IsFlat (just_id id) h = ((omega arith, refl, omega arith, tt), omega arith)
response_dict-IsFlat (nodes id ns) h =
    let is20 = h.0 in ((omega arith, refl, omega arith, (omega arith, refl, h.2, tt)), omega arith)
response_dict-IsFlat (peers id token values) h =
    let is20 = h.0 in
    let items = values_items-AreValid values in
    let deep = items.1 in
    (
      (omega arith, refl, omega arith, (omega arith, refl, h.1, (omega arith, refl, items.0, tt))),
      omega arith,
    )
response_dict-IsFlat (peers_nodes id token ns) h =
    let is20 = h.0 in
    (
      (omega arith, refl, omega arith, (omega arith, refl, h.3, (omega arith, refl, h.1, tt))),
      omega arith,
    )

pub message_dict-IsFlat :
    (m : Message) → FitsMessage m → IsValid (message_dict m) × (height (message_dict m) ≤ 100)
unfolding message_dict build_dict inserted insert bytes_lt bytes_eq IsValid height follows
message_dict-IsFlat (query t q) h =
    let args = query_args-IsFlat q h.1 in
    let deep = args.1 in
    (
      (
        omega arith,
        refl,
        args.0,
        (omega arith, refl, name q, (omega arith, refl, h.0, (omega arith, refl, omega arith, tt))),
      ),
      omega arith,
    )
  where
    name : (q : Query) → IsShort (query_name q)
    name (ping id) = unfold query_name in omega arith
    name (find_node id target) = unfold query_name in omega arith
    name (get_peers id info_hash) = unfold query_name in omega arith
    name (announce_peer id info_hash port token implied_port) = unfold query_name in omega arith
message_dict-IsFlat (response t r) h =
    let inner = response_dict-IsFlat r h.1 in
    let deep = inner.1 in
    (
      (omega arith, refl, inner.0, (omega arith, refl, h.0, (omega arith, refl, omega arith, tt))),
      omega arith,
    )
message_dict-IsFlat (error t code text) h = (
  (
    omega arith,
    refl,
    (h.1, (h.2, tt)),
    (omega arith, refl, h.0, (omega arith, refl, omega arith, tt)),
  ),
  omega arith,
)
