-- ===== src/Dht/Krpc/Sound.antt =====
-- src/dht/krpc.rs: what is decoded is well formed.
use rustytorrent.Base.{
  ℕ, zero, suc, ◌*◌, ◌/◌, ◌%◌, ◌≤◌, ◌^◌, ◌<◌, ◌≡◌, ◌≢◌, refl, true, Option, none, some, List, [],
  ◌∷◌, arith, ◌==◌, ◌!=◌, length, take, drop, length-take, length-drop, All, of_if,
}
use rustytorrent.Base.Text.{codes}
use rustytorrent.Base.Bytes.{bytes_eq, of_be16}
use rustytorrent.Base.Decimal.{ℤ, pos, negsuc}
use rustytorrent.Base.Outcome.{Error, ok, err, Holds, Holds-bind, Holds-after}
use rustytorrent.Net.Screen.{SocketAddr}
use rustytorrent.Dht.Bucket.{Contact}
use rustytorrent.Metainfo.Bencode.{
  BencodeValue, Items, Fields, no_items, item, int, bytes, list, dict, as_int, as_bytes, as_list,
  as_dict, get, parse_all,
}
use rustytorrent.Dht.Krpc.{
  Query, ping, find_node, get_peers, announce_peer, Response, just_id, nodes, peers, peers_nodes,
  Message, query, response, error, with_addr, nodes_from, parse_nodes_bytes, values_from,
  parse_values_list,
}
use rustytorrent.Dht.Krpc.Messages.{
  required, bytes20_from, node_id_from, int_or_zero, to_u16, announce_from, query_from,
  decode_query, nodes_field, values_field, token_field, response_of, decode_response, error_from,
  decode_error, decode_kind, decode_value, whole_value, decode,
}
use rustytorrent.Dht.Krpc.Contacts.{is_v4}
use rustytorrent.Dht.Krpc.Sendable.{Is20}

-- An address that can be dialled: of IPv4, with a port.
abbrev pub IsReachable : SocketAddr → Type 0
IsReachable a = (is_v4 a.ip ≡ true) × (a.port ≢ 0)

abbrev pub IsContact : Contact SocketAddr → Type 0
IsContact c = Is20 c.id × IsReachable c.addr

abbrev pub IsQuery : Query → Type 0
IsQuery (ping id) = Is20 id
IsQuery (find_node id target) = Is20 id × Is20 target
IsQuery (get_peers id info_hash) = Is20 id × Is20 info_hash
IsQuery (announce_peer id info_hash port token implied_port) =
    Is20 id × Is20 info_hash × (port < 2 ^ 16)

abbrev pub IsResponse : Response → Type 0
IsResponse (just_id id) = Is20 id
IsResponse (nodes id ns) = Is20 id × All IsContact ns
IsResponse (peers id token values) = Is20 id × All IsReachable values
IsResponse (peers_nodes id token ns) = Is20 id × All IsContact ns

abbrev pub IsMessage : Message → Type 0
IsMessage (query t q) = IsQuery q
IsMessage (response t r) = IsResponse r
IsMessage (error t code text) = Unit

bytes20_from-Is20 : (d : Fields) (key : List ℕ) → Holds Is20 (bytes20_from d key)
unfolding bytes20_from
bytes20_from-Is20 d key = Holds-after Is20 (required key d) _ λ v.
    Holds-after Is20 (as_bytes v) _ λ b.
      of_if (Holds Is20) (length b == 20) (ok b) (err Error.network) (λ e. ground arith) (λ _. tt)

with_addr-All {ℓ} :
    {A : Type ℓ} (P : A → Type 0) (f : SocketAddr → A) (b : List ℕ) (rest : List A)
    → ((a : SocketAddr) → IsReachable a → P (f a))
    → All P rest
    → All P (with_addr f b rest)
unfolding with_addr
with_addr-All P f (a ∷ b ∷ c ∷ d ∷ e ∷ g ∷ []) rest each h =
    of_if (All P) (of_be16 e g == 0) _ _ (λ _. h) λ port. (each _ (refl, (λ z. ground arith)), h)
with_addr-All P f [] rest each h = h
with_addr-All P f (a ∷ []) rest each h = h
with_addr-All P f (a ∷ b ∷ []) rest each h = h
with_addr-All P f (a ∷ b ∷ c ∷ []) rest each h = h
with_addr-All P f (a ∷ b ∷ c ∷ d ∷ []) rest each h = h
with_addr-All P f (a ∷ b ∷ c ∷ d ∷ e ∷ []) rest each h = h
with_addr-All P f (a ∷ b ∷ c ∷ d ∷ e ∷ g ∷ k ∷ ks) rest each h = h

nodes_from-All :
    (now n : ℕ) (buf : List ℕ) → 26 * n ≤ length buf → All IsContact (nodes_from now n buf)
unfolding nodes_from
nodes_from-All now zero buf h = tt
nodes_from-All now (suc n) buf h =
    let is20 : length (take 20 buf) ≡ 20 = omega (arith, length-take 20 buf) in
    with_addr-All IsContact (λ addr. record { id = take 20 buf; addr = addr; last_seen = now })
      (take 6 (drop 20 buf)) (nodes_from now n (drop 26 buf)) (λ a reachable. (is20, reachable))
      (nodes_from-All now n (drop 26 buf) (omega (arith, length-drop 26 buf)))

parse_nodes_bytes-All : (now : ℕ) (buf : List ℕ) → Holds (All IsContact) (parse_nodes_bytes now buf)
unfolding parse_nodes_bytes
parse_nodes_bytes-All now buf =
    of_if (Holds (All IsContact)) (length buf % 26 != 0) _ _ (λ _. tt)
      λ _. nodes_from-All now (length buf / 26) buf (omega arith)

values_from-All : (xs : Items) → Holds (All IsReachable) (values_from xs)
unfolding values_from
values_from-All no_items = tt
values_from-All (item v xs) = Holds-after (All IsReachable) (as_bytes v) _ λ b.
    Holds-bind (All IsReachable) (All IsReachable) (values_from xs) _ (values_from-All xs)
      λ rest h. with_addr-All IsReachable (λ a. a) b rest (λ a r. r) h

parse_values_list-All : (v : BencodeValue) → Holds (All IsReachable) (parse_values_list v)
unfolding parse_values_list
parse_values_list-All v = Holds-after (All IsReachable) (as_list v) values_from values_from-All

to_u16-lt : (i : ℤ) → to_u16 i < 2 ^ 16
unfolding to_u16
to_u16-lt (pos n) = ground arith
to_u16-lt (negsuc n) = omega arith

query_from-IsQuery :
    (name id : List ℕ) (args : Fields) → Is20 id → Holds IsQuery (query_from name id args)
unfolding query_from announce_from node_id_from
query_from-IsQuery name id args is20 =
    of_if (Holds IsQuery) (bytes_eq name (codes "ping")) _ _ (λ _. is20)
      λ _.
        of_if (Holds IsQuery) (bytes_eq name (codes "find_node")) _ _
          (λ _.
            Holds-bind Is20 IsQuery (bytes20_from args (codes "target")) _
              (bytes20_from-Is20 args (codes "target")) λ b h. (is20, h))
          λ _.
            of_if (Holds IsQuery) (bytes_eq name (codes "get_peers")) _ _
              (λ _.
                Holds-bind Is20 IsQuery (bytes20_from args (codes "info_hash")) _
                  (bytes20_from-Is20 args (codes "info_hash")) λ b h. (is20, h))
              λ _.
                of_if (Holds IsQuery) (bytes_eq name (codes "announce_peer")) _ _
                  (λ _.
                    Holds-bind Is20 IsQuery (bytes20_from args (codes "info_hash")) _
                      (bytes20_from-Is20 args (codes "info_hash"))
                      λ b h. Holds-after IsQuery (required (codes "token") args) _ λ v.
                        Holds-after IsQuery (as_bytes v) _
                          λ token. (is20, h, to_u16-lt (int_or_zero (get (codes "port") args))))
                  (λ _. tt)

decode_query-IsMessage : (d : Fields) (t : List ℕ) → Holds IsMessage (decode_query d t)
unfolding decode_query node_id_from
decode_query-IsMessage d t = Holds-after IsMessage (required (codes "q") d) _ λ v.
    Holds-after IsMessage (as_bytes v) _ λ name.
      Holds-after IsMessage (required (codes "a") d) _ λ a.
        Holds-after IsMessage (as_dict a) _ λ args.
          Holds-bind Is20 IsMessage (bytes20_from args (codes "id")) _
            (bytes20_from-Is20 args (codes "id"))
            λ id is20.
              Holds-bind IsQuery IsMessage (query_from name id args) _
                (query_from-IsQuery name id args is20) λ q h. h

-- What there is of nodes, and of values, is good.
abbrev AllNodes : Option (List (Contact SocketAddr)) → Type 0
AllNodes none = Unit
AllNodes (some ns) = All IsContact ns

abbrev AllValues : Option (List SocketAddr) → Type 0
AllValues none = Unit
AllValues (some values) = All IsReachable values

nodes_field-AllNodes : (now : ℕ) (o : Option BencodeValue) → Holds AllNodes (nodes_field now o)
unfolding nodes_field
nodes_field-AllNodes now none = tt
nodes_field-AllNodes now (some (bytes b)) =
    Holds-bind (All IsContact) AllNodes (parse_nodes_bytes now b) _ (parse_nodes_bytes-All now b)
      λ ns h. h
nodes_field-AllNodes now (some (int i)) = tt
nodes_field-AllNodes now (some (list xs)) = tt
nodes_field-AllNodes now (some (dict fs)) = tt

values_field-AllValues : (o : Option BencodeValue) → Holds AllValues (values_field o)
unfolding values_field
values_field-AllValues none = tt
values_field-AllValues (some v) =
    Holds-bind (All IsReachable) AllValues (parse_values_list v) _ (parse_values_list-All v)
      λ vs h. h

response_of-IsResponse :
    (id : List ℕ) (ns : Option (List (Contact SocketAddr))) (values : Option (List SocketAddr))
    (token : Option (List ℕ))
    → Is20 id
    → AllNodes ns
    → AllValues values
    → IsResponse (response_of id ns values token)
unfolding response_of
response_of-IsResponse id none none none is20 a b = is20
response_of-IsResponse id none none (some t) is20 a b = is20
response_of-IsResponse id none (some vs) none is20 a b = is20
response_of-IsResponse id none (some vs) (some t) is20 a b = (is20, b)
response_of-IsResponse id (some ns) none none is20 a b = (is20, a)
response_of-IsResponse id (some ns) none (some t) is20 a b = (is20, a)
response_of-IsResponse id (some ns) (some vs) none is20 a b = is20
response_of-IsResponse id (some ns) (some vs) (some t) is20 a b = (is20, b)

decode_response-IsMessage :
    (now : ℕ) (d : Fields) (t : List ℕ) → Holds IsMessage (decode_response now d t)
unfolding decode_response node_id_from
decode_response-IsMessage now d t = Holds-after IsMessage (required (codes "r") d) _ λ v.
    Holds-after IsMessage (as_dict v) _ λ r.
      Holds-bind Is20 IsMessage (bytes20_from r (codes "id")) _ (bytes20_from-Is20 r (codes "id"))
        λ id is20.
          Holds-bind AllNodes IsMessage (nodes_field now (get (codes "nodes") r)) _
            (nodes_field-AllNodes now (get (codes "nodes") r))
            λ ns a.
              Holds-bind AllValues IsMessage (values_field (get (codes "values") r)) _
                (values_field-AllValues (get (codes "values") r))
                λ values b.
                  response_of-IsResponse id ns values (token_field (get (codes "token") r)) is20 a b

error_from-IsMessage : (t : List ℕ) (xs : Items) → Holds IsMessage (error_from t xs)
unfolding error_from
error_from-IsMessage t no_items = tt
error_from-IsMessage t (item c no_items) = tt
error_from-IsMessage t (item c (item m rest)) = Holds-after IsMessage (as_int c) _ λ code. tt

decode_error-IsMessage : (d : Fields) (t : List ℕ) → Holds IsMessage (decode_error d t)
unfolding decode_error
decode_error-IsMessage d t =
    Holds-after IsMessage (required (codes "e") d) _
      λ v. Holds-after IsMessage (as_list v) _ λ xs. error_from-IsMessage t xs

decode_value-IsMessage : (now : ℕ) (v : BencodeValue) → Holds IsMessage (decode_value now v)
unfolding decode_value decode_kind
decode_value-IsMessage now v = Holds-after IsMessage (as_dict v) _ λ d.
    Holds-after IsMessage (required (codes "t") d) _ λ t'.
      Holds-after IsMessage (as_bytes t') _ λ t.
        Holds-after IsMessage (required (codes "y") d) _ λ y.
          Holds-after IsMessage (as_bytes y) _ λ kind.
            of_if (Holds IsMessage) (bytes_eq kind (codes "q")) _ _
              (λ _. decode_query-IsMessage d t)
              λ _.
                of_if (Holds IsMessage) (bytes_eq kind (codes "r")) _ _
                  (λ _. decode_response-IsMessage now d t)
                  λ _.
                    of_if (Holds IsMessage) (bytes_eq kind (codes "e")) _ _
                      (λ _. decode_error-IsMessage d t) (λ _. tt)

-- Whatever datagram a DHT node sends, what is decoded of it has identifiers and hashes of exactly
-- 20 bytes and a port of 16 bits, and each contact and peer has an IPv4 address and a port that is
-- not zero.
pub decode-IsMessage : (now : ℕ) (buf : List ℕ) (m : Message) → decode now buf ≡ ok m → IsMessage m
unfolding decode
decode-IsMessage now buf m h =
    let holds =
      Holds-after IsMessage (whole_value (parse_all buf)) (decode_value now)
        (decode_value-IsMessage now) in
    rw h at holds
