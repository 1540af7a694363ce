-- ===== src/Tracker/Udp/Packets.antt =====
-- src/tracker/udp.rs: the announce has the layout of BEP 15, and a response is read as BEP 15 has it.
use rustytorrent.Base.{
  ℕ, ◌+◌, ◌*◌, ◌/◌, ◌%◌, ◌^◌, ◌<◌, ◌≡◌, refl, sym, ap, ap₂, ◌∙◌, true, false, none, some, List, [],
  ◌∷◌, ◌++◌, arith, ltb, ◌==◌, length, length-append, take, drop, drop-drop, take-append_of,
  drop-append_of, All,
}
use rustytorrent.Base.Bytes.{be16, be32, of_be16, of_be32, byte_at, of_be16-be16, of_be32-be32}
use rustytorrent.Base.Outcome.{ok}
use rustytorrent.Tracker.Udp.{
  Event, quiet, started, completed, stopped, be64, u32_from, AnnounceRequest, as_udp_code,
  build_announce_packet, read_peers, parse_announce_response,
}

-- The bytes of a peer, and of a response with its action and its transaction, as BEP 15 lays them
-- out.
abbrev pub peer_bytes : List (List ℕ × ℕ) → List ℕ
peer_bytes [] = []
peer_bytes ((ip, port) ∷ peers) = ip ++ (be16 port ++ peer_bytes peers)

abbrev pub response_bytes : ℕ → ℕ → ℕ → ℕ → ℕ → List (List ℕ × ℕ) → List ℕ
response_bytes action transaction interval leechers seeders peers =
    be32 action
    ++ (be32 transaction
        ++ (be32 interval ++ (be32 leechers ++ (be32 seeders ++ peer_bytes peers))))

abbrev pub IsPeer : List ℕ × ℕ → Type 0
IsPeer p = (length p.0 ≡ 4) × (p.1 < 2 ^ 16)

length-peer_bytes :
    (peers : List (List ℕ × ℕ)) → All IsPeer peers → length (peer_bytes peers) ≡ 6 * length peers
length-peer_bytes [] h = refl
length-peer_bytes ((ip, port) ∷ peers) h =
    let rest = length-peer_bytes peers h.1 in
    let size = length-append ip (be16 port ++ peer_bytes peers) in omega (arith, rest, size, h.0.0)

read_peers-peer_bytes :
    (peers : List (List ℕ × ℕ)) → All IsPeer peers → read_peers (peer_bytes peers) ≡ peers
unfolding read_peers
read_peers-peer_bytes [] h = refl
read_peers-peer_bytes ((a ∷ b ∷ c ∷ d ∷ [], port) ∷ peers) h =
    ap₂ (λ p ps. (a ∷ b ∷ c ∷ d ∷ [], p) ∷ ps) (of_be16-be16 port h.0.1)
      (read_peers-peer_bytes peers h.1)
read_peers-peer_bytes (([], port) ∷ peers) h = absurd (omega (arith, h.0.0))
read_peers-peer_bytes ((a ∷ [], port) ∷ peers) h = absurd (omega (arith, h.0.0))
read_peers-peer_bytes ((a ∷ b ∷ [], port) ∷ peers) h = absurd (omega (arith, h.0.0))
read_peers-peer_bytes ((a ∷ b ∷ c ∷ [], port) ∷ peers) h = absurd (omega (arith, h.0.0))
read_peers-peer_bytes ((a ∷ b ∷ c ∷ d ∷ e ∷ r, port) ∷ peers) h = absurd (omega (arith, h.0.0))

-- A response that a tracker lays out as BEP 15 says, with any action and transaction in front, is
-- read back: the interval, both counts, and every peer with its port, in their order.
pub parse_announce_response_lem :
    (action transaction interval leechers seeders : ℕ) (peers : List (List ℕ × ℕ))
    → interval < 2 ^ 32
    → leechers < 2 ^ 32
    → seeders < 2 ^ 32
    → All IsPeer peers
    → parse_announce_response (response_bytes action transaction interval leechers seeders peers)
      ≡ ok (record {
        interval = interval;
        min_interval = none;
        seeders = some seeders;
        leechers = some leechers;
        peers = peers;
      })
unfolding parse_announce_response
parse_announce_response_lem action transaction interval leechers seeders peers hi hl hs hp =
    let size = length-peer_bytes peers hp in
    let packet = response_bytes action transaction interval leechers seeders peers in
    let long : ltb (length packet) 20 ≡ false = ground arith in
    let whole : (length (peer_bytes peers) % 6 == 0) ≡ true = ground (arith, size) in
    rw
      (
        long,
        whole,
        of_be32-be32 interval hi,
        of_be32-be32 leechers hl,
        of_be32-be32 seeders hs,
        read_peers-peer_bytes peers hp,
      )
      refl

-- The announce as BEP 15 lays it out, read by the places of the fields: 16 bytes in front, the two
-- hashes, and `tail` behind them.
abbrev u64_from : List ℕ → ℕ → ℕ
u64_from p i = u32_from p i * 2 ^ 32 + u32_from p (i + 4)

pub record IsWellTyped (req : AnnounceRequest) : Type 0 where
  pub info_hash_len : length req.info_hash ≡ 20
  pub peer_id_len : length req.peer_id ≡ 20
  pub port_lt : req.port < 2 ^ 16
  pub uploaded_lt : req.uploaded < 2 ^ 64
  pub downloaded_lt : req.downloaded < 2 ^ 64
  pub left_lt : req.left < 2 ^ 64
  pub num_want_lt : req.num_want < 2 ^ 32

-- What stands at the places that BEP 15 names in an announce packet.
abbrev pub HasLayout : ℕ → ℕ → ℕ → AnnounceRequest → List ℕ → Type 0
HasLayout connection_id transaction_id key req p =
    (length p ≡ 98)
    × (u64_from p 0 ≡ connection_id)
    × (u32_from p 8 ≡ 1)
    × (u32_from p 12 ≡ transaction_id)
    × (take 20 (drop 16 p) ≡ req.info_hash)
    × (take 20 (drop 36 p) ≡ req.peer_id)
    × (u64_from (drop 56 p) 0 ≡ req.downloaded)
    × (u64_from (drop 56 p) 8 ≡ req.left)
    × (u64_from (drop 56 p) 16 ≡ req.uploaded)
    × (u32_from (drop 56 p) 24 ≡ as_udp_code req.event)
    × (u32_from (drop 56 p) 28 ≡ 0)
    × (u32_from (drop 56 p) 32 ≡ key)
    × (u32_from (drop 56 p) 36 ≡ req.num_want)
    × (of_be16 (byte_at (drop 56 p) 40) (byte_at (drop 56 p) 41) ≡ req.port)

of_be64-be64 :
    (n : ℕ)
    → n < 2 ^ 64
    → of_be32
            (n / 2 ^ 32 / 2 ^ 24 % 256)
            (n / 2 ^ 32 / 2 ^ 16 % 256)
            (n / 2 ^ 32 / 256 % 256)
            (n / 2 ^ 32 % 256)
          * 2 ^ 32
        + of_be32 (n / 2 ^ 24 % 256) (n / 2 ^ 16 % 256) (n / 256 % 256) (n % 256)
      ≡ n
of_be64-be64 n h = omega arith

as_udp_code-lt : (req : AnnounceRequest) → as_udp_code req.event < 4
unfolding as_udp_code
as_udp_code-lt req = by_event req.event
  where
    by_event : (e : Event) → as_udp_code e < 4
    by_event quiet = omega arith
    by_event started = omega arith
    by_event completed = omega arith
    by_event stopped = omega arith

-- The announce packet has 98 bytes, and each field stands at the place that BEP 15 gives it, for
-- every request, transaction, key and connection of representable values.
pub build_announce_packet_lem :
    (connection_id transaction_id key : ℕ) (req : AnnounceRequest)
    → connection_id < 2 ^ 64
    → transaction_id < 2 ^ 32
    → key < 2 ^ 32
    → IsWellTyped req
    → HasLayout connection_id transaction_id key req
        (build_announce_packet connection_id transaction_id key req)
unfolding build_announce_packet
build_announce_packet_lem connection_id transaction_id key req hc ht hk w =
    let tail =
      be64 req.downloaded
      ++ (be64 req.left
          ++ (be64 req.uploaded
              ++ (be32 (as_udp_code req.event)
                  ++ (be32 0 ++ (be32 key ++ (be32 req.num_want ++ be16 req.port)))))) in
    let code = as_udp_code-lt req in
    let rest = req.info_hash ++ (req.peer_id ++ tail) in
    let size_id = length-append req.peer_id tail in
    let size = length-append req.info_hash (req.peer_id ++ tail) in
    let hash = take-append_of 20 req.info_hash (req.peer_id ++ tail) w.info_hash_len in
    let skip = drop-append_of 20 req.info_hash (req.peer_id ++ tail) w.info_hash_len in
    let id = take-append_of 20 req.peer_id tail w.peer_id_len in
    let skip_id : drop 40 rest ≡ tail =
      sym (drop-drop 20 20 40 rest (omega arith))
      ∙ ap (drop 20) skip
      ∙ drop-append_of 20 req.peer_id tail w.peer_id_len in
    (
      omega (arith, size, size_id, w.info_hash_len, w.peer_id_len),
      of_be64-be64 connection_id hc,
      refl,
      of_be32-be32 transaction_id ht,
      hash,
      ap (take 20) skip ∙ id,
      rw skip_id (of_be64-be64 req.downloaded w.downloaded_lt),
      rw skip_id (of_be64-be64 req.left w.left_lt),
      rw skip_id (of_be64-be64 req.uploaded w.uploaded_lt),
      rw skip_id (of_be32-be32 (as_udp_code req.event) (omega arith)),
      rw skip_id refl,
      rw skip_id (of_be32-be32 key hk),
      rw skip_id (of_be32-be32 req.num_want w.num_want_lt),
      rw skip_id (of_be16-be16 req.port w.port_lt),
    )
