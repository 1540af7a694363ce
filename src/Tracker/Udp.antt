-- ===== src/Tracker/Udp.antt =====
-- src/tracker/udp.rs: the two packets of an announce (BEP 15), with the types of src/tracker/mod.rs
-- that they carry. A signed 32-bit number is its bit pattern.
pub mod Packets
pub mod Exchange
pub mod Target
use rustytorrent.Base.{
  ℕ, ◌+◌, ◌*◌, ◌-◌, ◌/◌, ◌%◌, ◌^◌, Option, none, some, List, [], ◌∷◌, ◌++◌, ltb, ◌!=◌,
  if◌then◌else◌, length, drop,
}
use rustytorrent.Base.Bytes.{be16, be32, of_be16, of_be32, byte_at}
use rustytorrent.Base.Outcome.{Error, Result, ok, err}

-- `u64::to_be_bytes`.
abbrev pub be64 : ℕ → List ℕ
be64 n = be32 (n / 2 ^ 32) ++ be32 n

-- `u32::from_be_bytes` of the four bytes from position i on.
abbrev pub u32_from : List ℕ → ℕ → ℕ
u32_from p i = of_be32 (byte_at p i) (byte_at p (i + 1)) (byte_at p (i + 2)) (byte_at p (i + 3))

abbrev pub action_announce : ℕ
action_announce = 1

-- `quiet` is the source's `None`.
pub data Event : Type 0 where
  quiet started completed stopped : Event

unfoldable pub as_udp_code : Event → ℕ
as_udp_code quiet = 0
as_udp_code completed = 1
as_udp_code started = 2
as_udp_code stopped = 3

pub record AnnounceRequest : Type 0 where
  pub info_hash : List ℕ
  pub peer_id : List ℕ
  pub port : ℕ
  pub uploaded : ℕ
  pub downloaded : ℕ
  pub left : ℕ
  pub event : Event
  pub num_want : ℕ

-- A peer is the four bytes of its address, and its port; an interval is in seconds.
pub record AnnounceResponse : Type 0 where
  pub interval : ℕ
  pub min_interval : Option ℕ
  pub seeders : Option ℕ
  pub leechers : Option ℕ
  pub peers : List (List ℕ × ℕ)

unfoldable pub build_announce_packet : ℕ → ℕ → ℕ → AnnounceRequest → List ℕ
unfolding as_udp_code
build_announce_packet connection_id transaction_id key req =
    be64 connection_id
    ++ (be32 action_announce
        ++ (be32 transaction_id
            ++ (req.info_hash
                ++ (req.peer_id
                    ++ (be64 req.downloaded
                        ++ (be64 req.left
                            ++ (be64 req.uploaded
                                ++ (be32 (as_udp_code req.event)
                                    ++ (be32 0
                                        ++ (be32 key
                                            ++ (be32 req.num_want ++ be16 req.port)))))))))))

-- The chunks of six bytes; the source has checked that nothing is left over.
unfoldable pub read_peers : List ℕ → List (List ℕ × ℕ)
read_peers (a ∷ b ∷ c ∷ d ∷ e ∷ f ∷ rest) = (a ∷ b ∷ c ∷ d ∷ [], of_be16 e f) ∷ read_peers rest
read_peers _ = []

unfoldable pub parse_announce_response : List ℕ → Result AnnounceResponse
unfolding read_peers
parse_announce_response buf =
    if ltb (length buf) 20
    then err Error.tracker
    else if length (drop 20 buf) % 6 != 0
    then err Error.tracker
    else ok (record {
      interval = u32_from buf 8;
      min_interval = none;
      seeders = some (u32_from buf 16);
      leechers = some (u32_from buf 12);
      peers = read_peers (drop 20 buf);
    })
