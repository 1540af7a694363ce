-- ===== src/Peer/Handshake.antt =====
-- src/peer/handshake.rs: the 68 bytes that open a connection.
-- The bytes that a stream still yields are a list; whether a write succeeds is an argument. The
-- comparison of info hashes is `subtle`'s `ct_eq`, a parameter. `EXTENSION_BYTES` is an argument.
pub mod Codec
pub mod Exchange
use Prim.Native.Nat.{bit_and, bit_or}
use rustytorrent.Base.{
  ℕ, Bool, true, false, not, Option, none, some, List, [], ◌∷◌, ◌++◌, ltb, ◌!=◌, if◌then◌else◌,
  length, take, drop, replicate, get_or, set, ◌==◌, ◌&&◌,
}
use rustytorrent.Base.Bytes.{byte_at, bytes_eq}
use rustytorrent.Base.Outcome.{Error, Result, ok, err, ◌>>=◌}

-- `BitTorrent protocol`.
abbrev pub pstr : List ℕ
pstr =
    66 ∷ 105 ∷ 116 ∷ 84 ∷ 111 ∷ 114 ∷ 114 ∷ 101 ∷ 110 ∷ 116 ∷ 32 ∷ 112 ∷ 114 ∷ 111 ∷ 116 ∷ 111 ∷ 99
    ∷ 111 ∷ 108 ∷ []

abbrev pub pstrlen : ℕ
pstrlen = 19

abbrev pub handshake_len : ℕ
handshake_len = 68

abbrev pub reserved_bit_dht : ℕ
reserved_bit_dht = 0x01

abbrev pub reserved_bit_extension : ℕ
reserved_bit_extension = 0x10

abbrev pub reserved_bit_fast : ℕ
reserved_bit_fast = 0x04

-- `OnceLock::set`: the first call wins.
unfoldable pub set_extension_bytes : Option (List ℕ) → List ℕ → Option (List ℕ)
set_extension_bytes none bytes = some bytes
set_extension_bytes (some old) bytes = some old

unfoldable pub current_extension_bytes : Option (List ℕ) → List ℕ
current_extension_bytes none = replicate 8 0
current_extension_bytes (some bytes) = bytes

-- `r[i] |= bit`.
abbrev or_at : List ℕ → ℕ → ℕ → List ℕ
or_at r i b = set r i (bit_or (byte_at r i) b)

unfoldable pub extension_bytes_from : Bool → Bool → List ℕ
extension_bytes_from dht_enabled extension_protocol =
    let r = replicate 8 0 in
    let r' = if dht_enabled then or_at r 7 reserved_bit_dht else r in
    if extension_protocol then or_at (or_at r' 5 reserved_bit_extension) 7 reserved_bit_fast else r'

unfoldable pub supports_fast_extensions : List ℕ → Bool
supports_fast_extensions reserved = bit_and (byte_at reserved 7) reserved_bit_fast != 0

unfoldable pub supports_extension_protocol : List ℕ → Bool
supports_extension_protocol reserved = bit_and (byte_at reserved 5) reserved_bit_extension != 0

pub record Handshake : Type 0 where
  pub reserved : List ℕ
  pub info_hash : List ℕ
  pub peer_id : List ℕ

unfoldable pub new : Option (List ℕ) → List ℕ → List ℕ → Handshake
unfolding current_extension_bytes
new extension_bytes info_hash peer_id = record {
  reserved = current_extension_bytes extension_bytes;
  info_hash = info_hash;
  peer_id = peer_id;
}

unfoldable pub encode : Handshake → List ℕ
encode h = pstrlen ∷ (pstr ++ (h.reserved ++ (h.info_hash ++ h.peer_id)))

unfoldable pub decode : List ℕ → Result Handshake
unfolding bytes_eq
decode buf =
    if ltb (length buf) handshake_len
    then err Error.handshake
    else if byte_at buf 0 != pstrlen
    then err Error.handshake
    else if not (bytes_eq (take 19 (drop 1 buf)) pstr)
    then err Error.handshake
    else ok (record {
      reserved = take 8 (drop 20 buf);
      info_hash = take 20 (drop 28 buf);
      peer_id = take 20 (drop 48 buf);
    })

-- `read_exact` of a handshake: the bytes, and what the stream still yields.
unfoldable pub read_handshake : List ℕ → Result (List ℕ × List ℕ)
read_handshake reader =
    if ltb (length reader) handshake_len
    then err Error.handshake
    else ok (take handshake_len reader, drop handshake_len reader)

module _ (ct_eq : List ℕ → List ℕ → Bool) where
  -- The peer's handshake, accepted if it names the torrent.
  unfoldable pub receive : List ℕ → List ℕ → Result (Handshake × List ℕ)
  unfolding read_handshake
  receive info_hash reader = do
    (buf, rest) ← read_handshake reader
    theirs ← decode buf
    if not (ct_eq theirs.info_hash info_hash) then err Error.handshake else ok (theirs, rest)

  -- What is sent, and the result.
  unfoldable pub perform_outgoing :
      Option (List ℕ) → List ℕ → List ℕ → Bool → List ℕ → List ℕ × Result (Handshake × List ℕ)
  unfolding receive
  perform_outgoing extension_bytes info_hash peer_id writes reader =
      if writes
      then (encode (new extension_bytes info_hash peer_id), receive info_hash reader)
      else ([], err Error.handshake)

  -- The answer goes out only behind the checks.
  reply :
      Option (List ℕ)
      → List ℕ
      → List ℕ
      → Bool
      → Result (Handshake × List ℕ)
      → List ℕ × Result (Handshake × List ℕ)
  reply extension_bytes info_hash peer_id writes (err e) = ([], err e)
  reply extension_bytes info_hash peer_id writes (ok (theirs, rest)) =
      if writes
      then (encode (new extension_bytes info_hash peer_id), ok (theirs, rest))
      else ([], err Error.handshake)

  unfoldable pub perform_incoming :
      Option (List ℕ) → List ℕ → List ℕ → Bool → List ℕ → List ℕ × Result (Handshake × List ℕ)
  unfolding receive reply
  perform_incoming extension_bytes info_hash peer_id writes reader =
      reply extension_bytes info_hash peer_id writes (receive info_hash reader)
