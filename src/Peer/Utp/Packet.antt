-- ===== src/Peer/Utp/Packet.antt =====
-- src/peer/utp/packet.rs: the uTP packet and its codec.
pub mod Extensions
pub mod Canonical
pub mod RoundTrip
use Prim.Native.Nat.{bit_and, bit_or}
use rustytorrent.Base.{
  ℕ, zero, suc, ◌+◌, ◌*◌, ◌/◌, ◌%◌, ◌^◌, List, [], ◌∷◌, ◌++◌, ltb, ◌==◌, ◌!=◌, if◌then◌else◌,
  length, take, drop,
}
use rustytorrent.Base.Bytes.{be16, be32, of_be16, of_be32, byte_at}
use rustytorrent.Base.Outcome.{Error, Result, ok, err, ◌>>=◌}

abbrev pub header_len : ℕ
header_len = 20

abbrev pub version : ℕ
version = 1

abbrev pub ext_none : ℕ
ext_none = 0

-- `stream` is the source's `Data`, a reserved word here.
pub data PacketType : Type 0 where
  stream fin state reset syn : PacketType

unfoldable pub to_nibble : PacketType → ℕ
to_nibble stream = 0
to_nibble fin = 1
to_nibble state = 2
to_nibble reset = 3
to_nibble syn = 4

unfoldable pub from_nibble : ℕ → Result PacketType
from_nibble v =
    if v == 0
    then ok stream
    else if v == 1
    then ok fin
    else if v == 2
    then ok state
    else if v == 3
    then ok reset
    else if v == 4
    then ok syn
    else err Error.network

pub record Extension : Type 0 where
  pub kind : ℕ
  pub body : List ℕ

-- A window into a shared buffer. The source panics on a window that does not lie inside.
pub record Payload : Type 0 where
  pub buf : List ℕ
  pub start : ℕ
  pub len : ℕ

unfoldable pub as_slice : Payload → List ℕ
as_slice p = take p.len (drop p.start p.buf)

-- `Payload::from` of a whole buffer.
unfoldable pub whole : List ℕ → Payload
whole buf = record { buf = buf; start = 0; len = length buf }

pub record Packet : Type 0 where
  pub packet_type : PacketType
  pub connection_id : ℕ
  pub timestamp_micros : ℕ
  pub timestamp_diff_micros : ℕ
  pub wnd_size : ℕ
  pub seq_nr : ℕ
  pub ack_nr : ℕ
  pub extensions : List Extension
  pub payload : Payload

unfoldable pub new : PacketType → ℕ → ℕ → ℕ → Packet
unfolding whole
new packet_type connection_id seq_nr ack_nr = record {
  packet_type = packet_type;
  connection_id = connection_id;
  timestamp_micros = 0;
  timestamp_diff_micros = 0;
  wnd_size = 0;
  seq_nr = seq_nr;
  ack_nr = ack_nr;
  extensions = [];
  payload = whole [];
}

-- `extensions.first().map(|e| e.kind).unwrap_or(EXT_NONE)`.
unfoldable pub first_kind : List Extension → ℕ
first_kind [] = ext_none
first_kind (e ∷ es) = e.kind

-- Each entry starts with the kind of the next one; the length is cast to u8.
unfoldable pub encode_extension_chain : List Extension → List ℕ
unfolding first_kind
encode_extension_chain [] = []
encode_extension_chain (e ∷ es) =
    first_kind es ∷ (length e.body % 256) ∷ (e.body ++ encode_extension_chain es)

unfoldable pub encode_header : Packet → List ℕ
unfolding to_nibble first_kind
encode_header p =
    bit_or (to_nibble p.packet_type * 16 % 256) (bit_and version 0x0f)
    ∷ first_kind p.extensions
    ∷ (be16 p.connection_id
        ++ (be32 p.timestamp_micros
            ++ (be32 p.timestamp_diff_micros
                ++ (be32 p.wnd_size ++ (be16 p.seq_nr ++ be16 p.ack_nr)))))

unfoldable pub encode : Packet → List ℕ
unfolding encode_header encode_extension_chain as_slice
encode p = encode_header p ++ (encode_extension_chain p.extensions ++ as_slice p.payload)

-- The loop of `decode` over the extension chain, where `rest` is `buf[cursor..]`. Each round
-- consumes two bytes at least, so as much fuel as there are bytes is enough.
unfoldable pub decode_extensions : ℕ → ℕ → List ℕ → Result (List Extension × List ℕ)
decode_extensions zero next_ext rest =
    if next_ext == ext_none then ok ([], rest) else err Error.network
decode_extensions (suc fuel) next_ext rest =
    let entry =
      (let len = byte_at rest 1 in
        let behind = drop 2 rest in
        if ltb (length rest) 2
        then err Error.network
        else if ltb (length behind) len
        then err Error.network
        else (do
          (es, tail) ← decode_extensions fuel (byte_at rest 0) (drop len behind)
          ok (record { kind = next_ext; body = take len behind } ∷ es, tail))) in
    if next_ext == ext_none then ok ([], rest) else entry

-- The packet that `decode` builds: the header's fields, read from their places.
unfoldable pub fields : List ℕ → PacketType → List Extension → List ℕ → Packet
unfolding whole
fields buf packet_type extensions tail = record {
  packet_type = packet_type;
  connection_id = of_be16 (byte_at buf 2) (byte_at buf 3);
  timestamp_micros = of_be32 (byte_at buf 4) (byte_at buf 5) (byte_at buf 6) (byte_at buf 7);
  timestamp_diff_micros = of_be32 (byte_at buf 8) (byte_at buf 9) (byte_at buf 10) (byte_at buf 11);
  wnd_size = of_be32 (byte_at buf 12) (byte_at buf 13) (byte_at buf 14) (byte_at buf 15);
  seq_nr = of_be16 (byte_at buf 16) (byte_at buf 17);
  ack_nr = of_be16 (byte_at buf 18) (byte_at buf 19);
  extensions = extensions;
  payload = whole tail;
}

unfoldable pub decode : List ℕ → Result Packet
decode buf = if ltb (length buf) header_len then err Error.network else (do
  packet_type ← from_nibble (byte_at buf 0 / 16)
  if bit_and (byte_at buf 0) 0x0f != version then err Error.network else (do
    (extensions, tail) ← decode_extensions (length buf) (byte_at buf 1) (drop header_len buf)
    ok (fields buf packet_type extensions tail)))
