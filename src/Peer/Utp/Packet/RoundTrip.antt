-- ===== src/Peer/Utp/Packet/RoundTrip.antt =====
-- src/peer/utp/packet.rs: encoding and decoding of a packet are inverse.
use Prim.Native.Nat.{bit_and, bit_or}
use rustytorrent.Base.{
  ℕ, ◌*◌, ◌/◌, ◌%◌, ◌^◌, ◌≤◌, ◌<◌, ◌≡◌, refl, ap, ◌∙◌, false, List, [], ◌∷◌, arith, length, drop,
  All, length-append, ltb,
}
use rustytorrent.Base.Bytes.{of_be16-be16, of_be32-be32, byte_at}
use rustytorrent.Base.Outcome.{ok}
use rustytorrent.Peer.Utp.Packet.{
  PacketType, stream, fin, state, reset, syn, to_nibble, from_nibble, Extension, Packet,
  encode_extension_chain, encode_header, encode, decode_extensions, decode, fields, whole, as_slice,
  version, header_len,
}
use rustytorrent.Peer.Utp.Packet.Extensions.{IsEncodable, decode_extensions-encode}

-- The fields are what their Rust types hold, and the extensions what the chain can carry.
pub record IsWellTyped (p : Packet) : Type 0 where
  pub connection_id_lt : p.connection_id < 2 ^ 16
  pub timestamp_lt : p.timestamp_micros < 2 ^ 32
  pub timestamp_diff_lt : p.timestamp_diff_micros < 2 ^ 32
  pub wnd_size_lt : p.wnd_size < 2 ^ 32
  pub seq_nr_lt : p.seq_nr < 2 ^ 16
  pub ack_nr_lt : p.ack_nr < 2 ^ 16
  pub extensions_ok : All IsEncodable p.extensions

abbrev type_byte : PacketType → ℕ
type_byte t = bit_or (to_nibble t * 16 % 256) (bit_and version 0x0f)

from_nibble-type_byte : (t : PacketType) → from_nibble (type_byte t / 16) ≡ ok t
unfolding from_nibble to_nibble
from_nibble-type_byte stream = refl
from_nibble-type_byte fin = refl
from_nibble-type_byte state = refl
from_nibble-type_byte reset = refl
from_nibble-type_byte syn = refl

version-type_byte : (t : PacketType) → bit_and (type_byte t) 0x0f ≡ 1
unfolding to_nibble
version-type_byte stream = refl
version-type_byte fin = refl
version-type_byte state = refl
version-type_byte reset = refl
version-type_byte syn = refl

length-chain : (es : List Extension) → length es ≤ length (encode_extension_chain es)
unfolding encode_extension_chain
length-chain [] = omega arith
length-chain (e ∷ es) =
    omega (arith, length-chain es, length-append e.body (encode_extension_chain es))

decode_steps :
    (buf : List ℕ) (t : PacketType) (es : List Extension) (tail : List ℕ)
    → header_len ≤ length buf
    → from_nibble (byte_at buf 0 / 16) ≡ ok t
    → bit_and (byte_at buf 0) 0x0f ≡ version
    → decode_extensions (length buf) (byte_at buf 1) (drop header_len buf) ≡ ok (es, tail)
    → decode buf ≡ ok (fields buf t es tail)
unfolding decode
decode_steps buf t es tail h n v x = rw (long, n, v, x) refl
  where
    long : ltb (length buf) header_len ≡ false
    long = ground arith

fields-encode :
    (p : Packet)
    → IsWellTyped p
    → fields (encode p) p.packet_type p.extensions (as_slice p.payload)
      ≡ record p { payload = whole (as_slice p.payload) }
unfolding fields encode_header
fields-encode p w =
    unfold encode in
    rw (
      of_be16-be16 p.connection_id w.connection_id_lt,
      of_be32-be32 p.timestamp_micros w.timestamp_lt,
      of_be32-be32 p.timestamp_diff_micros w.timestamp_diff_lt,
      of_be32-be32 p.wnd_size w.wnd_size_lt,
      of_be16-be16 p.seq_nr w.seq_nr_lt,
      of_be16-be16 p.ack_nr w.ack_nr_lt,
    )

-- A packet of representable fields, whose extensions have kinds other than 0 and bodies of less
-- than 256 bytes, decodes from its encoding to itself. Its payload comes back as a buffer of its
-- own with the same bytes.
pub packet_decode-encode :
    (p : Packet)
    → IsWellTyped p
    → decode (encode p) ≡ ok (record p { payload = whole (as_slice p.payload) })
unfolding encode_header
packet_decode-encode p w =
    let chain = encode_extension_chain p.extensions in
    let size = length-append chain (as_slice p.payload) in
    let fuel : length p.extensions ≤ length (encode p) =
      unfold encode in omega (arith, size, length-chain p.extensions) in
    decode_steps (encode p) p.packet_type p.extensions (as_slice p.payload)
      (unfold encode in omega arith) (unfold encode in from_nibble-type_byte p.packet_type)
      (unfold encode in version-type_byte p.packet_type)
      (unfold encode in
        decode_extensions-encode p.extensions (length (encode p)) (as_slice p.payload)
          w.extensions_ok fuel)
    ∙ ap ok (fields-encode p w)
