-- ===== src/Peer/Utp/Packet/Canonical.antt =====
-- src/peer/utp/packet.rs: a datagram that decodes is the encoding of its packet.
use Prim.Native.Nat.{bit_and, bit_or}
use rustytorrent.Base.{
  ℕ, ◌+◌, ◌*◌, ◌/◌, ◌%◌, ◌≤◌, ◌<◌, ◌≡◌, refl, ap, ◌∙◌, inl, inr, Bool-cases, true, List, ◌∷◌, ◌++◌,
  arith, length, drop, drop-All, take-length, ltb, ◌==◌, ==_iff,
}
use rustytorrent.Base.Bits.{every_under, every_under→holds}
use rustytorrent.Base.Bytes.{AreBytes, be16_bytes, be32_bytes, byte_at}
use rustytorrent.Base.Outcome.{ok, Result-cases}
use rustytorrent.Peer.Utp.Packet.{
  PacketType, stream, to_nibble, from_nibble, Extension, Packet, first_kind, encode_extension_chain,
  encode_header, encode, decode_extensions, decode, fields, whole, as_slice, version, header_len,
}
use rustytorrent.Peer.Utp.Packet.Extensions.{decode_extensions_sound}

from_nibble_sound : (v : ℕ) (t : PacketType) → from_nibble v ≡ ok t → to_nibble t ≡ v
unfolding from_nibble to_nibble
from_nibble_sound v t e = ground arith

low_nibble_table : every_under 256 (λ b. bit_and b 0x0f == b % 16) ≡ true
unfolding every_under
low_nibble_table = refl

low_nibble : (b : ℕ) → b < 256 → bit_and b 0x0f ≡ b % 16
low_nibble b h =
    (==_iff _ _).0 (every_under→holds 256 (λ b. bit_and b 0x0f == b % 16) b low_nibble_table h)

type_byte_sum :
    (t : PacketType) → bit_or (to_nibble t * 16 % 256) (bit_and version 0x0f) ≡ to_nibble t * 16 + 1
unfolding to_nibble
type_byte_sum stream = refl
type_byte_sum _ = refl

-- What a successful call found on its way.
decode_inversion :
    (buf : List ℕ) (p : Packet)
    → decode buf ≡ ok p
    → (header_len ≤ length buf)
      × (t : PacketType) × (es : List Extension) × (tail : List ℕ) × (from_nibble
            (byte_at buf 0 / 16)
          ≡ ok t)
      × (bit_and (byte_at buf 0) 0x0f ≡ 1)
      × (decode_extensions (length buf) (byte_at buf 1) (drop header_len buf) ≡ ok (es, tail))
      × (p ≡ fields buf t es tail)
unfolding decode
decode_inversion buf p e = elim (Bool-cases (ltb (length buf) header_len)) [
  | inl short ↦ let bad = rw (short, decode) at e in cc
  | inr long ↦ elim (Result-cases (from_nibble (byte_at buf 0 / 16))) [
    | inr (x, n) ↦ let bad = rw (long, n, decode) at e in cc
    | inl (t, n) ↦ elim (Bool-cases (bit_and (byte_at buf 0) 0x0f == version)) [
      | inr v ↦ let bad = rw (long, n, v, decode) at e in cc
      | inl v ↦
          elim (Result-cases
            (decode_extensions (length buf) (byte_at buf 1) (drop header_len buf))) [
              | inr (x, c) ↦ let bad = rw (long, n, v, c, decode) at e in cc
              | inl ((es, tail), c) ↦
                  let made = rw (long, n, v, c, decode) at e in
                  (ground arith, t, es, tail, n, (==_iff _ _).0 v, c, cc)
            ]
    ]
  ]
]

type_byte :
    (b : ℕ) (t : PacketType)
    → b < 256
    → from_nibble (b / 16) ≡ ok t
    → bit_and b 0x0f ≡ 1
    → bit_or (to_nibble t * 16 % 256) (bit_and version 0x0f) ≡ b
type_byte b t h n v = omega (arith, type_byte_sum t, from_nibble_sound (b / 16) t n, low_nibble b h)

-- A record of the fields that stand in a buffer prints as the buffer's first twenty bytes.
encode_header-fields :
    (buf : List ℕ) (t : PacketType) (es : List Extension) (tail : List ℕ)
    → AreBytes buf
    → header_len ≤ length buf
    → from_nibble (byte_at buf 0 / 16) ≡ ok t
    → bit_and (byte_at buf 0) 0x0f ≡ 1
    → first_kind es ≡ byte_at buf 1
    → encode_header (fields buf t es tail) ++ drop header_len buf ≡ buf
unfolding encode_header fields
encode_header-fields
      (b0 ∷ b1 ∷ b2 ∷ b3 ∷ b4 ∷ b5 ∷ b6 ∷ b7 ∷ b8 ∷ b9 ∷ b10 ∷ b11 ∷ b12 ∷ b13 ∷ b14 ∷ b15 ∷ b16
        ∷ b17 ∷ b18 ∷ b19 ∷ rest)
      t es tail b l n v k =
    let connection = be16_bytes b2 b3 (omega arith) (omega arith) in
    let time = be32_bytes b4 b5 b6 b7 (omega arith) (omega arith) (omega arith) (omega arith) in
    let diff = be32_bytes b8 b9 b10 b11 (omega arith) (omega arith) (omega arith) (omega arith) in
    let wnd = be32_bytes b12 b13 b14 b15 (omega arith) (omega arith) (omega arith) (omega arith) in
    let seq = be16_bytes b16 b17 (omega arith) (omega arith) in
    let ack = be16_bytes b18 b19 (omega arith) (omega arith) in
    rw (
      type_byte b0 t (omega arith) n v,
      k,
      connection.0,
      connection.1,
      time.0,
      time.1,
      time.2,
      time.3,
      diff.0,
      diff.1,
      diff.2,
      diff.3,
      wnd.0,
      wnd.1,
      wnd.2,
      wnd.3,
      seq.0,
      seq.1,
      ack.0,
      ack.1,
    )
encode_header-fields _ t es tail b l n v k = absurd (omega arith)

as_slice-whole : (bytes : List ℕ) → as_slice (whole bytes) ≡ bytes
unfolding as_slice whole
as_slice-whole bytes = take-length bytes

-- A datagram of bytes that decodes is, whole, the encoding of the packet it decodes to.
pub packet_encode-decode :
    (buf : List ℕ) (p : Packet) → AreBytes buf → decode buf ≡ ok p → encode p ≡ buf
packet_encode-decode buf p b e =
    let (l, t, es, tail, n, v, x, made) = decode_inversion buf p e in
    let chain =
      decode_extensions_sound (length buf) (byte_at buf 1) (drop header_len buf) es tail
        (drop-All _ header_len buf b) x in
    rw made (
      unfold encode fields whole as_slice in
      ap (λ q. encode_header (fields buf t es tail) ++ q)
        (ap (◌++◌ (encode_extension_chain es)) (as_slice-whole tail) ∙ chain.1)
      ∙ encode_header-fields buf t es tail b l n v chain.0)
