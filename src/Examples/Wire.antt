-- ===== src/Examples/Wire.antt =====
-- src/peer/message.rs: the theorems on messages and frames, at concrete ones.
use rustytorrent.Base.{
  ℕ, ◌%◌, ◌^◌, ◌≤◌, ◌≡◌, ◌↔◌, refl, Bool, true, false, List, [], ◌∷◌, ◌++◌, arith, length, drop,
}
use rustytorrent.Base.Bytes.{be32, AreBytes}
use rustytorrent.Base.Outcome.{ok}
use rustytorrent.Peer.Message.{
  read_exact, Message, have, request, piece, encode, decode, read_frame, write_message,
}
use rustytorrent.Peer.Message.RoundTrip.{IsWellTyped, decode-encode, encode-decode}
use rustytorrent.Peer.Message.Bitfield.{bitfield_to_bytes, bitfield_from_bytes}
use rustytorrent.Peer.Message.Bitfield.RoundTrip.{bitfield_from_bytes_iff}
use rustytorrent.Peer.Message.Framing.{read_frame-write_message}

abbrev a_request : Message
a_request = request 3 16384 16384

abbrev a_block : Message
a_block = piece 1 0 (7 ∷ 8 ∷ 9 ∷ [])

abbrev have_frame : List ℕ
have_frame = 4 ∷ 0 ∷ 0 ∷ 0 ∷ 7 ∷ []

abbrev have_stream : List ℕ
have_stream = 0 ∷ 0 ∷ 0 ∷ 5 ∷ 4 ∷ 0 ∷ 0 ∷ 0 ∷ 7 ∷ 1 ∷ 2 ∷ []

decode-encode_example : decode (drop 4 (encode a_request)) ≡ ok a_request
decode-encode_example = decode-encode a_request (omega arith, omega arith, omega arith)

have_bytes : AreBytes have_frame
have_bytes = ground arith

have_decodes : decode have_frame ≡ ok (have 7)
unfolding decode
have_decodes = refl

encode-decode_example : encode (have 7) ≡ be32 (length have_frame % 2 ^ 32) ++ have_frame
encode-decode_example = encode-decode have_frame (have 7) have_bytes have_decodes

block_typed : IsWellTyped a_block
block_typed = (omega arith, omega arith, ground arith)

block_short : length (drop 4 (encode a_block)) ≤ 12
unfolding encode
block_short = omega arith

read_frame-write_message_example :
    (read_frame (write_message a_block ++ 1 ∷ []) 20 ≡ ok (drop 4 (encode a_block), 1 ∷ []))
    × (decode (drop 4 (encode a_block)) ≡ ok a_block)
read_frame-write_message_example =
    read_frame-write_message a_block (1 ∷ []) 20 block_typed (omega (arith, block_short))
      (omega (arith, block_short))

have_read : read_frame have_stream 8 ≡ ok (have_frame, 1 ∷ 2 ∷ [])
unfolding read_frame read_exact
have_read = refl

abbrev three_pieces : List Bool
three_pieces = true ∷ false ∷ true ∷ []

three_bytes : AreBytes (0xa0 ∷ [])
three_bytes = ground arith

bitfield_from_bytes_iff_example :
    (bitfield_from_bytes (0xa0 ∷ []) 3 ≡ ok three_pieces)
    ↔ ((length three_pieces ≡ 3) × (bitfield_to_bytes three_pieces ≡ 0xa0 ∷ []))
bitfield_from_bytes_iff_example = bitfield_from_bytes_iff (0xa0 ∷ []) 3 three_pieces three_bytes
