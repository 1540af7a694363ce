-- ===== src/Peer/Message.antt =====
-- src/peer/message.rs: the messages of the wire protocol, their codec and their framing.
-- A reader is the list of the bytes that it still yields before end of file, so `read_exact` is
-- `read_exact` below; a writer is given the bytes that `write_all` gets.
pub mod RoundTrip
pub mod Framing
pub mod Bitfield
use rustytorrent.Base.{
  ℕ, suc, ◌+◌, ◌*◌, ◌%◌, ◌^◌, ◌-◌, ◌/◌, Bool, true, false, ◌||◌, List, [], ◌∷◌, ◌++◌, ltb, ◌==◌,
  ◌!=◌, if◌then◌else◌, length, is_empty, take, drop, bit_or, get_or, set, replicate, zero,
  get_elem?,
}
use rustytorrent.Base.Bytes.{be32, of_be32, byte_at}
use rustytorrent.Base.Outcome.{Error, Result, ok, err, ◌>>=◌, ◌>>◌}

abbrev pub block_size : ℕ
block_size = 16384

pub data Message : Type 0 where
  keep_alive choke unchoke interested not_interested : Message
  have : ℕ → Message
  bitfield : List ℕ → Message
  request : ℕ → ℕ → ℕ → Message
  piece : ℕ → ℕ → List ℕ → Message
  cancel : ℕ → ℕ → ℕ → Message
  extended : ℕ → List ℕ → Message
  have_all have_none : Message
  reject_request : ℕ → ℕ → ℕ → Message
  allowed_fast suggest_piece : ℕ → Message

-- The length is cast to u32.
unfoldable pub tag : ℕ → List ℕ → List ℕ
tag id payload = be32 ((1 + length payload) % 2 ^ 32) ++ id ∷ payload

unfoldable pub encode : Message → List ℕ
unfolding tag
encode keep_alive = be32 0
encode choke = tag 0 []
encode unchoke = tag 1 []
encode interested = tag 2 []
encode not_interested = tag 3 []
encode (have i) = tag 4 (be32 i)
encode (bitfield b) = tag 5 b
encode (request index begin len) = tag 6 (be32 index ++ be32 begin ++ be32 len)
encode (piece index begin block) = tag 7 (be32 index ++ be32 begin ++ block)
encode (cancel index begin len) = tag 8 (be32 index ++ be32 begin ++ be32 len)
encode (extended ext_id payload) = tag 20 (ext_id ∷ payload)
encode have_all = tag 14 []
encode have_none = tag 15 []
encode (reject_request index begin len) = tag 16 (be32 index ++ be32 begin ++ be32 len)
encode (allowed_fast i) = tag 17 (be32 i)
encode (suggest_piece i) = tag 13 (be32 i)

unfoldable pub ensure_empty : List ℕ → Result (Unit {0})
ensure_empty [] = ok tt
ensure_empty (b ∷ p) = err Error.network

-- `u32::from_be_bytes([p[i], p[i + 1], p[i + 2], p[i + 3]])`.
abbrev pub u32_at : List ℕ → ℕ → ℕ
u32_at p i = of_be32 (byte_at p i) (byte_at p (i + 1)) (byte_at p (i + 2)) (byte_at p (i + 3))

unfoldable pub decode_index_begin_length : List ℕ → ℕ → Result Message
decode_index_begin_length p id =
    if length p != 12
    then err Error.network
    else if id == 8
    then ok (cancel (u32_at p 0) (u32_at p 4) (u32_at p 8))
    else ok (request (u32_at p 0) (u32_at p 4) (u32_at p 8))

decode_have : List ℕ → Result Message
decode_have p = if length p != 4 then err Error.network else ok (have (u32_at p 0))

decode_piece : List ℕ → Result Message
decode_piece p =
    if ltb (length p) 8 then err Error.network else ok (piece (u32_at p 0) (u32_at p 4) (drop 8 p))

decode_extended : List ℕ → Result Message
decode_extended [] = err Error.network
decode_extended (ext_id ∷ payload) = ok (extended ext_id payload)

decode_reject : List ℕ → Result Message
decode_reject p =
    if length p != 12
    then err Error.network
    else ok (reject_request (u32_at p 0) (u32_at p 4) (u32_at p 8))

decode_fast : ℕ → List ℕ → Result Message
decode_fast id p =
    if length p != 4
    then err Error.network
    else if id == 17
    then ok (allowed_fast (u32_at p 0))
    else ok (suggest_piece (u32_at p 0))

-- The arms of `match id`, in the source's order.
unfoldable pub decode_body : ℕ → List ℕ → Result Message
unfolding ensure_empty decode_index_begin_length decode_have decode_piece decode_extended
    decode_reject decode_fast
decode_body id p =
    if id == 0
    then ensure_empty p >> ok choke
    else if id == 1
    then ensure_empty p >> ok unchoke
    else if id == 2
    then ensure_empty p >> ok interested
    else if id == 3
    then ensure_empty p >> ok not_interested
    else if id == 4
    then decode_have p
    else if id == 5
    then ok (bitfield p)
    else if id == 6
    then decode_index_begin_length p 6
    else if id == 7
    then decode_piece p
    else if id == 8
    then decode_index_begin_length p 8
    else if id == 20
    then decode_extended p
    else if id == 14
    then ensure_empty p >> ok have_all
    else if id == 15
    then ensure_empty p >> ok have_none
    else if id == 16
    then decode_reject p
    else if id == 17 || id == 13
    then decode_fast id p
    else err Error.network

unfoldable pub decode : List ℕ → Result Message
unfolding decode_body
decode [] = ok keep_alive
decode (id ∷ p) = decode_body id p

-- `AsyncReadExt::read_exact` of n bytes: what was read, and what the reader still holds.
unfoldable pub read_exact : ℕ → List ℕ → Result (List ℕ × List ℕ)
read_exact n reader =
    if ltb (length reader) n then err Error.network else ok (take n reader, drop n reader)

-- The part of `read_frame` behind the length prefix.
frame_body : ℕ → List ℕ → ℕ → Result (List ℕ × List ℕ)
frame_body len reader max_len =
    if len == 0
    then ok ([], reader)
    else if ltb max_len len
    then err Error.network
    else read_exact len reader

unfoldable pub read_frame : List ℕ → ℕ → Result (List ℕ × List ℕ)
unfolding frame_body
read_frame reader max_len = do
  (len_buf, reader) ← read_exact 4 reader
  frame_body (u32_at len_buf 0) reader max_len

-- The buffer of `read_frame_into` on success: it is cleared, resized and overwritten whole.
frame_body_into : ℕ → List ℕ → ℕ → Result (List ℕ × List ℕ)
frame_body_into len reader max_len =
    if ltb max_len len
    then err Error.network
    else if len == 0
    then ok ([], reader)
    else read_exact len reader

-- The result is the buffer and the reader as they are left.
unfoldable pub read_frame_into : List ℕ → ℕ → Result (List ℕ × List ℕ)
unfolding frame_body_into
read_frame_into reader max_len = do
  (len_buf, reader) ← read_exact 4 reader
  frame_body_into (u32_at len_buf 0) reader max_len

unfoldable pub write_frame : List ℕ → List ℕ
write_frame payload = be32 (length payload % 2 ^ 32) ++ payload

-- The one-pass layout of `write_message` for a block.
write_piece : ℕ → ℕ → List ℕ → List ℕ
write_piece index begin block =
    be32 ((1 + 8 + length block) % 2 ^ 32) ++ 7 ∷ (be32 index ++ be32 begin ++ block)

-- The bytes that `write_message` hands to the writer.
unfoldable pub write_message : Message → List ℕ
unfolding write_piece
write_message (piece index begin block) = write_piece index begin block
write_message msg = encode msg
