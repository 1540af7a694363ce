-- ===== src/Peer/Message/Framing.antt =====
-- src/peer/message.rs: length-prefixed frames on a stream, and the two write paths.
use rustytorrent.Base.{
  ℕ, ◌%◌, ◌^◌, ◌≤◌, ◌<◌, ◌≡◌, refl, ap, ap₂, ◌∙◌, inl, inr, List, [], ◌∷◌, ◌++◌, arith, length,
  false, length-append, drop, take, take-length_append, length-take, take-append-drop,
  drop-length_append, ltb,
}
use rustytorrent.Base.Bytes.{be32, of_be32-be32}
use rustytorrent.Base.Outcome.{ok, ◌>>=◌, Result-cases}
use rustytorrent.Peer.Message.{
  Message, keep_alive, piece, encode, decode, u32_at, read_exact, frame_body, read_frame,
  read_frame_into, write_frame, write_message,
}
use rustytorrent.Peer.Message.RoundTrip.{IsWellTyped, decode-encode}

-- `encode` prints a frame: the length of what follows, then what follows.
pub encode_frame : (m : Message) → encode m ≡ write_frame (drop 4 (encode m))
unfolding encode write_frame
encode_frame keep_alive = refl
encode_frame m = ground arith

-- The one-pass layout that `write_message` has for blocks gives the bytes of `encode`, as the
-- general path does.
pub write_message-encode : (m : Message) → write_message m ≡ encode m
unfolding write_message encode
write_message-encode (piece i b block) = ground arith
write_message-encode _ = refl

-- `read_exact` of the length of a prefix splits the prefix off.
read_exact-append : (xs ys : List ℕ) → read_exact (length xs) (xs ++ ys) ≡ ok (xs, ys)
unfolding read_exact
read_exact-append xs ys = rw (take-length_append xs ys, drop-length_append xs ys, room) refl
  where
    room : ltb (length (xs ++ ys)) (length xs) ≡ false
    room = ground (arith, length-append xs ys)

frame_body-append :
    (body rest : List ℕ) (max_len : ℕ)
    → length body ≤ max_len
    → frame_body (length body) (body ++ rest) max_len ≡ ok (body, rest)
unfolding frame_body
frame_body-append [] rest max_len l = refl
frame_body-append (b ∷ body) rest max_len l = ground (arith, read_exact-append (b ∷ body) rest)

-- A written frame within the limit is read back, and the reader stands behind it.
pub read_frame-write_frame :
    (body rest : List ℕ) (max_len : ℕ)
    → length body < 2 ^ 32
    → length body ≤ max_len
    → read_frame (write_frame body ++ rest) max_len ≡ ok (body, rest)
unfolding read_frame write_frame
read_frame-write_frame body rest max_len h l =
    let n = length body % 2 ^ 32 in
    let n_eq : n ≡ length body = omega arith in
    ap (λ r. r >>= λ (len_buf, reader). frame_body (u32_at len_buf 0) reader max_len)
      (read_exact-append (be32 n) (body ++ rest))
    ∙ ap (λ k. frame_body k (body ++ rest) max_len) (of_be32-be32 n (omega arith) ∙ n_eq)
    ∙ frame_body-append body rest max_len l

-- What `write_message` puts on a stream, a reader with a sufficient limit gets back: the frame is
-- cut off where the message ends, and it decodes to the message.
pub read_frame-write_message :
    (m : Message) (rest : List ℕ) (max_len : ℕ)
    → IsWellTyped m
    → length (drop 4 (encode m)) < 2 ^ 32
    → length (drop 4 (encode m)) ≤ max_len
    → (read_frame (write_message m ++ rest) max_len ≡ ok (drop 4 (encode m), rest))
      × (decode (drop 4 (encode m)) ≡ ok m)
read_frame-write_message m rest max_len w h l = (
  ap (λ b. read_frame (b ++ rest) max_len) (write_message-encode m ∙ encode_frame m)
      ∙ read_frame-write_frame (drop 4 (encode m)) rest max_len h l,
  decode-encode m w,
)

-- The buffer-reusing reader returns what the allocating one returns, errors included, for every
-- stream and limit: the frame, or the error, and the position behind the frame.
pub read_frame_into-eq-read_frame :
    (reader : List ℕ) (max_len : ℕ) → read_frame_into reader max_len ≡ read_frame reader max_len
unfolding read_frame read_frame_into
read_frame_into-eq-read_frame reader max_len = ground arith

read_exact_sound :
    (n : ℕ) (reader xs ys : List ℕ)
    → read_exact n reader ≡ ok (xs, ys)
    → (xs ≡ take n reader) × (reader ≡ xs ++ ys) × (length xs ≡ n)
unfolding read_exact
read_exact_sound n reader xs ys e = ground (arith, length-take n reader, take-append-drop n reader)

frame_body_sound :
    (len : ℕ) (reader : List ℕ) (max_len : ℕ) (frame rest : List ℕ)
    → frame_body len reader max_len ≡ ok (frame, rest)
    → (reader ≡ frame ++ rest) × (length frame ≡ len) × (len ≤ max_len)
unfolding frame_body
frame_body_sound len reader max_len frame rest e =
    ground (arith, read_exact_sound len reader frame rest)

u32_at-take : (p : List ℕ) → u32_at (take 4 p) 0 ≡ u32_at p 0
u32_at-take [] = refl
u32_at-take (a ∷ []) = refl
u32_at-take (a ∷ b ∷ []) = refl
u32_at-take (a ∷ b ∷ c ∷ []) = refl
u32_at-take (a ∷ b ∷ c ∷ d ∷ r) = refl

-- A frame that is read is what stands in the stream behind the four bytes of its length, whole and
-- within the limit; the reader is left at the byte behind it.
pub read_frame_sound :
    (reader : List ℕ) (max_len : ℕ) {frame rest : List ℕ}
    → read_frame reader max_len ≡ ok (frame, rest)
    → (reader ≡ take 4 reader ++ (frame ++ rest))
      × (length frame ≡ u32_at reader 0)
      × (length frame ≤ max_len)
unfolding read_frame
read_frame_sound reader max_len {frame} {rest} e = elim (Result-cases (read_exact 4 reader)) [
  | inl ((len_buf, behind), e₄) ↦
      let head = read_exact_sound 4 reader len_buf behind e₄ in
      let body =
        frame_body_sound (u32_at len_buf 0) behind max_len frame rest (rw (e₄, read_frame) at e) in
      let count : u32_at len_buf 0 ≡ u32_at reader 0 = rw head.0 (u32_at-take reader) in
      (head.1 ∙ ap₂ ◌++◌ head.0 body.0, body.1 ∙ count, omega arith)
  | inr (x, e₄) ↦ let bad = rw (e₄, read_frame) at e in cc
]
