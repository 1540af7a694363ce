-- ===== src/Peer/Handshake/Codec.antt =====
-- src/peer/handshake.rs: encoding and decoding of a handshake are inverse.
use rustytorrent.Base.{
  ℕ, ◌≤◌, ◌≡◌, refl, sym, ap, ap₂, ◌∙◌, inl, inr, Bool-cases, false, List, [], ◌∷◌, ◌++◌, arith,
  ltb, ◌==◌, ==_iff, length, length-append, take, drop, drop-drop, take-take-drop, take-append_of,
  drop-append_of, append_assoc,
}
use rustytorrent.Base.Bytes.{byte_at, bytes_eq→eq, bytes_eq}
use rustytorrent.Base.Outcome.{ok}
use rustytorrent.Peer.Handshake.{Handshake, pstr, pstrlen, handshake_len, encode, decode}

-- The fields have the lengths of their Rust types.
pub record IsWellTyped (h : Handshake) : Type 0 where
  pub reserved_len : length h.reserved ≡ 8
  pub info_hash_len : length h.info_hash ≡ 20
  pub peer_id_len : length h.peer_id ≡ 20

abbrev parts : List ℕ → Handshake
parts buf = record {
  reserved = take 8 (drop 20 buf);
  info_hash = take 20 (drop 28 buf);
  peer_id = take 20 (drop 48 buf);
}

-- What a decoded handshake went through.
pub decode_inversion :
    (buf : List ℕ) (h : Handshake)
    → decode buf ≡ ok h
    → (68 ≤ length buf) × (byte_at buf 0 ≡ 19) × (take 19 (drop 1 buf) ≡ pstr) × (h ≡ parts buf)
unfolding decode
decode_inversion buf h e = elim (Bool-cases (ltb (length buf) handshake_len)) [
  | inl short ↦ let bad = rw short at e in cc
  | inr long ↦ elim (Bool-cases (byte_at buf 0 == pstrlen)) [
    | inl len_ok ↦ elim (Bool-cases (bytes_eq (take 19 (drop 1 buf)) pstr)) [
      | inl str_ok ↦
          let made = rw (long, len_ok, str_ok) at e in
          let same : parts buf ≡ h = cc in
          (ground arith, (==_iff _ _).0 len_ok, bytes_eq→eq _ _ str_ok, sym same)
      | inr str_bad ↦ let bad = rw (long, len_ok, str_bad) at e in cc
    ]
    | inr len_bad ↦ let bad = rw (long, len_bad) at e in cc
  ]
]

pub length-encode : (h : Handshake) → IsWellTyped h → length (encode h) ≡ 68
unfolding encode
length-encode h w =
    let inner = length-append h.info_hash h.peer_id in
    let outer = length-append h.reserved (h.info_hash ++ h.peer_id) in
    omega (arith, inner, outer, w.reserved_len, w.info_hash_len, w.peer_id_len)

decode_long :
    (body : List ℕ)
    → 48 ≤ length body
    → decode (pstrlen ∷ (pstr ++ body)) ≡ ok (parts (pstrlen ∷ (pstr ++ body)))
unfolding decode bytes_eq
decode_long body l =
    let long : ltb (length (pstrlen ∷ (pstr ++ body))) handshake_len ≡ false = ground arith in
    rw long refl

-- The three fields, cut out of what stands behind the protocol's name.
parts-append :
    (h : Handshake) (rest : List ℕ)
    → IsWellTyped h
    → parts (pstrlen ∷ (pstr ++ (h.reserved ++ (h.info_hash ++ (h.peer_id ++ rest))))) ≡ h
parts-append h rest w =
    let behind = h.info_hash ++ (h.peer_id ++ rest) in
    let first = take-append_of 8 h.reserved behind w.reserved_len in
    let skip = drop-append_of 8 h.reserved behind w.reserved_len in
    let second = take-append_of 20 h.info_hash (h.peer_id ++ rest) w.info_hash_len in
    let skip₂ = drop-append_of 20 h.info_hash (h.peer_id ++ rest) w.info_hash_len in
    let third = take-append_of 20 h.peer_id rest w.peer_id_len in
    let far : drop 28 (h.reserved ++ behind) ≡ h.peer_id ++ rest =
      sym (drop-drop 8 20 28 (h.reserved ++ behind) (omega arith)) ∙ ap (drop 20) skip ∙ skip₂ in
    rw (first, skip, second, far, third) refl

encode-shape :
    (h : Handshake) (rest : List ℕ)
    → encode h ++ rest ≡ pstrlen ∷ (pstr ++ (h.reserved ++ (h.info_hash ++ (h.peer_id ++ rest))))
unfolding encode
encode-shape h rest =
    ap (λ b. pstrlen ∷ (pstr ++ b))
      (append_assoc h.reserved (h.info_hash ++ h.peer_id) rest
        ∙ ap (λ b. h.reserved ++ b) (append_assoc h.info_hash h.peer_id rest))

-- A handshake whose fields have their lengths decodes to itself from its encoding, whatever is
-- behind that.
pub handshake_decode-encode :
    (h : Handshake) (rest : List ℕ) → IsWellTyped h → decode (encode h ++ rest) ≡ ok h
handshake_decode-encode h rest w =
    let inner = length-append h.peer_id rest in
    let middle = length-append h.info_hash (h.peer_id ++ rest) in
    let outer = length-append h.reserved (h.info_hash ++ (h.peer_id ++ rest)) in
    ap decode (encode-shape h rest)
    ∙ decode_long (h.reserved ++ (h.info_hash ++ (h.peer_id ++ rest)))
        (omega (arith, inner, middle, outer, w.reserved_len, w.info_hash_len, w.peer_id_len))
    ∙ ap ok (parts-append h rest w)

first_byte : (buf : List ℕ) → 68 ≤ length buf → buf ≡ byte_at buf 0 ∷ drop 1 buf
first_byte [] l = absurd (omega arith)
first_byte (b ∷ buf) l = refl

-- The encoding of a decoded handshake is the first 68 bytes of what it was decoded from.
pub handshake_encode-decode :
    (buf : List ℕ) (h : Handshake) → decode buf ≡ ok h → encode h ≡ take 68 buf
unfolding encode
handshake_encode-decode buf h e =
    let (l, len_ok, str_ok, made) = decode_inversion buf h e in
    let tail = drop 1 buf in
    let eight = drop-drop 20 8 28 buf (omega arith) in
    let twenty = drop-drop 28 20 48 buf (omega arith) in
    let ids : take 20 (drop 28 buf) ++ take 20 (drop 48 buf) ≡ take 40 (drop 28 buf) =
      ap (λ x. take 20 (drop 28 buf) ++ take 20 x) (sym twenty)
      ∙ take-take-drop 20 20 40 (drop 28 buf) (omega arith) in
    let fields : take 8 (drop 20 buf) ++ take 40 (drop 28 buf) ≡ take 48 (drop 20 buf) =
      ap (λ x. take 8 (drop 20 buf) ++ take 40 x) (sym eight)
      ∙ take-take-drop 8 40 48 (drop 20 buf) (omega arith) in
    let name : pstr ++ take 48 (drop 20 buf) ≡ take 67 tail =
      ap₂ ◌++◌ (sym str_ok) (ap (take 48) (sym (drop-drop 1 19 20 buf (omega arith))))
      ∙ take-take-drop 19 48 67 tail (omega arith) in
    rw made (
      ap (λ x. pstrlen ∷ (pstr ++ (take 8 (drop 20 buf) ++ x))) ids
      ∙ ap (λ x. pstrlen ∷ (pstr ++ x)) fields
      ∙ ap (◌∷◌ pstrlen) name
      ∙ ap (λ b. b ∷ take 67 tail) (sym len_ok)
      ∙ ap (take 68) (sym (first_byte buf l)))
