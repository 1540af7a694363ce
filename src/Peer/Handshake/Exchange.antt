-- ===== src/Peer/Handshake/Exchange.antt =====
-- src/peer/handshake.rs: what the two sides of a handshake send and accept.
use rustytorrent.Base.{
  ℕ, ◌≤◌, ◌≡◌, ◌⊎◌, ◌↔◌, refl, sym, ap, ap₂, ◌∙◌, inl, inr, Bool-cases, Bool, true, false, Option,
  List, [], ◌∷◌, ◌++◌, arith, ltb, length, length-append, take, drop, take-append-drop,
  take-append_of, drop-append_of, append-nil, zero, suc,
}
use rustytorrent.Base.Outcome.{Error, ok, err, Result-cases}
use rustytorrent.Peer.Handshake.{
  Handshake, handshake_len, new, encode, decode, read_handshake, receive, perform_outgoing,
  perform_incoming,
}
use rustytorrent.Peer.Handshake.Codec.{
  IsWellTyped, length-encode, handshake_decode-encode, handshake_encode-decode,
}

-- `ct_eq` is equality of byte strings.
abbrev pub DecidesEq : (List ℕ → List ℕ → Bool) → Type 0
DecidesEq ct_eq = (a b : List ℕ) → (ct_eq a b ≡ true) ↔ (a ≡ b)

not_short : (n : ℕ) → handshake_len ≤ n → ltb n handshake_len ≡ false
not_short n h = ground arith

module _ (ct_eq : List ℕ → List ℕ → Bool) (decides : DecidesEq ct_eq) where
  receive_sound :
      (info_hash reader : List ℕ) (theirs : Handshake) (rest : List ℕ)
      → receive ct_eq info_hash reader ≡ ok (theirs, rest)
      → (theirs.info_hash ≡ info_hash) × (reader ≡ encode theirs ++ rest)
  unfolding receive read_handshake
  receive_sound info_hash reader theirs rest e =
      elim (Bool-cases (ltb (length reader) handshake_len)) [
        | inl short ↦ let bad = rw short at e in cc
        | inr long ↦ elim (Result-cases (decode (take 68 reader))) [
          | inl (h, decoded) ↦ elim (Bool-cases (ct_eq h.info_hash info_hash)) [
            | inl same ↦
                let made = rw (long, decoded, same) at e in
                let is_h : h ≡ theirs = cc in
                let is_rest : drop 68 reader ≡ rest = cc in
                let whole = handshake_encode-decode (take 68 reader) h decoded in
                let again : take 68 (take 68 reader) ≡ take 68 reader = take_twice 68 reader in
                (
                  ap (λ x. x.info_hash) (sym is_h) ∙ (decides h.info_hash info_hash).0 same,
                  sym (take-append-drop 68 reader)
                      ∙ ap₂ ◌++◌ (sym (ap encode (sym is_h) ∙ whole ∙ again)) is_rest,
                )
            | inr other ↦ let bad = rw (long, decoded, other) at e in cc
          ]
          | inr (x, decoded) ↦ let bad = rw (long, decoded) at e in cc
        ]
      ]
    where
      take_twice : (n : ℕ) (xs : List ℕ) → take n (take n xs) ≡ take n xs
      take_twice zero xs = refl
      take_twice (suc n) [] = refl
      take_twice (suc n) (x ∷ xs) = ap (◌∷◌ x) (take_twice n xs)

  receive-encode :
      (h : Handshake) (rest : List ℕ)
      → IsWellTyped h
      → receive ct_eq h.info_hash (encode h ++ rest) ≡ ok (h, rest)
  unfolding receive read_handshake
  receive-encode h rest w =
      let size = length-encode h w in
      let cut = take-append_of 68 (encode h) rest size in
      let left = drop-append_of 68 (encode h) rest size in
      let total = length-append (encode h) rest in
      let long = not_short (length (encode h ++ rest)) (omega (arith, total, size)) in
      let decoded : decode (encode h) ≡ ok h =
        ap decode (sym (append-nil (encode h))) ∙ handshake_decode-encode h [] w in
      let same = (decides h.info_hash h.info_hash).1 refl in
      rw (long, cut, left, decoded, same) refl

  -- When `ct_eq` decides equality, the answering side either sends nothing and reports an error,
  -- or it has read the handshake of a peer that names the torrent, and sends its own.
  pub perform_incoming_lem :
      (extension_bytes : Option (List ℕ)) (info_hash peer_id : List ℕ) (writes : Bool)
      (reader : List ℕ)
      → let r = perform_incoming ct_eq extension_bytes info_hash peer_id writes reader in
        ((r.0 ≡ []) × ((e : Error) × (r.1 ≡ err e)))
        ⊎ ((theirs : Handshake) × (rest : List ℕ) × (r
              ≡ (encode (new extension_bytes info_hash peer_id), ok (theirs, rest)))
            × (theirs.info_hash ≡ info_hash)
            × (reader ≡ encode theirs ++ rest))
  unfolding perform_incoming
  perform_incoming_lem extension_bytes info_hash peer_id writes reader =
      elim (Result-cases (receive ct_eq info_hash reader)) [
        | inl ((theirs, rest), e) ↦ elim (Bool-cases writes) [
          | inl sent ↦
              let sound = receive_sound info_hash reader theirs rest e in
              inr (theirs, rest, rw (e, sent) refl, sound.0, sound.1)
          | inr failed ↦ inl (rw (e, failed) refl, (Error.handshake, rw (e, failed) refl))
        ]
        | inr (x, e) ↦ inl (rw e refl, (x, rw e refl))
      ]

  -- Two clients on one torrent, with hashes and ids of their lengths, when both can write and
  -- `ct_eq` decides equality, each accept the other's handshake, and each is left at the byte
  -- behind it.
  pub handshakes_meet :
      (ext_a ext_b : Option (List ℕ)) (info_hash id_a id_b more_a more_b : List ℕ)
      → IsWellTyped (new ext_a info_hash id_a)
      → IsWellTyped (new ext_b info_hash id_b)
      → let a =
          perform_outgoing ct_eq ext_a info_hash id_a true
            (encode (new ext_b info_hash id_b) ++ more_b) in
        let b = perform_incoming ct_eq ext_b info_hash id_b true (a.0 ++ more_a) in
        (b.0 ≡ encode (new ext_b info_hash id_b))
        × (a.1 ≡ ok (new ext_b info_hash id_b, more_b))
        × (b.1 ≡ ok (new ext_a info_hash id_a, more_a))
  unfolding perform_outgoing perform_incoming
  handshakes_meet ext_a ext_b info_hash id_a id_b more_a more_b wa wb =
      let to_a = receive-encode (new ext_b info_hash id_b) more_b wb in
      let to_b = receive-encode (new ext_a info_hash id_a) more_a wa in
      let at_a : receive ct_eq info_hash (encode (new ext_b info_hash id_b) ++ more_b)
          ≡ ok (new ext_b info_hash id_b, more_b) =
        unfold new in to_a in
      let at_b : receive ct_eq info_hash (encode (new ext_a info_hash id_a) ++ more_a)
          ≡ ok (new ext_a info_hash id_a, more_a) =
        unfold new in to_b in
      rw (at_a, at_b) (refl, refl, refl)
