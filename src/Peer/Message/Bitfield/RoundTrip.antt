-- ===== src/Peer/Message/Bitfield/RoundTrip.antt =====
-- src/peer/message.rs: a bitfield is accepted exactly if it is an encoding.
use rustytorrent.Base.{
  ℕ, ◌-◌, ◌^◌, ◌≡◌, ◌↔◌, refl, sym, ap, ◌∙◌, Bool, true, false, List, arith, ltb, ◌==◌, ◌!=◌,
  if◌then◌else◌, length, bit_and, of_if, get_or-beyond,
}
use rustytorrent.Base.Bytes.{AreBytes}
use rustytorrent.Base.Outcome.{ok, Holds}
use rustytorrent.Peer.Message.Bitfield.{bytes_for, bitfield_to_bytes, bitfield_from_bytes}
use rustytorrent.Peer.Message.Bitfield.Bits.{mask_lem}
use rustytorrent.Peer.Message.Bitfield.Marks.{get_or-byte, bit_at-bitfield_to_bytes}
use rustytorrent.Peer.Message.Bitfield.Reading.{
  read, read-bitfield_to_bytes, bitfield_to_bytes-AreBytes, bitfield_to_bytes-read, HasClearTail,
  HasClearTail-clear, clear-HasClearTail, spare, last_byte, read-length,
}

-- What is known of a bitfield that was accepted.
abbrev IsRead : ℕ → List ℕ → List Bool → Type 0
IsRead n bytes bf = (length bytes ≡ bytes_for n) × HasClearTail n bytes × (bf ≡ read n bytes)

bitfield_from_bytes-Holds :
    (n : ℕ) (bytes : List ℕ) → AreBytes bytes → Holds (IsRead n bytes) (bitfield_from_bytes bytes n)
unfolding bitfield_from_bytes
bitfield_from_bytes-Holds n bytes h =
    let byte = get_or-byte bytes (bytes_for n - 1) h in
    let mask = mask_lem (last_byte n bytes) (spare n) byte (omega arith) in
    of_if (Holds (IsRead n bytes)) (length bytes != bytes_for n) _ _ (λ _. tt)
      λ size.
        of_if (Holds (IsRead n bytes)) (ltb 0 (spare n)) _ _
          (λ spare_bits.
            of_if (Holds (IsRead n bytes)) (bit_and (last_byte n bytes) (2 ^ spare n - 1) != 0) _ _
              (λ _. tt)
              λ zeros.
                let e : length bytes ≡ bytes_for n = ground arith in
                let is_zero : (bit_and (last_byte n bytes) (2 ^ spare n - 1) == 0) ≡ true =
                  ground arith in
                (e, HasClearTail-clear n bytes e (sym mask ∙ is_zero), refl))
          λ no_spare.
            let e : length bytes ≡ bytes_for n = ground arith in
            (e, (λ j a b. absurd (ground arith)), refl)

bitfield_from_bytes_ok :
    (n : ℕ) (bytes : List ℕ)
    → AreBytes bytes
    → length bytes ≡ bytes_for n
    → HasClearTail n bytes
    → bitfield_from_bytes bytes n ≡ ok (read n bytes)
unfolding bitfield_from_bytes
bitfield_from_bytes_ok n bytes h e tail =
    let byte = get_or-byte bytes (bytes_for n - 1) h in
    let mask = mask_lem (last_byte n bytes) (spare n) byte (omega arith) in
    let is_zero = mask ∙ clear-HasClearTail n bytes e tail in
    let size : (length bytes != bytes_for n) ≡ false = ground arith in
    let zeros : (bit_and (last_byte n bytes) (2 ^ spare n - 1) != 0) ≡ false = ground arith in
    rw (size, zeros) (either (ltb 0 (spare n)))
  where
    either : (b : Bool) → (if b then ok (read n bytes) else ok (read n bytes)) ≡ ok (read n bytes)
    either true = refl
    either false = refl

-- The tail of an encoding is clear.
encoded-HasClearTail : (bf : List Bool) → HasClearTail (length bf) (bitfield_to_bytes bf)
encoded-HasClearTail bf j h k = bit_at-bitfield_to_bytes bf j ∙ get_or-beyond bf j false h

-- Received bytes are accepted as the bitfield of so many pieces exactly if they are the encoding of
-- that bitfield, which has one bit for each piece: their number is right, each bit is where the
-- encoder puts it, and the spare bits are clear.
pub bitfield_from_bytes_iff :
    (bytes : List ℕ) (num_pieces : ℕ) (bf : List Bool)
    → AreBytes bytes
    → (bitfield_from_bytes bytes num_pieces ≡ ok bf)
      ↔ ((length bf ≡ num_pieces) × (bitfield_to_bytes bf ≡ bytes))
bitfield_from_bytes_iff bytes n bf h = (there, back)
  where
    there : bitfield_from_bytes bytes n ≡ ok bf → (length bf ≡ n) × (bitfield_to_bytes bf ≡ bytes)
    there e =
        let holds = bitfield_from_bytes-Holds n bytes h in
        let (size, tail, same) : IsRead n bytes bf = rw e at holds in
        (
          ap length same ∙ read-length n bytes (omega arith),
          ap bitfield_to_bytes same ∙ bitfield_to_bytes-read n bytes h size tail,
        )

    back : (length bf ≡ n) × (bitfield_to_bytes bf ≡ bytes) → bitfield_from_bytes bytes n ≡ ok bf
    back (size, e) =
        let (all, many) = bitfield_to_bytes-AreBytes bf in
        rw (sym size, sym e)
          (bitfield_from_bytes_ok (length bf) (bitfield_to_bytes bf) all many
              (encoded-HasClearTail bf)
            ∙ ap ok (read-bitfield_to_bytes bf))
