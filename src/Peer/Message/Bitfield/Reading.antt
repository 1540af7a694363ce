-- ===== src/Peer/Message/Bitfield/Reading.antt =====
-- src/peer/message.rs: what is read of bytes, what is written of bits, and the spare bits.
use rustytorrent.Base.{
  ℕ, zero, ◌+◌, ◌*◌, ◌-◌, ◌/◌, ◌%◌, ◌<◌, ◌≤◌, ◌≡◌, refl, sym, ◌∙◌, inl, inr, Bool, true, false,
  List, arith, ltb, Bool-cases, length, length-take, length-replicate, get_or, take, replicate,
  list_ext, get_or-take, get_or-beyond,
}
use rustytorrent.Base.Bytes.{AreBytes}
use rustytorrent.Peer.Message.Bitfield.{bytes_for, test, bitfield_to_bytes, from_slice}
use rustytorrent.Peer.Message.Bitfield.Bits.{clear, clear_of, of_clear, byte_ext}
use rustytorrent.Peer.Message.Bitfield.Marks.{
  bit_at, get_or-byte, mark_all-AreBytes, replicate-AreBytes, bit_at-bitfield_to_bytes,
  length-from_slice, from_slice-bit_at,
}

pub bitfield_to_bytes-AreBytes :
    (bf : List Bool)
    → AreBytes (bitfield_to_bytes bf) × (length (bitfield_to_bytes bf) ≡ bytes_for (length bf))
unfolding bitfield_to_bytes
bitfield_to_bytes-AreBytes bf =
    let n = bytes_for (length bf) in
    let (all, size) = mark_all-AreBytes 0 bf (replicate n 0) (replicate-AreBytes n) in
    (all, size ∙ length-replicate n zero)

-- The bits that are read for n pieces.
abbrev pub read : ℕ → List ℕ → List Bool
read n bytes = take n (from_slice bytes)

pub read-length : (n : ℕ) (bytes : List ℕ) → n ≤ 8 * length bytes → length (read n bytes) ≡ n
read-length n bytes h = omega (arith, length-take n (from_slice bytes), length-from_slice bytes)

read-bit_at :
    (n : ℕ) (bytes : List ℕ) (j : ℕ) → j < n → get_or (read n bytes) j false ≡ bit_at bytes j
read-bit_at n bytes j h = get_or-take n (from_slice bytes) j false h ∙ from_slice-bit_at bytes j

-- What is read of an encoding is the bitfield.
pub read-bitfield_to_bytes : (bf : List Bool) → read (length bf) (bitfield_to_bytes bf) ≡ bf
read-bitfield_to_bytes bf =
    let size = (bitfield_to_bytes-AreBytes bf).1 in
    let all = read-length (length bf) (bitfield_to_bytes bf) (omega arith) in
    list_ext false _ bf all λ j h.
      read-bit_at (length bf) (bitfield_to_bytes bf) j (omega arith) ∙ bit_at-bitfield_to_bytes bf j

-- No bit behind the first n is set.
abbrev pub HasClearTail : ℕ → List ℕ → Type 0
HasClearTail n bytes = (j : ℕ) → n ≤ j → j < 8 * length bytes → bit_at bytes j ≡ false

bit_at-split : (xs : List ℕ) (i k : ℕ) → k < 8 → bit_at xs (8 * i + k) ≡ test (get_or xs i 0) k
bit_at-split xs i k h =
    let byte : (8 * i + k) / 8 ≡ i = omega arith in
    let bit : (8 * i + k) % 8 ≡ k = omega arith in rw (byte, bit) refl

bit_at-read :
    (n : ℕ) (bytes : List ℕ) (j : ℕ)
    → length bytes ≡ bytes_for n
    → HasClearTail n bytes
    → j < 8 * length bytes
    → bit_at (bitfield_to_bytes (read n bytes)) j ≡ bit_at bytes j
bit_at-read n bytes j e tail h = elim (Bool-cases (ltb j n)) [
  | inl early ↦ bit_at-bitfield_to_bytes (read n bytes) j ∙ read-bit_at n bytes j (ground arith)
  | inr late ↦
      let size = read-length n bytes (omega arith) in
      bit_at-bitfield_to_bytes (read n bytes) j
      ∙ (get_or-beyond (read n bytes) j false (ground arith) ∙ sym (tail j (ground arith) h))
]

-- Bytes with a clear tail are told by their first bits.
pub bitfield_to_bytes-read :
    (n : ℕ) (bytes : List ℕ)
    → AreBytes bytes
    → length bytes ≡ bytes_for n
    → HasClearTail n bytes
    → bitfield_to_bytes (read n bytes) ≡ bytes
bitfield_to_bytes-read n bytes h e tail =
    let bf = read n bytes in
    let size = read-length n bytes (omega arith) in
    let (all, size') = bitfield_to_bytes-AreBytes bf in
    list_ext 0 _ bytes (omega arith) λ i hi.
      byte_ext _ _ (get_or-byte (bitfield_to_bytes bf) i all) (get_or-byte bytes i h) λ k hk.
        sym (bit_at-split (bitfield_to_bytes bf) i k hk)
        ∙ (bit_at-read n bytes (8 * i + k) e tail (omega arith) ∙ bit_at-split bytes i k hk)

-- The spare bits of the last byte, by the mask.
abbrev pub spare : ℕ → ℕ
spare n = bytes_for n * 8 - n

abbrev pub last_byte : ℕ → List ℕ → ℕ
last_byte n bytes = get_or bytes (bytes_for n - 1) 0

pub HasClearTail-clear :
    (n : ℕ) (bytes : List ℕ)
    → length bytes ≡ bytes_for n
    → clear (last_byte n bytes) (spare n) ≡ true
    → HasClearTail n bytes
HasClearTail-clear n bytes e h j hj hl =
    let k = 8 * bytes_for n - 1 - j in
    let split : 8 * (bytes_for n - 1) + (7 - k) ≡ j = omega arith in rw split at found
  where
    k' : ℕ
    k' = 8 * bytes_for n - 1 - j

    found : bit_at bytes (8 * (bytes_for n - 1) + (7 - k')) ≡ false
    found =
        bit_at-split bytes (bytes_for n - 1) (7 - k') (omega arith)
        ∙ of_clear (last_byte n bytes) (spare n) h k' (omega arith)

pub clear-HasClearTail :
    (n : ℕ) (bytes : List ℕ)
    → length bytes ≡ bytes_for n
    → HasClearTail n bytes
    → clear (last_byte n bytes) (spare n) ≡ true
clear-HasClearTail n bytes e tail = clear_of (last_byte n bytes) (spare n) λ k hk.
    sym (bit_at-split bytes (bytes_for n - 1) (7 - k) (omega arith))
    ∙ tail (8 * (bytes_for n - 1) + (7 - k)) (omega arith) (omega arith)
