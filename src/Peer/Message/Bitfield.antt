-- ===== src/Peer/Message/Bitfield.antt =====
-- src/peer/message.rs: the bytes of a bitfield. A `BitSlice` is the list of its bits.
pub mod Bits
pub mod Marks
pub mod Reading
pub mod RoundTrip
use rustytorrent.Base.{
  ℕ, zero, suc, ◌+◌, ◌*◌, ◌-◌, ◌/◌, ◌%◌, ◌^◌, Bool, true, false, List, [], ◌∷◌, ◌++◌, ltb, ◌==◌,
  ◌!=◌, if◌then◌else◌, length, take, get_or, set, replicate, bit_or, bit_and,
}
use rustytorrent.Base.Outcome.{Error, Result, ok, err}

-- `div_ceil(8)`.
abbrev pub bytes_for : ℕ → ℕ
bytes_for n = (n + 7) / 8

-- `bytes[i / 8] |= 0x80 >> (i % 8)`.
unfoldable pub mark : ℕ → List ℕ → List ℕ
mark i bytes = set bytes (i / 8) (bit_or (get_or bytes (i / 8) 0) (0x80 / 2 ^ (i % 8)))

-- The loop over the bits from number i on.
unfoldable pub mark_all : ℕ → List Bool → List ℕ → List ℕ
unfolding mark
mark_all i [] bytes = bytes
mark_all i (bit ∷ bf) bytes = mark_all (suc i) bf (if bit then mark i bytes else bytes)

unfoldable pub bitfield_to_bytes : List Bool → List ℕ
unfolding mark_all
bitfield_to_bytes bf = mark_all 0 bf (replicate (bytes_for (length bf)) 0)

-- A bit of a byte, from the most significant one on.
abbrev pub test : ℕ → ℕ → Bool
test b i = b / 2 ^ (7 - i) % 2 == 1

-- `BitVec::<u8, Msb0>::from_slice`.
unfoldable pub from_slice : List ℕ → List Bool
from_slice [] = []
from_slice (b ∷ bytes) =
    test b 0
    ∷ test b 1
    ∷ test b 2
    ∷ test b 3
    ∷ test b 4
    ∷ test b 5
    ∷ test b 6
    ∷ test b 7
    ∷ from_slice bytes

unfoldable pub bitfield_from_bytes : List ℕ → ℕ → Result (List Bool)
unfolding from_slice
bitfield_from_bytes bytes num_pieces =
    let expected_bytes = bytes_for num_pieces in
    let out = take num_pieces (from_slice bytes) in
    let extra_bits = expected_bytes * 8 - num_pieces in
    if length bytes != expected_bytes
    then err Error.network
    else if ltb 0 extra_bits
    then (if bit_and (get_or bytes (expected_bytes - 1) 0) (2 ^ extra_bits - 1) != 0
        then err Error.network
        else ok out)
    else ok out
