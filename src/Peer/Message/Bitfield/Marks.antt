-- ===== src/Peer/Message/Bitfield/Marks.antt =====
-- src/peer/message.rs: which bits the loop of `bitfield_to_bytes` sets, and which ones are read back.
use rustytorrent.Base.{
  ℕ, zero, suc, ◌+◌, ◌*◌, ◌/◌, ◌%◌, ◌<◌, ◌≤◌, ◌≡◌, refl, sym, ap, ◌∙◌, inl, inr, Bool, true, false,
  ◌&&◌, ◌||◌, List, [], ◌∷◌, arith, ◌==◌, ==_iff, if◌then◌else◌, Bool-cases, length, length-set,
  length-replicate, get_or, set, replicate, get_or-set_self, get_or-set_ne, get_or-replicate,
}
use rustytorrent.Base.Bytes.{AreBytes}
use rustytorrent.Base.Bits.{every_under, every_under→holds}
use rustytorrent.Peer.Message.Bitfield.{
  mark, mark_all, test, from_slice, bytes_for, bitfield_to_bytes,
}
use rustytorrent.Peer.Message.Bitfield.Bits.{with_bit_lem, with_bit, same, same_eq}

-- Bit number j of the bytes.
abbrev pub bit_at : List ℕ → ℕ → Bool
bit_at bytes j = test (get_or bytes (j / 8) 0) (j % 8)

pub get_or-byte : (xs : List ℕ) (i : ℕ) → AreBytes xs → get_or xs i 0 < 256
get_or-byte [] i h = omega arith
get_or-byte (x ∷ xs) zero h = h.0
get_or-byte (x ∷ xs) (suc i) h = get_or-byte xs i h.1

set-AreBytes : (xs : List ℕ) (i v : ℕ) → AreBytes xs → v < 256 → AreBytes (set xs i v)
set-AreBytes [] i v h k = tt
set-AreBytes (x ∷ xs) zero v h k = (k, h.1)
set-AreBytes (x ∷ xs) (suc i) v h k = (h.0, set-AreBytes xs i v h.1 k)

mark-AreBytes : (i : ℕ) (bytes : List ℕ) → AreBytes bytes → AreBytes (mark i bytes)
unfolding mark
mark-AreBytes i bytes h =
    set-AreBytes bytes (i / 8) _ h
      (with_bit_lem (get_or bytes (i / 8) 0) (i % 8) (get_or-byte bytes (i / 8) h) (omega arith)).0

or_false : (a : Bool) → a || false ≡ a
or_false true = refl
or_false false = refl

bit_at-mark :
    (i : ℕ) (bytes : List ℕ) (j : ℕ)
    → AreBytes bytes
    → i < 8 * length bytes
    → bit_at (mark i bytes) j ≡ bit_at bytes j || (i == j)
unfolding mark
bit_at-mark i bytes j h k = elim (Bool-cases (i / 8 == j / 8)) [
  | inl same ↦
      let eq : j / 8 ≡ i / 8 = sym ((==_iff (i / 8) (j / 8)).0 same) in
      let at : (i % 8 == j % 8) ≡ (i == j) = ground arith in
      rw
        (
          eq,
          get_or-set_self bytes (i / 8) (with_bit (get_or bytes (i / 8) 0) (i % 8)) 0 (omega arith),
        )
        ((with_bit_lem (get_or bytes (i / 8) 0) (i % 8) (get_or-byte bytes (i / 8) h)
              (omega arith)).1
            (j % 8) (omega arith)
          ∙ ap (λ b. test (get_or bytes (i / 8) 0) (j % 8) || b) at)
  | inr other ↦
      let apart : (i == j) ≡ false = ground arith in
      rw
        (
          get_or-set_ne bytes (i / 8) (j / 8) (with_bit (get_or bytes (i / 8) 0) (i % 8)) 0
              (λ e. ground arith),
          apart,
        )
        (sym (or_false (bit_at bytes j)))
]

length-mark : (i : ℕ) (bytes : List ℕ) → length (mark i bytes) ≡ length bytes
unfolding mark
length-mark i bytes = length-set bytes (i / 8) _

-- Whether bit number j is among the bits from number i on, and set.
abbrev bit_from : ℕ → List Bool → ℕ → Bool
bit_from i [] j = false
bit_from i (bit ∷ bf) j = (bit && (i == j)) || bit_from (suc i) bf j

marked-or :
    (i : ℕ) (bit : Bool) (bytes : List ℕ) (j : ℕ)
    → AreBytes bytes
    → i < 8 * length bytes
    → bit_at (if bit then mark i bytes else bytes) j ≡ bit_at bytes j || (bit && (i == j))
marked-or i true bytes j h k = bit_at-mark i bytes j h k
marked-or i false bytes j h k = sym (or_false (bit_at bytes j))

or_assoc : (a b c : Bool) → (a || b) || c ≡ a || (b || c)
or_assoc true b c = refl
or_assoc false b c = refl

marked-All :
    (i : ℕ) (bit : Bool) (bytes : List ℕ)
    → AreBytes bytes
    → AreBytes (if bit then mark i bytes else bytes)
      × (length (if bit then mark i bytes else bytes) ≡ length bytes)
marked-All i true bytes h = (mark-AreBytes i bytes h, length-mark i bytes)
marked-All i false bytes h = (h, refl)

pub mark_all-AreBytes :
    (i : ℕ) (bf : List Bool) (bytes : List ℕ)
    → AreBytes bytes
    → AreBytes (mark_all i bf bytes) × (length (mark_all i bf bytes) ≡ length bytes)
unfolding mark_all
mark_all-AreBytes i [] bytes h = (h, refl)
mark_all-AreBytes i (bit ∷ bf) bytes h =
    let (all, size) = marked-All i bit bytes h in
    let (all', size') = mark_all-AreBytes (suc i) bf (if bit then mark i bytes else bytes) all in
    (all', size' ∙ size)

bit_at-mark_all :
    (i : ℕ) (bf : List Bool) (bytes : List ℕ) (j : ℕ)
    → AreBytes bytes
    → i + length bf ≤ 8 * length bytes
    → bit_at (mark_all i bf bytes) j ≡ bit_at bytes j || bit_from i bf j
unfolding mark_all
bit_at-mark_all i [] bytes j h k = sym (or_false (bit_at bytes j))
bit_at-mark_all i (bit ∷ bf) bytes j h k =
    let (all, size) = marked-All i bit bytes h in
    bit_at-mark_all (suc i) bf (if bit then mark i bytes else bytes) j all (omega arith)
    ∙ (ap (λ b. b || bit_from (suc i) bf j) (marked-or i bit bytes j h (omega arith))
        ∙ or_assoc (bit_at bytes j) (bit && (i == j)) (bit_from (suc i) bf j))

-- Of the bits before the first, none is among them.
bit_from-before : (i : ℕ) (bf : List Bool) (j : ℕ) → j < i → bit_from i bf j ≡ false
bit_from-before i [] j h = refl
bit_from-before i (bit ∷ bf) j h =
    let apart : (i == j) ≡ false = ground arith in
    rw (apart, bit_from-before (suc i) bf j (omega arith)) (none_of bit)
  where
    none_of : (bit : Bool) → (bit && false) || false ≡ false
    none_of true = refl
    none_of false = refl

bit_from-get_or : (i : ℕ) (bf : List Bool) (k : ℕ) → bit_from i bf (i + k) ≡ get_or bf k false
bit_from-get_or i [] k = refl
bit_from-get_or i (bit ∷ bf) zero =
    let here : (i == i + 0) ≡ true = ground arith in
    rw (here, bit_from-before (suc i) bf (i + 0) (omega arith)) (is_bit bit)
  where
    is_bit : (bit : Bool) → (bit && true) || false ≡ bit
    is_bit true = refl
    is_bit false = refl
bit_from-get_or i (bit ∷ bf) (suc k) =
    let apart : (i == i + suc k) ≡ false = ground arith in
    let next : i + suc k ≡ suc i + k = omega arith in
    rw (apart, and_false bit, next) (bit_from-get_or (suc i) bf k)
  where
    and_false : (bit : Bool) → bit && false ≡ false
    and_false true = refl
    and_false false = refl

pub replicate-AreBytes : (n : ℕ) → AreBytes (replicate n 0)
replicate-AreBytes zero = tt
replicate-AreBytes (suc n) = (omega arith, replicate-AreBytes n)

test-zero : (k : ℕ) → k < 8 → test 0 k ≡ false
test-zero k h =
    same_eq (test 0 k) false (every_under→holds 8 (λ k. same (test 0 k) false) k table h)
  where
    table : every_under 8 (λ k. same (test 0 k) false) ≡ true
    table = unfold every_under in refl

-- The bits of the encoding are those of the bitfield, and clear behind it.
pub bit_at-bitfield_to_bytes :
    (bf : List Bool) (j : ℕ) → bit_at (bitfield_to_bytes bf) j ≡ get_or bf j false
unfolding bitfield_to_bytes
bit_at-bitfield_to_bytes bf j =
    let n = bytes_for (length bf) in
    let first : 0 + j ≡ j = omega arith in
    let found = bit_from-get_or 0 bf j in
    let bit : bit_from 0 bf j ≡ get_or bf j false = rw first at found in
    bit_at-mark_all 0 bf (replicate n 0) j (replicate-AreBytes n)
      (omega (arith, length-replicate n zero))
    ∙ rw (get_or-replicate n (j / 8) zero, test-zero (j % 8) (omega arith)) bit

pub length-from_slice : (bytes : List ℕ) → length (from_slice bytes) ≡ 8 * length bytes
unfolding from_slice
length-from_slice [] = refl
length-from_slice (b ∷ bytes) = omega (arith, length-from_slice bytes)

pub from_slice-bit_at :
    (bytes : List ℕ) (j : ℕ) → get_or (from_slice bytes) j false ≡ bit_at bytes j
unfolding from_slice
from_slice-bit_at [] j = sym (test-zero (j % 8) (omega arith))
from_slice-bit_at (b ∷ bytes) zero = refl
from_slice-bit_at (b ∷ bytes) (suc zero) = refl
from_slice-bit_at (b ∷ bytes) (suc (suc zero)) = refl
from_slice-bit_at (b ∷ bytes) (suc (suc (suc zero))) = refl
from_slice-bit_at (b ∷ bytes) (suc (suc (suc (suc zero)))) = refl
from_slice-bit_at (b ∷ bytes) (suc (suc (suc (suc (suc zero))))) = refl
from_slice-bit_at (b ∷ bytes) (suc (suc (suc (suc (suc (suc zero)))))) = refl
from_slice-bit_at (b ∷ bytes) (suc (suc (suc (suc (suc (suc (suc zero))))))) = refl
from_slice-bit_at (b ∷ bytes) (suc (suc (suc (suc (suc (suc (suc (suc j)))))))) =
    let byte : suc (suc (suc (suc (suc (suc (suc (suc j))))))) / 8 ≡ suc (j / 8) = omega arith in
    let bit : suc (suc (suc (suc (suc (suc (suc (suc j))))))) % 8 ≡ j % 8 = omega arith in
    rw (byte, bit) (from_slice-bit_at bytes j)
