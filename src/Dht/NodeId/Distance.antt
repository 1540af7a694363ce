-- ===== src/Dht/NodeId/Distance.antt =====
-- src/dht/node_id.rs: what the bucket index says of two identifiers.
use rustytorrent.Base.{
  ℕ, zero, suc, ◌+◌, ◌-◌, ◌*◌, ◌^◌, ◌≤◌, ◌<◌, ◌≡◌, ◌↔◌, ◌≢◌, refl, sym, ap, ◌∙◌, inl, inr,
  Bool-cases, Bool, true, false, not, ◌&&◌, ◌||◌, leb, none, some, List, [], ◌∷◌, arith, length,
  ◌==◌, ==_iff, bit_xor, ltb, ltb→lt,
}
use native.Mathlib.Nat.{pow-suc}
use native.Mathlib.Numerals.{towards_suc}
use rustytorrent.Base.Bits.{every_under, every_under→holds}
use rustytorrent.Base.Bytes.{AreBytes}
use rustytorrent.Dht.NodeId.{NodeId, IsNodeId, distance, leading_zeros, bucket_from, bucket_index}

abbrev eq_bool : Bool → Bool → Bool
eq_bool true b = b
eq_bool false b = not b

-- Two bytes differ by 0 exactly if they are equal.
xor_table : every_under 256 (λ a. every_under 256 (λ b. eq_bool (bit_xor a b == 0) (a == b))) ≡ true
unfolding every_under
xor_table = refl

xor_byte_table : every_under 256 (λ a. every_under 256 (λ b. ltb (bit_xor a b) 256)) ≡ true
unfolding every_under
xor_byte_table = refl

xor_byte : (a b : ℕ) → a < 256 → b < 256 → bit_xor a b < 256
xor_byte a b ha hb = ltb→lt _ _ (
    every_under→holds 256 (λ b. ltb (bit_xor a b) 256) b
      (every_under→holds 256 (λ a. every_under 256 (λ b. ltb (bit_xor a b) 256)) a xor_byte_table
        ha)
      hb)

xor_zero_iff : (a b : ℕ) → a < 256 → b < 256 → (bit_xor a b ≡ 0) ↔ (a ≡ b)
xor_zero_iff a b ha hb =
    let row =
      every_under→holds 256 (λ a. every_under 256 (λ b. eq_bool (bit_xor a b == 0) (a == b))) a
        xor_table ha in
    let entry = every_under→holds 256 (λ b. eq_bool (bit_xor a b == 0) (a == b)) b row hb in
    (λ e. ground arith, λ e. ground arith)

bucket_from-none :
    (i : ℕ) (id other : NodeId)
    → AreBytes id
    → AreBytes other
    → length id ≡ length other
    → (bucket_from i (distance id other) ≡ none) ↔ (id ≡ other)
unfolding bucket_from distance
bucket_from-none i [] [] h k l = (λ _. refl, λ _. refl)
bucket_from-none i [] (b ∷ other) h k l = absurd (omega arith)
bucket_from-none i (a ∷ id) [] h k l = absurd (omega arith)
bucket_from-none i (a ∷ id) (b ∷ other) h k l =
    let head = xor_zero_iff a b h.0 k.0 in
    let rest = bucket_from-none (i + 1) id other h.1 k.1 (omega arith) in
    (λ e. ground (arith, head.0, rest.0), λ e. ground (arith, head.1, rest.1))

-- There is no bucket for an id of 20 bytes exactly if it is the node's own.
pub bucket_index-none_iff :
    (id other : NodeId)
    → IsNodeId id
    → IsNodeId other
    → (bucket_index id other ≡ none) ↔ (id ≡ other)
unfolding bucket_index
bucket_index-none_iff id other h k = bucket_from-none 0 id other h.0 k.0 (h.1 ∙ sym k.1)

-- A byte string as a big-endian number.
abbrev pub value_be : List ℕ → ℕ
value_be [] = 0
value_be (b ∷ d) = b * 256 ^ length d + value_be d

value_be-lt : (d : List ℕ) → AreBytes d → value_be d < 256 ^ length d
value_be-lt [] h = omega arith
value_be-lt (b ∷ d) h =
    let ih = value_be-lt d h.1 in let one = pow-suc 256 (length d) in grind arith

pow_256 : (k m : ℕ) → 256 ^ k * 2 ^ m ≡ 2 ^ (8 * k + m)
pow_256 zero m = let e : 8 * 0 + m ≡ m = omega arith in rw e (omega arith)
pow_256 (suc k) m =
    let ih = pow_256 k m in
    let step : 2 ^ (8 * k + m + 8) ≡ 256 * 2 ^ (8 * k + m) = simp towards_suc (omega arith) in
    let same : 8 * suc k + m ≡ 8 * k + m + 8 = omega arith in
    rw (same, step, pow-suc 256 k) (omega arith)

-- The highest bit of a byte.
leading_zeros_table :
    every_under 256 (λ b.
      b == 0
      || (leb (2 ^ (7 - leading_zeros b)) b
          && ltb b (2 ^ (8 - leading_zeros b))
          && leb (leading_zeros b) 7))
    ≡ true
unfolding every_under leading_zeros
leading_zeros_table = refl

highest_bit :
    (b : ℕ)
    → b < 256
    → b ≢ 0
    → (leading_zeros b ≤ 7) × (2 ^ (7 - leading_zeros b) ≤ b) × (b < 2 ^ (8 - leading_zeros b))
highest_bit b h n =
    let entry =
      every_under→holds 256
        (λ b.
          b == 0
          || (leb (2 ^ (7 - leading_zeros b)) b
              && ltb b (2 ^ (8 - leading_zeros b))
              && leb (leading_zeros b) 7))
        b leading_zeros_table h in
    ground arith

-- The number of a byte string lies between the powers of two at its highest bit.
leading_value :
    (b n v z k : ℕ)
    → v < 256 ^ n
    → z ≤ 7
    → 2 ^ (7 - z) ≤ b
    → b < 2 ^ (8 - z)
    → 8 * n + (7 - z) ≡ k
    → (2 ^ k ≤ b * 256 ^ n + v) × (b * 256 ^ n + v < 2 ^ (k + 1))
leading_value b n v z k hv hz lo hi e =
    let low = pow_256 n (7 - z) in
    let high = pow_256 n (8 - z) in
    let e' : 8 * n + (8 - z) ≡ k + 1 = omega arith in
    (rw (← e, ← low) (grind arith), rw (← e', ← high) (grind arith))

bucket_from-value :
    (i : ℕ) (d : List ℕ) (k : ℕ)
    → AreBytes d
    → i + length d ≡ 20
    → bucket_from i d ≡ some k
    → (2 ^ k ≤ value_be d) × (value_be d < 2 ^ (k + 1))
unfolding bucket_from
bucket_from-value i [] k h l e = cc
bucket_from-value i (b ∷ d) k h l e = elim (Bool-cases (b == 0)) [
  | inl z ↦
      let rest = bucket_from-value (i + 1) d k h.1 (omega arith) (rw (z, bucket_from) at e) in
      let same : b ≡ 0 = (==_iff b 0).0 z in rw same (omega arith, omega arith)
  | inr z ↦
      let top = highest_bit b h.0 (ground arith) in
      let found = rw (z, bucket_from) at e in
      let index : 159 - (i * 8 + leading_zeros b) ≡ k = cc in
      leading_value b (length d) (value_be d) (leading_zeros b) k (value_be-lt d h.1) top.0 top.1
        top.2 (omega arith)
]

distance-AreBytes :
    (id other : NodeId) → AreBytes id → AreBytes other → AreBytes (distance id other)
unfolding distance
distance-AreBytes [] other h k = tt
distance-AreBytes (a ∷ id) [] h k = tt
distance-AreBytes (a ∷ id) (b ∷ other) h k =
    (xor_byte a b h.0 k.0, distance-AreBytes id other h.1 k.1)

length-distance :
    (id other : NodeId) → length id ≡ length other → length (distance id other) ≡ length id
unfolding distance
length-distance [] other l = refl
length-distance (a ∷ id) [] l = sym l
length-distance (a ∷ id) (b ∷ other) l = ap suc (length-distance id other (omega arith))

bucket_from-lt : (i : ℕ) (d : List ℕ) (k : ℕ) → bucket_from i d ≡ some k → k < 160
unfolding bucket_from
bucket_from-lt i [] k e = cc
bucket_from-lt i (b ∷ d) k e = ground (arith, bucket_from-lt (i + 1) d k)

-- The bucket of another node is the binary logarithm of its distance, rounded down: bucket k holds
-- the distances from 2 ^ k up to 2 ^ (k + 1), as Kademlia has it.
pub bucket_index_value :
    (id other : NodeId) (k : ℕ)
    → IsNodeId id
    → IsNodeId other
    → bucket_index id other ≡ some k
    → (2 ^ k ≤ value_be (distance id other))
      × (value_be (distance id other) < 2 ^ (k + 1))
      × (k < 160)
unfolding bucket_index
bucket_index_value id other k h l e =
    let size : length (distance id other) ≡ 20 = length-distance id other (h.1 ∙ sym l.1) ∙ h.1 in
    let (lo, hi) =
      bucket_from-value 0 (distance id other) k (distance-AreBytes id other h.0 l.0) (omega arith)
        e in
    (lo, hi, bucket_from-lt 0 (distance id other) k e)
