-- ===== src/Peer/Mse/Rc4/Stream.antt =====
-- src/peer/mse/rc4.rs: decryption undoes encryption, and the S-box stays a permutation.
use Prim.Native.Nat.{bit_xor}
use rustytorrent.Base.{
  ℕ, zero, suc, ◌+◌, ◌<◌, ◌≡◌, ◌≢◌, refl, sym, ap, ◌∙◌, inl, inr, Bool-cases, true, some, List, [],
  ◌∷◌, arith, ◌==◌, ==_iff, length, length-set, set, if◌then◌else◌,
}
use rustytorrent.Base.Bytes.{byte_at, AreBytes}
use rustytorrent.Base.Bits.{every_under, every_under→holds}
use rustytorrent.Peer.Mse.Rc4.{Rc4, swap, identity_from, schedule, new, step, process, skip}

xor_twice_table : every_under 256 (λ k. every_under 256 (λ b. bit_xor (bit_xor b k) k == b)) ≡ true
unfolding every_under
xor_twice_table = refl

xor_twice : (b k : ℕ) → b < 256 → k < 256 → bit_xor (bit_xor b k) k ≡ b
xor_twice b k hb hk =
    let row =
      every_under→holds 256 (λ k. every_under 256 (λ b. bit_xor (bit_xor b k) k == b)) k
        xor_twice_table hk in
    (==_iff _ b).0 (every_under→holds 256 (λ b. bit_xor (bit_xor b k) k == b) b row hb)

-- A permutation of the bytes: 256 of them, none twice.
pub record IsPermutation (s : List ℕ) : Type 0 where
  pub count : length s ≡ 256
  pub bytes : (k : ℕ) → byte_at s k < 256
  pub distinct : (a b : ℕ) → a < 256 → b < 256 → byte_at s a ≡ byte_at s b → a ≡ b

byte_at-set_self : (s : List ℕ) (a v : ℕ) → a < length s → byte_at (set s a v) a ≡ v
byte_at-set_self [] a v h = absurd (omega arith)
byte_at-set_self (x ∷ s) zero v h = refl
byte_at-set_self (x ∷ s) (suc a) v h = byte_at-set_self s a v (omega arith)

byte_at-set_ne : (s : List ℕ) (a k v : ℕ) → a ≢ k → byte_at (set s a v) k ≡ byte_at s k
byte_at-set_ne [] a k v n = refl
byte_at-set_ne (x ∷ s) zero zero v n = absurd (n refl)
byte_at-set_ne (x ∷ s) zero (suc k) v n = refl
byte_at-set_ne (x ∷ s) (suc a) zero v n = refl
byte_at-set_ne (x ∷ s) (suc a) (suc k) v n = byte_at-set_ne s a k v (λ e. n (ap suc e))

-- The place that `swap` of a and b puts at k.
abbrev pub transpose : ℕ → ℕ → ℕ → ℕ
transpose a b k = if k == b then a else if k == a then b else k

pub byte_at-swap :
    (s : List ℕ) (a b k : ℕ)
    → a < length s
    → b < length s
    → byte_at (swap s a b) k ≡ byte_at s (transpose a b k)
unfolding swap
byte_at-swap s a b k ha hb = elim (Bool-cases (k == b)) [
  | inl at_b ↦
      let same : k ≡ b = (==_iff k b).0 at_b in
      rw at_b (
        ap (byte_at (set (set s a (byte_at s b)) b (byte_at s a))) same
        ∙ byte_at-set_self (set s a (byte_at s b)) b (byte_at s a)
            (omega (arith, length-set s a (byte_at s b))))
  | inr off_b ↦
      let apart = byte_at-set_ne (set s a (byte_at s b)) b k (byte_at s a) (ground arith) in
      elim (Bool-cases (k == a)) [
        | inl at_a ↦
            let same : k ≡ a = (==_iff k a).0 at_a in
            rw (off_b, at_a)
              (apart
                ∙ ap (byte_at (set s a (byte_at s b))) same
                ∙ byte_at-set_self s a (byte_at s b) ha)
        | inr off_a ↦ rw (off_b, off_a) (apart ∙ byte_at-set_ne s a k (byte_at s b) (ground arith))
      ]
]

transpose-lt : (a b k : ℕ) → a < 256 → b < 256 → k < 256 → transpose a b k < 256
transpose-lt a b k ha hb hk = ground arith

transpose_injective : (a b k m : ℕ) → transpose a b k ≡ transpose a b m → k ≡ m
transpose_injective a b k m e = ground arith

pub swap-IsPermutation :
    (s : List ℕ) (a b : ℕ) → a < 256 → b < 256 → IsPermutation s → IsPermutation (swap s a b)
swap-IsPermutation s a b ha hb v = record {
  count = unfold swap in length-set (set s a (byte_at s b)) b _ ∙ length-set s a _ ∙ v.count;
  bytes = λ k. rw (at_ k) (v.bytes (transpose a b k));
  distinct = λ k m hk hm e. transpose_injective a b k m (
      v.distinct (transpose a b k) (transpose a b m) (transpose-lt a b k ha hb hk)
        (transpose-lt a b m ha hb hm) (sym (at_ k) ∙ e ∙ at_ m));
}
  where
    at_ : (k : ℕ) → byte_at (swap s a b) k ≡ byte_at s (transpose a b k)
    at_ k = byte_at-swap s a b k (omega (arith, v.count)) (omega (arith, v.count))

pub schedule-IsPermutation :
    (left i j : ℕ) (key s : List ℕ)
    → i + left ≡ 256
    → IsPermutation s
    → IsPermutation (schedule left i j key s)
unfolding schedule
schedule-IsPermutation zero i j key s e v = v
schedule-IsPermutation (suc left) i j key s e v =
    schedule-IsPermutation left (i + 1) _ key _ (omega arith)
      (swap-IsPermutation s i _ (omega arith) (omega arith) v)

pub byte_at-identity_from : (left i k : ℕ) → k < left → byte_at (identity_from left i) k ≡ i + k
unfolding identity_from
byte_at-identity_from zero i k h = absurd (omega arith)
byte_at-identity_from (suc left) i zero h = omega arith
byte_at-identity_from (suc left) i (suc k) h =
    let rest = byte_at-identity_from left (i + 1) k (omega arith) in omega (arith, rest)

byte_at-identity_from_lt :
    (left i k : ℕ) → 0 < i + left → byte_at (identity_from left i) k < i + left
unfolding identity_from
byte_at-identity_from_lt zero i k h = omega arith
byte_at-identity_from_lt (suc left) i zero h = omega arith
byte_at-identity_from_lt (suc left) i (suc k) h =
    let rest = byte_at-identity_from_lt left (i + 1) k (omega arith) in omega (arith, rest)

length-identity_from : (left i : ℕ) → length (identity_from left i) ≡ left
unfolding identity_from
length-identity_from zero i = refl
length-identity_from (suc left) i = omega (arith, length-identity_from left (i + 1))

pub identity-IsPermutation : IsPermutation (identity_from 256 0)
identity-IsPermutation = record {
  count = length-identity_from 256 0;
  bytes = λ k. byte_at-identity_from_lt 256 0 k (omega arith);
  distinct = λ a b ha hb e.
      let at_a = byte_at-identity_from 256 0 a ha in
      let at_b = byte_at-identity_from 256 0 b hb in omega (arith, at_a, at_b, e);
}

-- Every key, of any length but zero, makes a cipher whose S-box is a permutation of the bytes.
pub new-IsPermutation :
    (k : ℕ) (key : List ℕ) → (c : Rc4) × (new (k ∷ key) ≡ some c) × IsPermutation c.s
unfolding new
new-IsPermutation k key =
    (_, refl, schedule-IsPermutation 256 0 0 (k ∷ key) _ (omega arith) identity-IsPermutation)

pub step-IsPermutation : (c : Rc4) → IsPermutation c.s → IsPermutation (step c).0.s
unfolding step
step-IsPermutation c v = swap-IsPermutation c.s _ _ (omega arith) (omega arith) v

step-byte : (c : Rc4) → IsPermutation c.s → (step c).1 < 256
unfolding step
step-byte c v = (swap-IsPermutation c.s _ _ (omega arith) (omega arith) v).bytes _

-- From a state whose S-box is a permutation, whatever bytes are enciphered, the S-box stays one;
-- and what the same state makes of the result are the bytes again, both sides ending in the same
-- state.
pub process-process :
    (c : Rc4) (data_ : List ℕ)
    → IsPermutation c.s
    → AreBytes data_
    → IsPermutation (process c data_).0.s
      × (process c (process c data_).1 ≡ ((process c data_).0, data_))
unfolding process
process-process c [] v h = (v, refl)
process-process c (byte ∷ data_) v h =
    let (kept, back) = process-process (step c).0 data_ (step-IsPermutation c v) h.1 in
    (kept, rw (back, xor_twice byte (step c).1 h.0 (step-byte c v)) refl)

-- The state after n bytes does not depend on them: `skip n` leaves the two sides of a stream at
-- the state that n bytes of traffic would.
pub skip_lem : (c : Rc4) (data_ : List ℕ) → skip c (length data_) ≡ (process c data_).0
unfolding skip process
skip_lem c [] = refl
skip_lem c (byte ∷ data_) = skip_lem (step c).0 data_
