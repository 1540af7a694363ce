-- ===== src/Piece/Row/Bits.antt =====
-- src/piece/manager.rs: the bit vectors of a piece, read, written and cleared.
use rustytorrent.Base.{
  ℕ, zero, suc, ◌+◌, ◌≤◌, ◌<◌, ◌≡◌, ◌≢◌, refl, ap, subst, ==_iff, ◌∙◌, inl, inr, Bool-cases, Bool,
  true, false, List, [], ◌∷◌, arith, length, set, replicate, length-set, ltb, ◌==◌,
}
use rustytorrent.Piece.Row.{bit, all, clear_from}

pub bit-replicate : (n b : ℕ) → bit (replicate n false) b ≡ false
bit-replicate zero b = refl
bit-replicate (suc n) zero = refl
bit-replicate (suc n) (suc b) = bit-replicate n b

pub bit_out : (bits : List Bool) (b : ℕ) → length bits ≤ b → bit bits b ≡ false
bit_out [] b h = refl
bit_out (x ∷ bits) zero h = absurd (omega arith)
bit_out (x ∷ bits) (suc b) h = bit_out bits b (omega arith)

-- A cleared bit reads as clear, also where there is none.
pub bit-set-false : (bits : List Bool) (b : ℕ) → bit (set bits b false) b ≡ false
bit-set-false [] b = refl
bit-set-false (x ∷ bits) zero = refl
bit-set-false (x ∷ bits) (suc b) = bit-set-false bits b

pub bit-set_self :
    (bits : List Bool) (b : ℕ) (v : Bool) → b < length bits → bit (set bits b v) b ≡ v
bit-set_self [] b v h = elim h [ ]
bit-set_self (x ∷ bits) zero v h = refl
bit-set_self (x ∷ bits) (suc b) v h = bit-set_self bits b v (omega arith)

pub bit-set_ne : (bits : List Bool) (b c : ℕ) (v : Bool) → b ≢ c → bit (set bits b v) c ≡ bit bits c
bit-set_ne [] b c v h = refl
bit-set_ne (x ∷ bits) zero zero v h = absurd (h refl)
bit-set_ne (x ∷ bits) zero (suc c) v h = refl
bit-set_ne (x ∷ bits) (suc b) zero v h = refl
bit-set_ne (x ∷ bits) (suc b) (suc c) v h = bit-set_ne bits b c v (λ e. h (ap suc e))

pub all→bit : (bits : List Bool) (b : ℕ) → all bits ≡ true → b < length bits → bit bits b ≡ true
unfolding all
all→bit [] b e h = elim h [ ]
all→bit (x ∷ bits) zero e h = ground arith
all→bit (x ∷ bits) (suc b) e h = all→bit bits b (ground arith) (omega arith)

-- No bit is set, and there is one: then not all are.
pub all_of_clear :
    (bits : List Bool) → 0 < length bits → ((b : ℕ) → bit bits b ≡ false) → all bits ≡ false
unfolding all
all_of_clear [] h c = elim h [ ]
all_of_clear (x ∷ bits) h c = rw (c 0)

pub bit-clear_from :
    (left b c : ℕ) (bits : List Bool)
    → length bits ≤ b + left
    → (c < b → bit bits c ≡ false)
    → bit (clear_from left b bits) c ≡ false
unfolding clear_from
bit-clear_from zero b c bits h k = elim (Bool-cases (ltb c b)) [
  | inl e ↦ k (ground arith)
  | inr e ↦ bit_out bits c (ground arith)
]
bit-clear_from (suc left) b c bits h k =
    bit-clear_from left (b + 1) c (set bits b false) (omega (arith, length-set bits b false))
      λ below. elim (Bool-cases (c == b)) [
        | inl e ↦
            subst (λ j. bit (set bits j false) c ≡ false) ((==_iff c b).0 e) (bit-set-false bits c)
        | inr e ↦ bit-set_ne bits b c false (ground arith) ∙ k (ground arith)
      ]

pub length-clear_from :
    (left b : ℕ) (bits : List Bool) → length (clear_from left b bits) ≡ length bits
unfolding clear_from
length-clear_from zero b bits = refl
length-clear_from (suc left) b bits =
    length-clear_from left (b + 1) (set bits b false) ∙ length-set bits b false
