-- ===== src/Piece/Manager/Selection.antt =====
-- src/piece/manager.rs: completion and progress under a selection of pieces.
use rustytorrent.Base.{
  ℕ, zero, suc, ◌+◌, ◌<◌, ◌≡◌, ◌↔◌, refl, sym, ap, ap₂, ◌∙◌, Bool, true, not, ◌&&◌, List, [], ◌∷◌,
  arith, length, set, length-set, ◌≢◌, ◌==◌, ==_iff, ◌⊎◌, inl, inr, Bool-cases, if◌then◌else◌,
}
use rustytorrent.Piece.Row.{bit}
use rustytorrent.Piece.Row.Bits.{bit-set_self, bit-set_ne}
use rustytorrent.Piece.Manager.{
  PieceManager, write_bits, set_wanted, is_wanted, wanted_count, count_ones, all_range, count_range,
  is_complete, wanted_complete_count, missing_count,
}

all_range-count :
    (left i : ℕ) (p q : ℕ → Bool)
    → ((j : ℕ) → q j ≡ not (p j))
    → (all_range left i p ≡ true) ↔ (count_range left i q ≡ 0)
unfolding all_range count_range
all_range-count zero i p q e = (λ _. refl, λ _. refl)
all_range-count (suc left) i p q e =
    let rest = all_range-count left (i + 1) p q e in
    (λ h. ground (arith, e i, rest.0), λ h. ground (arith, e i, rest.1))

-- A download is complete exactly when no wanted piece is missing.
pub is_complete_iff : (pm : PieceManager) → (is_complete pm ≡ true) ↔ (missing_count pm ≡ 0)
unfolding is_complete missing_count
is_complete_iff pm = all_range-count pm.num_pieces 0 _ _ λ j. ground arith

count_range-split :
    (left i : ℕ) (p q : ℕ → Bool)
    → count_range left i (λ j. p j && q j) + count_range left i (λ j. p j && not (q j))
      ≡ count_range left i p
unfolding count_range
count_range-split zero i p q = refl
count_range-split (suc left) i p q = ground (arith, count_range-split left (i + 1) p q)

count_range-shift :
    (left i : ℕ) (p q : ℕ → Bool)
    → ((j : ℕ) → p (suc j) ≡ q j)
    → count_range left (suc i) p ≡ count_range left i q
unfolding count_range
count_range-shift zero i p q e = refl
count_range-shift (suc left) i p q e =
    let next : suc i + 1 ≡ suc (i + 1) = omega arith in
    ap₂ (λ b n. (if b then 1 else 0) + n) (e i)
      (ap (λ k. count_range left k p) next ∙ count_range-shift left (i + 1) p q e)

-- The bits set in a vector, counted by index.
count_ones-range : (bits : List Bool) → count_range (length bits) 0 (bit bits) ≡ count_ones bits
unfolding count_range count_ones
count_ones-range [] = refl
count_ones-range (b ∷ bits) =
    ap (λ n. (if b then 1 else 0) + n)
      (count_range-shift (length bits) 0 (bit (b ∷ bits)) (bit bits) (λ j. refl)
        ∙ count_ones-range bits)

-- The pieces that are wanted are the wanted ones that are here and the wanted ones that are
-- missing, so the displayed progress never exceeds the number of wanted pieces.
pub wanted_count_split :
    (pm : PieceManager)
    → length pm.wanted ≡ pm.num_pieces
    → wanted_complete_count pm + missing_count pm ≡ wanted_count pm
unfolding wanted_complete_count missing_count wanted_count
wanted_count_split pm e =
    count_range-split pm.num_pieces 0 (bit pm.wanted) (bit pm.local)
    ∙ ap (λ n. count_range n 0 (bit pm.wanted)) (sym e)
    ∙ count_ones-range pm.wanted

length-write_bits :
    (wanted : List Bool) (i : ℕ) (mask : List Bool)
    → length (write_bits wanted i mask) ≡ length wanted
unfolding write_bits
length-write_bits wanted i [] = refl
length-write_bits wanted i (w ∷ mask) =
    length-write_bits (set wanted i w) (i + 1) mask ∙ length-set wanted i w

bit-write_bits_before :
    (wanted : List Bool) (i : ℕ) (mask : List Bool) (j : ℕ)
    → j < i
    → bit (write_bits wanted i mask) j ≡ bit wanted j
unfolding write_bits
bit-write_bits_before wanted i [] j h = refl
bit-write_bits_before wanted i (w ∷ mask) j h =
    bit-write_bits_before (set wanted i w) (i + 1) mask j (omega arith)
    ∙ bit-set_ne wanted i j w (λ e. absurd (omega arith))

bit-write_bits :
    (wanted : List Bool) (i : ℕ) (mask : List Bool) (j k : ℕ)
    → i + length mask ≡ length wanted
    → i + j ≡ k
    → j < length mask
    → bit (write_bits wanted i mask) k ≡ bit mask j
unfolding write_bits
bit-write_bits wanted i [] j k l e h = elim h [ ]
bit-write_bits wanted i (w ∷ mask) zero k l e h =
    let here : i ≡ k = omega arith in
    bit-write_bits_before (set wanted i w) (i + 1) mask k (omega arith)
    ∙ ap (bit (set wanted i w)) (sym here)
    ∙ bit-set_self wanted i w (omega arith)
bit-write_bits wanted i (w ∷ mask) (suc j) k l e h =
    bit-write_bits (set wanted i w) (i + 1) mask j k (omega (arith, length-set wanted i w))
      (omega arith) (omega arith)

-- `set_wanted` takes a mask with a bit for each piece over as it stands, and ignores any other.
pub set_wanted_lem :
    (pm : PieceManager) (mask : List Bool)
    → length pm.wanted ≡ pm.num_pieces
    → ((length mask ≡ pm.num_pieces)
        × ((i : ℕ) → i < pm.num_pieces → is_wanted (set_wanted pm mask) i ≡ bit mask i))
      ⊎ ((length mask ≢ pm.num_pieces) × (set_wanted pm mask ≡ pm))
unfolding set_wanted is_wanted
set_wanted_lem pm mask l = elim (Bool-cases (length mask == pm.num_pieces)) [
  | inl same ↦
      let e : length mask ≡ pm.num_pieces = (==_iff _ _).0 same in
      inl (
        e,
        λ i h.
            rw same (bit-write_bits pm.wanted 0 mask i i (omega arith) (omega arith) (omega arith)),
      )
  | inr other ↦ inr ((λ e. ground arith), rw other refl)
]
