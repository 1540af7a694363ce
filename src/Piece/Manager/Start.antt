-- ===== src/Piece/Manager/Start.antt =====
-- src/piece/manager.rs: a new manager is well formed, and wants everything it does not have.
use rustytorrent.Base.{
  ℕ, zero, suc, ◌+◌, ◌^◌, ◌<◌, ◌≤◌, ◌≡◌, refl, ap, inl, inr, Option-cases, true, false, Option,
  none, some, List, arith, length, get_elem?, length-replicate, replicate, lt_of_get_elem?,
}
use rustytorrent.Piece.Geometry.{num_blocks_for_piece}
use rustytorrent.Piece.Row.Invariant as RowInvariant
use rustytorrent.Piece.Row.{Row, missing, fresh}
use rustytorrent.Piece.Manager.{PieceManager, initial, new, bit_rows, row, piece_size, num_blocks}
use rustytorrent.Piece.Manager.Invariant.{IsValid}

get_elem?-replicate {ℓ} :
    {A : Type ℓ} (n j : ℕ) (a : A) → j < n → get_elem? (replicate n a) j ≡ some a
get_elem?-replicate zero j a h = elim h [ ]
get_elem?-replicate (suc n) zero a h = refl
get_elem?-replicate (suc n) (suc j) a h = get_elem?-replicate n j a (omega arith)

module _ (piece_length total_length n : ℕ) where
  length-bit_rows : (left i : ℕ) → length (bit_rows left i piece_length total_length n) ≡ left
  unfolding bit_rows
  length-bit_rows zero i = refl
  length-bit_rows (suc left) i = ap suc (length-bit_rows left (i + 1))

  get_elem?-bit_rows :
      (left i j k : ℕ)
      → i + j ≡ k
      → j < left
      → get_elem? (bit_rows left i piece_length total_length n) j
        ≡ some (replicate (num_blocks_for_piece k piece_length total_length n) false)
  unfolding bit_rows
  get_elem?-bit_rows zero i j k e h = elim h [ ]
  get_elem?-bit_rows (suc left) i zero k e h =
      let same : i ≡ k = omega arith in
      ap (λ m. some (replicate (num_blocks_for_piece m piece_length total_length n) false)) same
  get_elem?-bit_rows (suc left) i (suc j) k e h =
      get_elem?-bit_rows left (i + 1) j k (omega arith) (omega arith)

row→lt : (pm : PieceManager) (i : ℕ) (r : Row) → row pm i ≡ some r → i < length pm.states
unfolding row
row→lt pm i r e = elim (Option-cases (get_elem? pm.states i)) [
  | inl f ↦ let bad = rw (f, row) at e in cc
  | inr (s, f) ↦ lt_of_get_elem? pm.states i s f
]

row-initial :
    (piece_length total_length n i : ℕ)
    → i < n
    → let pm = initial piece_length total_length n in row pm i ≡ some (fresh (num_blocks pm i))
row-initial piece_length total_length n i h =
    let nb = num_blocks_for_piece i piece_length total_length n in
    unfold initial row fresh num_blocks in
    rw (
      get_elem?-replicate n i missing h,
      get_elem?-bit_rows piece_length total_length n n 0 i i (omega arith) h,
      get_elem?-replicate n i (let o : Option (List ℕ) = none in o) h,
    )

pub initial-IsValid :
    (piece_length total_length n : ℕ)
    → 0 < piece_length
    → piece_length ≤ 2 ^ 32
    → IsValid (initial piece_length total_length n)
unfolding initial fresh
initial-IsValid piece_length total_length n h le = record {
  piece_length_pos = h;
  piece_length_le = le;
  states_len = length-replicate n missing;
  requested_len = length-bit_rows piece_length total_length n n 0;
  received_len = length-bit_rows piece_length total_length n n 0;
  buffers_len = length-replicate n _;
  local_len = length-replicate n false;
  wanted_len = length-replicate n true;
  rows = λ i r e. started i r e;
  local_of_complete =
      λ i r e c. let s : r.state ≡ missing = ap (λ x. x.state) (is_fresh i r e) in cc;
}
  where
    pm : PieceManager
    pm = initial piece_length total_length n

    is_fresh : (i : ℕ) (r : Row) → row pm i ≡ some r → r ≡ fresh (num_blocks pm i)
    is_fresh i r e = cc (
        row-initial piece_length total_length n i
          (omega (arith, row→lt pm i r e, length-replicate n missing)))

    started :
        (i : ℕ) (r : Row)
        → row pm i ≡ some r
        → RowInvariant.IsValid (piece_size pm i) (num_blocks pm i) r
    started i r e =
        rw (is_fresh i r e) (RowInvariant.fresh-IsValid (piece_size pm i) (num_blocks pm i))

-- A new manager for at least one piece of positive length, of 2 ^ 32 bytes at most, is well formed.
pub new-IsValid :
    (piece_length total_length n : ℕ)
    → 0 < piece_length
    → piece_length ≤ 2 ^ 32
    → 0 < n
    → (pm : PieceManager) × (new piece_length total_length n ≡ some pm) × IsValid pm
unfolding new
new-IsValid piece_length total_length zero h le k = elim k [ ]
new-IsValid piece_length total_length (suc n) h le k =
    (_, refl, initial-IsValid piece_length total_length (suc n) h le)
