-- ===== src/Piece/Geometry/Sums.antt =====
-- src/piece/manager.rs: pieces and blocks cover the torrent, with no gap and no overlap.
use rustytorrent.Base.{ℕ, zero, suc, ◌+◌, ◌-◌, ◌*◌, ◌≤◌, ◌<◌, ◌≡◌, ap, ◌∙◌, arith, min}
use native.Mathlib.Decide.{dec_lt}
use native.Mathlib.Nat.{add-mul-mod_self_right, mod-eq_of_lt, mod_self}
use rustytorrent.Peer.Message.{block_size}
use rustytorrent.Piece.Geometry.{piece_size_for, blocks_in, block_length_in}

-- f 0 + f 1 + … + f (n - 1).
abbrev pub sum_below : ℕ → (ℕ → ℕ) → ℕ
sum_below zero f = 0
sum_below (suc n) f = sum_below n f + f n

pub block_length_pos : (size b : ℕ) → b < blocks_in size → 0 < block_length_in size b
unfolding blocks_in block_length_in
block_length_pos size b h = omega arith

-- The first n blocks of a piece hold the first n * 16384 bytes of it, or all of it.
sum-block_length : (size n : ℕ) → sum_below n (block_length_in size) ≡ min size (n * block_size)
unfolding block_length_in
sum-block_length size zero = omega arith
sum-block_length size (suc n) = omega (arith, sum-block_length size n)

-- The blocks of a piece hold its bytes, each block at least one and at most 16384 of them.
pub blocks_cover :
    (size : ℕ)
    → (sum_below (blocks_in size) (block_length_in size) ≡ size)
      × ((b : ℕ)
          → b < blocks_in size
          → (0 < block_length_in size b)
            × (block_length_in size b ≤ block_size)
            × (b * block_size + block_length_in size b ≤ size))
unfolding blocks_in block_length_in
blocks_cover size = (
  omega (arith, sum-block_length size (blocks_in size)),
  λ b h. (omega arith, omega arith, omega arith),
)

sum-piece_size_full :
    (k n piece_length total : ℕ)
    → k < n
    → sum_below k (λ i. piece_size_for i piece_length total n) ≡ k * piece_length
unfolding piece_size_for
sum-piece_size_full zero n piece_length total h = omega arith
sum-piece_size_full (suc k) n piece_length total h =
    ground (arith, sum-piece_size_full k n piece_length total (omega arith))

-- The last piece takes what the others leave, which is at most one piece length.
last_piece_size :
    (n piece_length r : ℕ)
    → 0 < r
    → r ≤ piece_length
    → piece_size_for n piece_length (r + n * piece_length) (suc n) ≡ r
unfolding piece_size_for
last_piece_size n piece_length r lo hi = elim (dec_lt r piece_length) [
  | yes below ↦ ground (
    arith,
    add-mul-mod_self_right r n piece_length,
    mod-eq_of_lt {n = r} {m = piece_length} below,
  )
  | no full ↦
      let same : r ≡ piece_length = omega arith in
      ground (arith, add-mul-mod_self_right r n piece_length, mod_self piece_length, same)
]

-- With as many pieces as the length needs, the piece sizes add up to the torrent's length.
pub pieces_cover :
    (n piece_length total : ℕ)
    → n * piece_length < total
    → total ≤ suc n * piece_length
    → sum_below (suc n) (λ i. piece_size_for i piece_length total (suc n)) ≡ total
pieces_cover n piece_length total lo hi =
    let r = total - n * piece_length in
    let split : total ≡ r + n * piece_length = omega arith in
    let last : piece_size_for n piece_length total (suc n) ≡ r =
      ap (λ t. piece_size_for n piece_length t (suc n)) split
      ∙ last_piece_size n piece_length r (omega arith) (omega arith) in
    omega (arith, last, sum-piece_size_full n (suc n) piece_length total (omega arith))
