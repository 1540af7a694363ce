-- ===== src/Piece/Geometry.antt =====
-- src/piece/manager.rs: how a torrent is cut into pieces and a piece into blocks.
-- Piece and block numbers are `usize`; sizes are `u64`. Nothing here exceeds the torrent's length.
pub mod Sums
use rustytorrent.Base.{ℕ, ◌+◌, ◌-◌, ◌*◌, ◌/◌, ◌%◌, min, ◌==◌, if◌then◌else◌}
use rustytorrent.Peer.Message.{block_size}

-- The size of the last piece is what remains. The source's `%` panics on a piece length of 0.
unfoldable pub piece_size_for : ℕ → ℕ → ℕ → ℕ → ℕ
piece_size_for index piece_length total_length num_pieces =
    if index + 1 == num_pieces
    then (let r = total_length % piece_length in if r == 0 then piece_length else r)
    else piece_length

-- `div_ceil` by the block size.
unfoldable pub blocks_in : ℕ → ℕ
blocks_in size = (size + (block_size - 1)) / block_size

unfoldable pub num_blocks_for_piece : ℕ → ℕ → ℕ → ℕ → ℕ
unfolding piece_size_for blocks_in
num_blocks_for_piece index piece_length total_length num_pieces =
    blocks_in (piece_size_for index piece_length total_length num_pieces)

-- `PieceManager::block_length`, of the piece's size: `saturating_sub`, then `min`.
unfoldable pub block_length_in : ℕ → ℕ → ℕ
block_length_in size block_index = min (size - block_index * block_size) block_size
