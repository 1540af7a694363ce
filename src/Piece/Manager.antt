-- ===== src/Piece/Manager.antt =====
-- src/piece/manager.rs: `PieceManager`. The state of one piece, and what the methods do to it,
-- is in Piece/Row.antt; here are the vectors that hold it for every piece.
-- A method of one piece that panics in the source returns `none`: the piece's entries are looked up
-- in all four vectors first, and Piece/Row/Panics has what else may panic. The counts over all pieces
-- read false out of range of `wanted` and `local`.
pub mod Invariant
pub mod Start
pub mod Calls
pub mod Selection
use rustytorrent.Base.{
  ℕ, zero, suc, ◌+◌, Bool, true, false, not, ◌&&◌, ◌||◌, Option, none, some, List, [], ◌∷◌, leb,
  ◌!=◌, if◌then◌else◌, length, get_elem?, get_or, set, replicate,
}
use rustytorrent.Base.Outcome.{Error, Result, ok, err}
use rustytorrent.Piece.Geometry.{piece_size_for, num_blocks_for_piece, block_length_in}
use rustytorrent.Piece.Row
use rustytorrent.Piece.Row.Panics
use rustytorrent.Piece.Row.Panics.{◌>>=◌, set_bit}
use rustytorrent.Piece.Row.{Row, PieceState, missing, BlockOutcome, bit, is_state_complete}

pub record PieceManager : Type 0 where
  pub piece_length : ℕ
  pub total_length : ℕ
  pub num_pieces : ℕ
  pub states : List PieceState
  pub requested : List (List Bool)
  pub received : List (List Bool)
  pub buffers : List (Option (List ℕ))
  pub local : List Bool
  pub wanted : List Bool

-- The bit vectors of `new`, for the pieces from i on.
unfoldable pub bit_rows : ℕ → ℕ → ℕ → ℕ → ℕ → List (List Bool)
bit_rows zero i piece_length total_length num_pieces = []
bit_rows (suc left) i piece_length total_length num_pieces =
    replicate (num_blocks_for_piece i piece_length total_length num_pieces) false
    ∷ bit_rows left (i + 1) piece_length total_length num_pieces

unfoldable pub initial : ℕ → ℕ → ℕ → PieceManager
unfolding bit_rows
initial piece_length total_length num_pieces = record {
  piece_length = piece_length;
  total_length = total_length;
  num_pieces = num_pieces;
  states = replicate num_pieces missing;
  requested = bit_rows num_pieces 0 piece_length total_length num_pieces;
  received = bit_rows num_pieces 0 piece_length total_length num_pieces;
  buffers = replicate num_pieces none;
  local = replicate num_pieces false;
  wanted = replicate num_pieces true;
}

-- `new` panics without a piece.
unfoldable pub new : ℕ → ℕ → ℕ → Option PieceManager
unfolding initial
new piece_length total_length zero = none
new piece_length total_length (suc n) = some (initial piece_length total_length (suc n))

-- The loop of `set_wanted`, from bit i on.
unfoldable pub write_bits : List Bool → ℕ → List Bool → List Bool
write_bits wanted i [] = wanted
write_bits wanted i (w ∷ mask) = write_bits (set wanted i w) (i + 1) mask

-- A mask of the wrong length is ignored.
unfoldable pub set_wanted : PieceManager → List Bool → PieceManager
unfolding write_bits
set_wanted pm mask =
    if length mask != pm.num_pieces then pm else record pm { wanted = write_bits pm.wanted 0 mask }

unfoldable pub is_wanted : PieceManager → ℕ → Bool
is_wanted pm index = get_or pm.wanted index false

-- `BitSlice::count_ones`.
unfoldable pub count_ones : List Bool → ℕ
count_ones [] = 0
count_ones (b ∷ bs) = (if b then 1 else 0) + count_ones bs

unfoldable pub wanted_count : PieceManager → ℕ
unfolding count_ones
wanted_count pm = count_ones pm.wanted

unfoldable pub piece_size : PieceManager → ℕ → ℕ
unfolding piece_size_for
piece_size pm index = piece_size_for index pm.piece_length pm.total_length pm.num_pieces

unfoldable pub num_blocks : PieceManager → ℕ → ℕ
unfolding num_blocks_for_piece
num_blocks pm index = num_blocks_for_piece index pm.piece_length pm.total_length pm.num_pieces

unfoldable pub block_length : PieceManager → ℕ → ℕ → ℕ
unfolding piece_size block_length_in
block_length pm index block_index = block_length_in (piece_size pm index) block_index

-- `(i..i + left).all(p)` and `(i..i + left).filter(p).count()`.
unfoldable pub all_range : ℕ → ℕ → (ℕ → Bool) → Bool
all_range zero i p = true
all_range (suc left) i p = p i && all_range left (i + 1) p

unfoldable pub count_range : ℕ → ℕ → (ℕ → Bool) → ℕ
count_range zero i p = 0
count_range (suc left) i p = (if p i then 1 else 0) + count_range left (i + 1) p

unfoldable pub is_complete : PieceManager → Bool
unfolding all_range
is_complete pm = all_range pm.num_pieces 0 λ i. not (bit pm.wanted i) || bit pm.local i

unfoldable pub complete_count : PieceManager → ℕ
unfolding count_ones
complete_count pm = count_ones pm.local

unfoldable pub wanted_complete_count : PieceManager → ℕ
unfolding count_range
wanted_complete_count pm = count_range pm.num_pieces 0 λ i. bit pm.wanted i && bit pm.local i

unfoldable pub missing_count : PieceManager → ℕ
unfolding count_range
missing_count pm = count_range pm.num_pieces 0 λ i. bit pm.wanted i && not (bit pm.local i)

-- The pieces from i on whose state is not `Complete`.
unfoldable pub incomplete_from : ℕ → List PieceState → List ℕ
incomplete_from i [] = []
incomplete_from i (s ∷ ss) =
    let rest = incomplete_from (i + 1) ss in if is_state_complete s then rest else i ∷ rest

unfoldable pub missing_pieces : PieceManager → List ℕ
unfolding incomplete_from
missing_pieces pm = incomplete_from 0 pm.states

-- `states[index]`, `requested[index]`, `received[index]` and `buffers[index]`.
unfoldable pub row : PieceManager → ℕ → Option Row
row pm index = do
  state ← get_elem? pm.states index
  requested ← get_elem? pm.requested index
  received ← get_elem? pm.received index
  buffer ← get_elem? pm.buffers index
  some (record { state = state; requested = requested; received = received; buffer = buffer })

unfoldable pub put_row : PieceManager → ℕ → Row → PieceManager
put_row pm index r = record pm {
  states = set pm.states index r.state;
  requested = set pm.requested index r.requested;
  received = set pm.received index r.received;
  buffers = set pm.buffers index r.buffer;
}

unfoldable pub reserve_block : PieceManager → ℕ → Option (PieceManager × Option (ℕ × ℕ))
reserve_block pm index = do
  r ← row pm index
  result ← Panics.reserve_block r (piece_size pm index) (num_blocks pm index)
  some (put_row pm index result.0, result.1)

unfoldable pub unfinished_blocks : PieceManager → ℕ → Option (List (ℕ × ℕ))
unfinished_blocks pm index = do
  r ← row pm index
  Panics.unfinished_blocks r (piece_size pm index) (num_blocks pm index)

unfoldable pub release_block : PieceManager → ℕ → ℕ → Option PieceManager
release_block pm index begin = do
  r ← row pm index
  some (put_row pm index (Row.release_block r begin))

unfoldable pub release_piece_inflight : PieceManager → ℕ → Option PieceManager
release_piece_inflight pm index = do
  r ← row pm index
  r' ← Panics.release_piece_inflight r (num_blocks pm index)
  some (put_row pm index r')

-- An index out of range is a peer's error, not a panic.
unfoldable pub received_block :
    PieceManager → ℕ → ℕ → List ℕ → Option (PieceManager × Result BlockOutcome)
received_block pm index begin block =
    if leb pm.num_pieces index then some (pm, err Error.network) else (do
      r ← row pm index
      result ← Panics.received_block r (piece_size pm index) (num_blocks pm index) begin block
      some (put_row pm index result.0, result.1))

unfoldable pub reset_piece : PieceManager → ℕ → Option PieceManager
reset_piece pm index = do
  r ← row pm index
  r' ← Panics.reset_piece r (num_blocks pm index)
  some (put_row pm index r')

-- `mark_complete` after verification; `mark_complete_verified`, for the resume scan, is the same.
unfoldable pub mark_complete : PieceManager → ℕ → Option PieceManager
mark_complete pm index = do
  r ← row pm index
  local ← set_bit pm.local index true
  some (record (put_row pm index (Row.mark_complete r)) { local = local })

unfoldable pub mark_complete_verified : PieceManager → ℕ → Option PieceManager
mark_complete_verified pm index = do
  r ← row pm index
  local ← set_bit pm.local index true
  some (record (put_row pm index (Row.mark_complete r)) { local = local })
