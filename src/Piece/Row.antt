-- ===== src/Piece/Row.antt =====
-- src/piece/manager.rs: the part of `PieceManager` that belongs to one piece, that is
-- `states[index]`, `requested[index]`, `received[index]` and `buffers[index]`, and what each method
-- does to it where it does not panic: Panics has the same methods with their panics. `size` and `nb`
-- are the piece's size and its number of blocks.
pub mod Bits
pub mod Invariant
pub mod Receive
pub mod Slices
pub mod Assembly
pub mod Requests
pub mod Panics
use rustytorrent.Base.{
  ℕ, zero, suc, ◌+◌, ◌*◌, ◌/◌, ◌%◌, ◌^◌, Bool, true, false, not, ◌&&◌, ◌||◌, Option, none, some,
  List, [], ◌∷◌, ◌++◌, ltb, leb, ◌==◌, ◌!=◌, if◌then◌else◌, length, get_or, set, take, drop,
  replicate,
}
use rustytorrent.Base.Outcome.{Error, Result, ok, err}
use rustytorrent.Peer.Message.{block_size}
use rustytorrent.Piece.Geometry.{block_length_in}

pub data PieceState : Type 0 where
  missing in_progress complete : PieceState

abbrev pub is_missing : PieceState → Bool
is_missing missing = true
is_missing _ = false

abbrev pub is_state_complete : PieceState → Bool
is_state_complete complete = true
is_state_complete _ = false

pub data BlockOutcome : Type 0 where
  duplicate stored : BlockOutcome
  completed : List ℕ → BlockOutcome

pub record Row : Type 0 where
  pub state : PieceState
  pub requested : List Bool
  pub received : List Bool
  pub buffer : Option (List ℕ)

-- `bits[b]` of a bit vector, where b is in range.
abbrev pub bit : List Bool → ℕ → Bool
bit bits b = get_or bits b false

-- `BitSlice::all`.
unfoldable pub all : List Bool → Bool
all [] = true
all (b ∷ bs) = b && all bs

-- A row of `PieceManager::new`.
unfoldable pub fresh : ℕ → Row
fresh nb = record {
  state = missing;
  requested = replicate nb false;
  received = replicate nb false;
  buffer = none;
}

-- `Missing` becomes `InProgress` with a zeroed buffer; `reserve_block` and `received_block` both
-- start a piece so.
unfoldable pub start : Row → ℕ → Row
start row size =
    if is_missing row.state
    then record row { state = in_progress; buffer = some (replicate size 0) }
    else row

-- The block's place in the piece and its length.
unfoldable pub block_at : ℕ → ℕ → ℕ × ℕ
unfolding block_length_in
block_at size b = (b * block_size, block_length_in size b)

-- The loop of `reserve_block` over the blocks from b on, of which `left` remain.
unfoldable pub first_free : ℕ → ℕ → Row → Option ℕ
first_free zero b row = none
first_free (suc left) b row =
    let rest = first_free left (b + 1) row in
    if not (bit row.requested b) && not (bit row.received b) then some b else rest

reserve_at : Row → ℕ → Option ℕ → Row × Option (ℕ × ℕ)
unfolding block_at
reserve_at row size none = (row, none)
reserve_at row size (some b) =
    (record row { requested = set row.requested b true }, some (block_at size b))

unfoldable pub reserve_block : Row → ℕ → ℕ → Row × Option (ℕ × ℕ)
unfolding start first_free reserve_at
reserve_block row size nb =
    if is_state_complete row.state
    then (row, none)
    else reserve_at (start row size) size (first_free nb 0 (start row size))

-- The loop of `unfinished_blocks`.
unfoldable pub unfinished_from : ℕ → ℕ → Row → ℕ → List (ℕ × ℕ)
unfolding block_at
unfinished_from zero b row size = []
unfinished_from (suc left) b row size =
    let rest = unfinished_from left (b + 1) row size in
    if not (bit row.received b) then block_at size b ∷ rest else rest

unfoldable pub unfinished_blocks : Row → ℕ → ℕ → List (ℕ × ℕ)
unfolding unfinished_from
unfinished_blocks row size nb = unfinished_from nb 0 row size

unfoldable pub release_block : Row → ℕ → Row
release_block row begin =
    if is_state_complete row.state
    then row
    else if begin % block_size == 0
    then if ltb (begin / block_size) (length row.requested)
      then record row { requested = set row.requested (begin / block_size) false }
      else row
    else row

-- The loop of `release_piece_inflight`.
unfoldable pub release_from : ℕ → ℕ → List Bool → List Bool → List Bool
release_from zero b requested received = requested
release_from (suc left) b requested received =
    release_from left (b + 1) (if not (bit received b) then set requested b false else requested)
      received

unfoldable pub release_piece_inflight : Row → ℕ → Row
unfolding release_from
release_piece_inflight row nb =
    if is_state_complete row.state
    then row
    else record row { requested = release_from nb 0 row.requested row.received }

-- `buf[begin..begin + len].copy_from_slice(block)`.
unfoldable pub write_at : List ℕ → ℕ → List ℕ → List ℕ
write_at buf begin block = take begin buf ++ (block ++ drop (begin + length block) buf)

store_in : Row → ℕ → ℕ → List ℕ → Option (List ℕ) → Row × Result BlockOutcome
unfolding write_at all
store_in row b begin block none = (row, err Error.network)
store_in row b begin block (some buf) =
    let received' = set row.received b true in
    let row' = record row { received = received'; requested = set row.requested b true } in
    let buf' = write_at buf begin block in
    if all received'
    then (record row' { buffer = none }, ok (completed buf'))
    else (record row' { buffer = some buf' }, ok stored)

-- `received_block` behind its checks of the offset and the length.
unfoldable pub store : Row → ℕ → ℕ → List ℕ → Row × Result BlockOutcome
unfolding store_in
store row b begin block =
    if bit row.received b then (row, ok duplicate) else store_in row b begin block row.buffer

unfoldable pub received_block : Row → ℕ → ℕ → ℕ → List ℕ → Row × Result BlockOutcome
unfolding start store
received_block row size nb begin block =
    if is_state_complete row.state
    then (row, ok duplicate)
    else if begin % block_size != 0
    then (row, err Error.network)
    else if leb nb (begin / block_size)
    then (row, err Error.network)
    else if length block != block_length_in size (begin / block_size)
    then (row, err Error.network)
    else store (start row size) (begin / block_size) begin block

-- The loop of `reset_piece` clears a bit at a time.
unfoldable pub clear_from : ℕ → ℕ → List Bool → List Bool
clear_from zero b bits = bits
clear_from (suc left) b bits = clear_from left (b + 1) (set bits b false)

unfoldable pub reset_piece : Row → ℕ → Row
unfolding clear_from
reset_piece row nb = record {
  state = missing;
  requested = clear_from nb 0 row.requested;
  received = clear_from nb 0 row.received;
  buffer = none;
}

unfoldable pub mark_complete : Row → Row
mark_complete row = record row { state = complete; buffer = none }
