-- ===== src/Piece/Row/Panics.antt =====
-- src/piece/manager.rs: the methods on one piece with their panics, each of which is `none`: an index
-- out of range of a bit vector or a buffer, and a product that overflows, which the profiles of
-- Cargo.toml check. The operations of Piece/Row are their outcomes where nothing panics.
pub mod Safety
use rustytorrent.Base.{
  ℕ, zero, suc, ◌+◌, ◌*◌, ◌/◌, ◌%◌, ◌^◌, Bool, true, false, not, Option, none, some, List, [], ◌∷◌,
  ltb, leb, ◌==◌, ◌!=◌, if◌then◌else◌, length, get_elem?, set,
}
use rustytorrent.Base.Outcome.{Error, Result, ok, err}
use rustytorrent.Peer.Message.{block_size}
use rustytorrent.Piece.Geometry.{block_length_in}
use rustytorrent.Piece.Row.{
  Row, missing, is_state_complete, BlockOutcome, duplicate, stored, completed, all, start, write_at,
}

infixl 5 ◌>>=◌
abbrev pub ◌>>=◌ {ℓ κ} : {A : Type ℓ} {B : Type κ} → Option A → (A → Option B) → Option B
none >>= f = none
some a >>= f = f a

-- `bits.set(b, value)`.
unfoldable pub set_bit : List Bool → ℕ → Bool → Option (List Bool)
set_bit bits b value = if ltb b (length bits) then some (set bits b value) else none

-- `(b as u32) * BLOCK_SIZE`.
unfoldable pub begin_of : ℕ → Option ℕ
begin_of b = let begin = b % 2 ^ 32 * block_size in if ltb begin (2 ^ 32) then some begin else none

-- The loop of `reserve_block` over the blocks from b on, of which `left` remain. A block that is
-- requested is not looked up among the received ones.
unfoldable pub first_free : ℕ → ℕ → Row → Option (Option ℕ)
first_free zero b row = some none
first_free (suc left) b row =
    let rest = first_free left (b + 1) row in
    get_elem? row.requested b >>= λ requested.
    if requested
    then rest
    else (get_elem? row.received b >>= λ received. if received then rest else some (some b))

unfoldable pub reserve_at : Row → ℕ → Option ℕ → Option (Row × Option (ℕ × ℕ))
unfolding set_bit begin_of
reserve_at row size none = some (row, none)
reserve_at row size (some b) = set_bit row.requested b true >>= λ requested. begin_of b >>= λ begin.
    some (record row { requested = requested }, some (begin, block_length_in size b))

unfoldable pub reserve_block : Row → ℕ → ℕ → Option (Row × Option (ℕ × ℕ))
unfolding start first_free reserve_at
reserve_block row size nb =
    if is_state_complete row.state
    then some (row, none)
    else (first_free nb 0 (start row size) >>= reserve_at (start row size) size)

-- The loop of `release_piece_inflight`.
unfoldable pub release_from : ℕ → ℕ → List Bool → List Bool → Option (List Bool)
unfolding set_bit
release_from zero b requested received = some requested
release_from (suc left) b requested received = get_elem? received b >>= λ here.
    (if here then some requested else set_bit requested b false) >>= λ requested'.
    release_from left (b + 1) requested' received

unfoldable pub release_piece_inflight : Row → ℕ → Option Row
unfolding release_from
release_piece_inflight row nb =
    if is_state_complete row.state
    then some row
    else (release_from nb 0 row.requested row.received >>= λ requested.
        some (record row { requested = requested }))

-- `buf[begin..begin + len].copy_from_slice(block)`, for a block of this length.
unfoldable pub copy_at : List ℕ → ℕ → List ℕ → Option (List ℕ)
unfolding write_at
copy_at buf begin block =
    if leb (begin + length block) (length buf) then some (write_at buf begin block) else none

unfoldable pub store_in :
    Row → ℕ → ℕ → List ℕ → Option (List ℕ) → Option (Row × Result BlockOutcome)
unfolding copy_at set_bit all
store_in row b begin block none = some (row, err Error.network)
store_in row b begin block (some buf) = copy_at buf begin block >>= λ buf'.
    set_bit row.received b true >>= λ received'. set_bit row.requested b true >>= λ requested'.
    let row' = record row { received = received'; requested = requested' } in
    some (
      if all received'
      then (record row' { buffer = none }, ok (completed buf'))
      else (record row' { buffer = some buf' }, ok stored))

unfoldable pub store : Row → ℕ → ℕ → List ℕ → Option (Row × Result BlockOutcome)
unfolding store_in
store row b begin block = get_elem? row.received b >>= λ here.
    if here then some (row, ok duplicate) else store_in row b begin block row.buffer

unfoldable pub received_block : Row → ℕ → ℕ → ℕ → List ℕ → Option (Row × Result BlockOutcome)
unfolding start store
received_block row size nb begin block =
    if is_state_complete row.state
    then some (row, ok duplicate)
    else if begin % block_size != 0
    then some (row, err Error.network)
    else if leb nb (begin / block_size)
    then some (row, err Error.network)
    else if length block != block_length_in size (begin / block_size)
    then some (row, err Error.network)
    else store (start row size) (begin / block_size) begin block

-- The loop of `unfinished_blocks`.
unfoldable pub unfinished_from : ℕ → ℕ → Row → ℕ → Option (List (ℕ × ℕ))
unfolding begin_of
unfinished_from zero b row size = some []
unfinished_from (suc left) b row size =
    let rest = unfinished_from left (b + 1) row size in
    get_elem? row.received b >>= λ here.
    if here
    then rest
    else (begin_of b >>= λ begin.
        rest >>= λ blocks. some ((begin, block_length_in size b) ∷ blocks))

unfoldable pub unfinished_blocks : Row → ℕ → ℕ → Option (List (ℕ × ℕ))
unfolding unfinished_from
unfinished_blocks row size nb = unfinished_from nb 0 row size

-- The loop of `reset_piece`.
unfoldable pub clear_from : ℕ → ℕ → List Bool → List Bool → Option (List Bool × List Bool)
unfolding set_bit
clear_from zero b requested received = some (requested, received)
clear_from (suc left) b requested received = set_bit requested b false >>= λ requested'.
    set_bit received b false >>= λ received'. clear_from left (b + 1) requested' received'

unfoldable pub reset_piece : Row → ℕ → Option Row
unfolding clear_from
reset_piece row nb = clear_from nb 0 row.requested row.received >>= λ bits.
    some (record { state = missing; requested = bits.0; received = bits.1; buffer = none })
