-- ===== src/Piece/Row/Invariant.antt =====
-- src/piece/manager.rs: what holds of a piece's state at all times, and that every operation
-- keeps it.
use rustytorrent.Base.{
  ℕ, zero, suc, ◌+◌, ◌/◌, ◌<◌, ◌≡◌, refl, ap, ◌∙◌, inl, inr, Bool-cases, Bool, true, false, Option,
  none, some, List, arith, length, length-set, length-replicate,
}
use rustytorrent.Peer.Message.{block_size}
use rustytorrent.Piece.Row.{
  Row, PieceState, is_state_complete, missing, in_progress, complete, bit, all, fresh, start,
  first_free, reserve_at, reserve_block, release_block, release_from, release_piece_inflight,
  reset_piece, mark_complete,
}
use rustytorrent.Piece.Row.Bits.{bit-replicate, all_of_clear, bit-clear_from, length-clear_from}

-- The received bits and the buffer that go with a state. A piece in progress has a buffer of its
-- size until its last block is in; then the buffer has gone to the verifier.
abbrev pub Fits : ℕ → PieceState → List Bool → Option (List ℕ) → Type 0
Fits size missing received buffer = (buffer ≡ none) × ((b : ℕ) → bit received b ≡ false)
Fits size in_progress received none = all received ≡ true
Fits size in_progress received (some buf) = (length buf ≡ size) × (all received ≡ false)
Fits size complete received buffer = buffer ≡ none

pub record IsValid (size nb : ℕ) (row : Row) : Type 0 where
  pub requested_len : length row.requested ≡ nb
  pub received_len : length row.received ≡ nb
  pub fits : Fits size row.state row.received row.buffer

pub fresh-IsValid : (size nb : ℕ) → IsValid size nb (fresh nb)
unfolding fresh
fresh-IsValid size nb = record {
  requested_len = length-replicate nb false;
  received_len = length-replicate nb false;
  fits = (refl, bit-replicate nb);
}

start-Fits :
    (size : ℕ) (s : PieceState) (requested received : List Bool) (buffer : Option (List ℕ))
    → 0 < length received
    → Fits size s received buffer
    → let row =
        start
          (record { state = s; requested = requested; received = received; buffer = buffer })
          size in
      Fits size row.state row.received row.buffer
unfolding start
start-Fits size missing requested received buffer h f =
    (length-replicate size 0, all_of_clear received h f.1)
start-Fits size _ requested received buffer h f = f

pub start_same :
    (row : Row) (size : ℕ)
    → ((start row size).requested ≡ row.requested) × ((start row size).received ≡ row.received)
unfolding start
start_same row size = ground arith

pub start-IsValid :
    (size nb : ℕ) (row : Row) → 0 < nb → IsValid size nb row → IsValid size nb (start row size)
start-IsValid size nb row h v = record {
  requested_len = ap length (start_same row size).0 ∙ v.requested_len;
  received_len = ap length (start_same row size).1 ∙ v.received_len;
  fits =
      start-Fits size row.state row.requested row.received row.buffer
        (omega (arith, v.received_len)) v.fits;
}

request-IsValid :
    (size nb : ℕ) (row : Row) (requested' : List Bool)
    → length requested' ≡ length row.requested
    → IsValid size nb row
    → IsValid size nb (record row { requested = requested' })
request-IsValid size nb row requested' e v = record {
  requested_len = e ∙ v.requested_len;
  received_len = v.received_len;
  fits = v.fits;
}

pub reserve_block-IsValid :
    (size nb : ℕ) (row : Row)
    → 0 < nb
    → IsValid size nb row
    → IsValid size nb (reserve_block row size nb).0
unfolding reserve_block
reserve_block-IsValid size nb row h v = elim (Bool-cases (is_state_complete row.state)) [
  | inl e ↦ rw e v
  | inr e ↦ rw e (reserved (first_free nb 0 (start row size)))
]
  where
    reserved : (o : Option ℕ) → IsValid size nb (reserve_at (start row size) size o).0
    reserved none = start-IsValid size nb row h v
    reserved (some b) =
        request-IsValid size nb (start row size) _ (length-set _ b true)
          (start-IsValid size nb row h v)

pub release_block-IsValid :
    (size nb : ℕ) (row : Row) (begin : ℕ)
    → IsValid size nb row
    → IsValid size nb (release_block row begin)
unfolding release_block
release_block-IsValid size nb row begin v =
    let freed =
      request-IsValid size nb row _ (length-set row.requested (begin / block_size) false) v in
    ground (arith, freed)

length-release_from :
    (left b : ℕ) (requested received : List Bool)
    → length (release_from left b requested received) ≡ length requested
unfolding release_from
length-release_from zero b requested received = refl
length-release_from (suc left) b requested received =
    length-release_from left (b + 1) _ received ∙ ground (arith, length-set requested b false)

pub release_piece_inflight-IsValid :
    (size nb : ℕ) (row : Row)
    → IsValid size nb row
    → IsValid size nb (release_piece_inflight row nb)
unfolding release_piece_inflight
release_piece_inflight-IsValid size nb row v =
    let freed =
      request-IsValid size nb row _ (length-release_from nb 0 row.requested row.received) v in
    ground (arith, freed)

pub reset_piece-IsValid :
    (size nb : ℕ) (row : Row) → IsValid size nb row → IsValid size nb (reset_piece row nb)
unfolding reset_piece
reset_piece-IsValid size nb row v = record {
  requested_len = length-clear_from nb 0 row.requested ∙ v.requested_len;
  received_len = length-clear_from nb 0 row.received ∙ v.received_len;
  fits = (
    refl,
    λ c.
        bit-clear_from nb 0 c row.received (omega (arith, v.received_len))
          (λ h. absurd (omega arith)),
  );
}

pub mark_complete-IsValid :
    (size nb : ℕ) (row : Row) → IsValid size nb row → IsValid size nb (mark_complete row)
unfolding mark_complete
mark_complete-IsValid size nb row v = record {
  requested_len = v.requested_len;
  received_len = v.received_len;
  fits = refl;
}
