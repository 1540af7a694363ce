-- ===== src/Piece/Row/Panics/Safety.antt =====
-- src/piece/manager.rs: on a well-formed piece no method panics, and each does what Piece/Row has.
use rustytorrent.Base.{
  ℕ, zero, suc, ◌+◌, ◌*◌, ◌/◌, ◌%◌, ◌^◌, ◌<◌, ◌≤◌, ◌≡◌, refl, sym, ap, ◌∙◌, inl, inr, Bool, true,
  false, not, ◌&&◌, Option, none, some, List, ◌∷◌, arith, ltb, leb, ◌!=◌, if◌then◌else◌, Bool-cases,
  length, length-set, get_elem?, get_elem?-in_range, get_or-get_elem?, set,
}
use rustytorrent.Base.Outcome.{ok}
use rustytorrent.Peer.Message.{block_size}
use rustytorrent.Piece.Geometry.{block_length_in, blocks_in}
use rustytorrent.Piece.Row
use rustytorrent.Piece.Row.{
  Row, PieceState, missing, in_progress, complete, is_state_complete, bit, all, start, block_at,
  write_at, BlockOutcome, duplicate,
}
use rustytorrent.Piece.Row.Invariant.{IsValid, Fits, start-IsValid}
use rustytorrent.Piece.Row.Requests.{first_free-lt}
use rustytorrent.Piece.Row.Receive.{block_inside, blocks_in_pos}
use rustytorrent.Piece.Row.Panics.{
  ◌>>=◌, set_bit, begin_of, first_free, reserve_at, reserve_block, release_from,
  release_piece_inflight, copy_at, store_in, store, received_block, unfinished_from,
  unfinished_blocks, clear_from, reset_piece,
}

pub set_bit_lem :
    (bits : List Bool) (b : ℕ) (value : Bool)
    → b < length bits
    → set_bit bits b value ≡ some (set bits b value)
unfolding set_bit
set_bit_lem bits b value h =
    let within : ltb b (length bits) ≡ true = ground arith in rw within refl

get_bit : (bits : List Bool) (b : ℕ) → b < length bits → get_elem? bits b ≡ some (bit bits b)
get_bit bits b h =
    let (x, e) = get_elem?-in_range bits b h in
    e ∙ ap some (sym (get_or-get_elem? bits b x false e))

begin_of_lem : (b : ℕ) → b * block_size < 2 ^ 32 → begin_of b ≡ some (b * block_size)
unfolding begin_of
begin_of_lem b h =
    let small : b % 2 ^ 32 ≡ b = omega arith in
    let fits : ltb (b * block_size) (2 ^ 32) ≡ true = ground arith in rw (small, fits) refl

-- A block of a piece begins within the piece.
begin_lt : (size b : ℕ) → size ≤ 2 ^ 32 → b < blocks_in size → b * block_size < 2 ^ 32
unfolding blocks_in
begin_lt size b h k = omega arith

first_free_lem :
    (left b : ℕ) (row : Row)
    → b + left ≤ length row.requested
    → b + left ≤ length row.received
    → first_free left b row ≡ some (Row.first_free left b row)
unfolding first_free Row.first_free
first_free_lem zero b row h k = refl
first_free_lem (suc left) b row h k =
    rw
      (
        get_bit row.requested b (omega arith),
        get_bit row.received b (omega arith),
        first_free_lem left (b + 1) row (omega arith) (omega arith),
      )
      (either (bit row.requested b) (bit row.received b))
  where
    either :
        (q c : Bool)
        → (if q
            then some (Row.first_free left (b + 1) row)
            else (if c then some (Row.first_free left (b + 1) row) else some (some b)))
          ≡ some (if not q && not c then some b else Row.first_free left (b + 1) row)
    either true c = refl
    either false true = refl
    either false false = refl

release_from_lem :
    (left b : ℕ) (requested received : List Bool)
    → b + left ≤ length requested
    → b + left ≤ length received
    → release_from left b requested received ≡ some (Row.release_from left b requested received)
unfolding release_from Row.release_from
release_from_lem zero b requested received h k = refl
release_from_lem (suc left) b requested received h k =
    let n = length-set requested b false in
    rw (get_bit received b (omega arith), set_bit_lem requested b false (omega arith))
      (either (bit received b)
        (release_from_lem left (b + 1) requested received (omega arith) (omega arith))
        (release_from_lem left (b + 1) (set requested b false) received (omega arith)
          (omega arith)))
  where
    either :
        (here : Bool)
        → release_from left (b + 1) requested received
          ≡ some (Row.release_from left (b + 1) requested received)
        → release_from left (b + 1) (set requested b false) received
          ≡ some (Row.release_from left (b + 1) (set requested b false) received)
        → ((if here then some requested else some (set requested b false)) >>= λ requested'.
            release_from left (b + 1) requested' received)
          ≡ some (
              Row.release_from left
                (b + 1)
                (if not here then set requested b false else requested)
                received)
    either true x y = x
    either false x y = y

clear_from_lem :
    (left b : ℕ) (requested received : List Bool)
    → b + left ≤ length requested
    → b + left ≤ length received
    → clear_from left b requested received
      ≡ some (Row.clear_from left b requested, Row.clear_from left b received)
unfolding clear_from Row.clear_from
clear_from_lem zero b requested received h k = refl
clear_from_lem (suc left) b requested received h k =
    let n = length-set requested b false in
    let m = length-set received b false in
    rw (set_bit_lem requested b false (omega arith), set_bit_lem received b false (omega arith))
      (clear_from_lem left (b + 1) (set requested b false) (set received b false) (omega arith)
        (omega arith))

unfinished_from_lem :
    (left b : ℕ) (row : Row) (size : ℕ)
    → size ≤ 2 ^ 32
    → b + left ≤ length row.received
    → length row.received ≡ blocks_in size
    → unfinished_from left b row size ≡ some (Row.unfinished_from left b row size)
unfolding unfinished_from Row.unfinished_from block_at
unfinished_from_lem zero b row size fits h l = refl
unfinished_from_lem (suc left) b row size fits h l =
    rw
      (
        get_bit row.received b (omega arith),
        begin_of_lem b (begin_lt size b fits (omega arith)),
        unfinished_from_lem left (b + 1) row size fits (omega arith) l,
      )
      (either (bit row.received b))
  where
    either :
        (here : Bool)
        → (if here
            then some (Row.unfinished_from left (b + 1) row size)
            else some (
                (b * block_size, block_length_in size b)
                ∷ Row.unfinished_from left (b + 1) row size))
          ≡ some (
              if not here
              then (b * block_size, block_length_in size b)
                ∷ Row.unfinished_from left (b + 1) row size
              else Row.unfinished_from left (b + 1) row size)
    either true = refl
    either false = refl

copy_at_lem :
    (buf : List ℕ) (begin : ℕ) (block : List ℕ)
    → begin + length block ≤ length buf
    → copy_at buf begin block ≡ some (write_at buf begin block)
unfolding copy_at
copy_at_lem buf begin block h =
    let within : leb (begin + length block) (length buf) ≡ true = ground arith in rw within refl

-- A row in progress, with a buffer of the piece's size while it has one.
store_lem :
    (row : Row) (b begin : ℕ) (block : List ℕ)
    → b < length row.requested
    → b < length row.received
    → ((buf : List ℕ) → row.buffer ≡ some buf → begin + length block ≤ length buf)
    → store row b begin block ≡ some (Row.store row b begin block)
unfolding store Row.store
store_lem row b begin block h k inside =
    rw (get_bit row.received b k) (either (bit row.received b) (of_buffer row.buffer inside))
  where
    of_buffer :
        (buffer : Option (List ℕ))
        → ((buf : List ℕ) → buffer ≡ some buf → begin + length block ≤ length buf)
        → store_in row b begin block buffer ≡ some (Row.store_in row b begin block buffer)
    of_buffer none inside = unfold store_in Row.store_in in refl
    of_buffer (some buf) inside =
        unfold store_in Row.store_in in
        rw
          (
            copy_at_lem buf begin block (inside buf refl),
            set_bit_lem row.received b true k,
            set_bit_lem row.requested b true h,
          )
          refl

    either :
        (here : Bool)
        → store_in row b begin block row.buffer ≡ some (Row.store_in row b begin block row.buffer)
        → (if here then some (row, ok duplicate) else store_in row b begin block row.buffer)
          ≡ some (if here then (row, ok duplicate) else Row.store_in row b begin block row.buffer)
    either true e = refl
    either false e = e

-- The buffer of a well-formed row has the size of the piece.
buffer_size :
    (size : ℕ) (s : PieceState) (received : List Bool) (buffer : Option (List ℕ)) (buf : List ℕ)
    → Fits size s received buffer
    → buffer ≡ some buf
    → length buf ≡ size
buffer_size size missing received buffer buf f e = let no = f.0 in cc
buffer_size size in_progress received none buf f e = cc
buffer_size size in_progress received (some b) buf f e = let same : b ≡ buf = cc in rw same at f.0
buffer_size size complete received buffer buf f e = cc

module _ (size : ℕ) (row : Row) (pos : 0 < size) (v : IsValid size (blocks_in size) row) where
  reserve_at_lem :
      (r : Row) (o : Option ℕ)
      → size ≤ 2 ^ 32
      → length r.requested ≡ blocks_in size
      → ((d : ℕ) → o ≡ some d → d < blocks_in size)
      → reserve_at r size o ≡ some (Row.reserve_at r size o)
  unfolding reserve_at Row.reserve_at block_at
  reserve_at_lem r none fits l within = refl
  reserve_at_lem r (some d) fits l within =
      let h = within d refl in
      rw (set_bit_lem r.requested d true (omega arith), begin_of_lem d (begin_lt size d fits h))
        refl

  pub reserve_block_safe :
      size ≤ 2 ^ 32
      → reserve_block row size (blocks_in size) ≡ some (Row.reserve_block row size (blocks_in size))
  unfolding reserve_block Row.reserve_block
  reserve_block_safe fits = elim (Bool-cases (is_state_complete row.state)) [
    | inl e ↦ rw e refl
    | inr e ↦
        let ready = start-IsValid size (blocks_in size) row (blocks_in_pos size pos) v in
        let q = ready.requested_len in
        let c = ready.received_len in
        rw (e, first_free_lem (blocks_in size) 0 (start row size) (omega arith) (omega arith))
          (reserve_at_lem (start row size) _ fits q
            λ d f. omega (arith, first_free-lt (blocks_in size) 0 (start row size) d f))
  ]

  pub release_piece_inflight_safe :
      release_piece_inflight row (blocks_in size)
      ≡ some (Row.release_piece_inflight row (blocks_in size))
  unfolding release_piece_inflight Row.release_piece_inflight
  release_piece_inflight_safe = elim (Bool-cases (is_state_complete row.state)) [
    | inl e ↦ rw e refl
    | inr e ↦
        let q = v.requested_len in
        let c = v.received_len in
        rw
          (
            e,
            release_from_lem (blocks_in size) 0 row.requested row.received (omega arith)
                (omega arith),
          )
          refl
  ]

  pub reset_piece_safe :
      reset_piece row (blocks_in size) ≡ some (Row.reset_piece row (blocks_in size))
  unfolding reset_piece Row.reset_piece
  reset_piece_safe =
      let q = v.requested_len in
      let c = v.received_len in
      rw (clear_from_lem (blocks_in size) 0 row.requested row.received (omega arith) (omega arith))
        refl

  pub unfinished_blocks_safe :
      size ≤ 2 ^ 32
      → unfinished_blocks row size (blocks_in size)
        ≡ some (Row.unfinished_blocks row size (blocks_in size))
  unfolding unfinished_blocks Row.unfinished_blocks
  unfinished_blocks_safe fits =
      let c = v.received_len in unfinished_from_lem (blocks_in size) 0 row size fits (omega arith) c

  pub received_block_safe :
      (begin : ℕ) (block : List ℕ)
      → received_block row size (blocks_in size) begin block
        ≡ some (Row.received_block row size (blocks_in size) begin block)
  unfolding received_block Row.received_block
  received_block_safe begin block = elim (Bool-cases (is_state_complete row.state)) [
    | inl e ↦ rw e refl
    | inr e ↦ rw e (elim (Bool-cases (begin % block_size != 0)) [
      | inl odd ↦ rw odd refl
      | inr even ↦ rw even (elim (Bool-cases (leb (blocks_in size) (begin / block_size))) [
        | inl out ↦ rw out refl
        | inr within ↦
            rw within
              (elim (Bool-cases (length block != block_length_in size (begin / block_size))) [
                | inl wrong ↦ rw wrong refl
                | inr fit ↦ rw fit (
                    let ready =
                      start-IsValid size (blocks_in size) row (blocks_in_pos size pos) v in
                    let q = ready.requested_len in
                    let c = ready.received_len in
                    let b = begin / block_size in
                    let low : b < blocks_in size = ground arith in
                    let place : begin ≡ b * block_size = ground arith in
                    let long : length block ≡ block_length_in size b = ground arith in
                    store_lem (start row size) b begin block (omega arith) (omega arith) λ buf f.
                      let n =
                        buffer_size size (start row size).state (start row size).received
                          (start row size).buffer buf ready.fits f in
                      let inside = block_inside size b begin block place low long in omega arith)
              ])
      ])
    ])
  ]
