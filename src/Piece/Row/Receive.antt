-- ===== src/Piece/Row/Receive.antt =====
-- src/piece/manager.rs: `received_block` on one piece, its outcomes and its invariant.
use rustytorrent.Base.{
  ℕ, ◌+◌, ◌*◌, ◌/◌, ◌%◌, ◌≤◌, ◌<◌, ◌≡◌, ◌≢◌, refl, ◌∙◌, inl, inr, Bool-cases, Bool, true, false,
  Option, none, some, List, ◌++◌, arith, length, set, take, drop, replicate, length-set,
  length-append, length-take, length-drop, leb, ◌==◌,
}
use rustytorrent.Base.Outcome.{Error, Result, ok, err}
use rustytorrent.Peer.Message.{block_size}
use rustytorrent.Piece.Geometry.{block_length_in, blocks_in}
use rustytorrent.Piece.Geometry.Sums.{blocks_cover}
use rustytorrent.Piece.Row.{
  Row, PieceState, is_state_complete, missing, in_progress, complete, BlockOutcome, duplicate, bit,
  all, start, write_at, store, received_block,
}
use rustytorrent.Piece.Row.Invariant.{IsValid, start-IsValid}

-- A write within a buffer keeps its length.
pub length-write_at :
    (buf : List ℕ) (begin : ℕ) (block : List ℕ)
    → begin + length block ≤ length buf
    → length (write_at buf begin block) ≡ length buf
unfolding write_at
length-write_at buf begin block h = omega (
  arith,
  length-append (take begin buf) (block ++ drop (begin + length block) buf),
  length-append block (drop (begin + length block) buf),
  length-take begin buf,
  length-drop (begin + length block) buf,
)

abbrev row_of : PieceState → List Bool → List Bool → Option (List ℕ) → Row
row_of s requested received buffer = record {
  state = s;
  requested = requested;
  received = received;
  buffer = buffer;
}

-- Storing a block keeps a piece in progress well formed, also when the block completes it.
store-IsValid :
    (size nb b begin : ℕ) (block : List ℕ) (requested received : List Bool)
    (buffer : Option (List ℕ))
    → begin + length block ≤ size
    → IsValid size nb (row_of in_progress requested received buffer)
    → IsValid size nb (store (row_of in_progress requested received buffer) b begin block).0
unfolding store
store-IsValid size nb b begin block requested received none inside v =
    elim (Bool-cases (bit received b)) [ inl e ↦ rw e v | inr e ↦ rw e v ]
store-IsValid size nb b begin block requested received (some buf) inside v =
    elim (Bool-cases (bit received b)) [
      | inl e ↦ rw e v
      | inr e ↦ rw e (elim (Bool-cases (all (set received b true))) [
        | inl done ↦ rw done (record {
          requested_len = length-set requested b true ∙ v.requested_len;
          received_len = length-set received b true ∙ v.received_len;
          fits = done;
        })
        | inr more ↦ rw more (record {
          requested_len = length-set requested b true ∙ v.requested_len;
          received_len = length-set received b true ∙ v.received_len;
          fits = (length-write_at buf begin block (omega (arith, v.fits.0)) ∙ v.fits.0, more);
        })
      ])
    ]

-- A block that passes the checks of `received_block` lies within the piece.
pub block_inside :
    (size b begin : ℕ) (block : List ℕ)
    → begin ≡ b * block_size
    → b < blocks_in size
    → length block ≡ block_length_in size b
    → begin + length block ≤ size
block_inside size b begin block e h l = omega (arith, (blocks_cover size).1 b h)

accept-IsValid :
    (size b begin : ℕ) (block : List ℕ) (s : PieceState) (requested received : List Bool)
    (buffer : Option (List ℕ))
    → s ≢ complete
    → begin + length block ≤ size
    → 0 < blocks_in size
    → IsValid size (blocks_in size) (row_of s requested received buffer)
    → IsValid size
        (blocks_in size)
        (store (start (row_of s requested received buffer) size) b begin block).0
unfolding start
accept-IsValid size b begin block missing requested received buffer c inside h v =
    store-IsValid size _ b begin block requested received (some (replicate size 0)) inside
      (start-IsValid size _ (row_of missing requested received buffer) h v)
accept-IsValid size b begin block in_progress requested received buffer c inside h v =
    store-IsValid size _ b begin block requested received buffer inside v
accept-IsValid size b begin block complete requested received buffer c inside h v = absurd (c refl)

pub not_complete : (s : PieceState) → is_state_complete s ≡ false → s ≢ complete
not_complete s e = ground arith

-- The ways a call of `received_block` can go: the piece is complete, a check fails, or block b is
-- stored in the piece.
pub received_block_cases {ℓ} :
    (P : Row × Result BlockOutcome → Type ℓ) (size begin : ℕ) (block : List ℕ) (row : Row)
    → P (row, ok duplicate)
    → P (row, err Error.network)
    → ((b : ℕ)
        → begin ≡ b * block_size
        → b < blocks_in size
        → length block ≡ block_length_in size b
        → row.state ≢ complete
        → P (store (start row size) b begin block))
    → P (received_block row size (blocks_in size) begin block)
unfolding received_block
received_block_cases P size begin block row dup bad good =
    elim (Bool-cases (is_state_complete row.state)) [
      | inl e ↦ rw e dup
      | inr e ↦ rw e (elim (Bool-cases (begin % block_size == 0)) [
        | inr odd ↦ rw odd bad
        | inl even ↦ rw even (elim (Bool-cases (leb (blocks_in size) (begin / block_size))) [
          | inl out ↦ rw out bad
          | inr within ↦
              rw within
                (elim (Bool-cases (length block == block_length_in size (begin / block_size))) [
                  | inr wrong ↦ rw wrong bad
                  | inl fit ↦ rw fit (
                      good (begin / block_size) (ground arith) (ground arith) (ground arith)
                        (not_complete row.state e))
                ])
        ])
      ])
    ]

pub blocks_in_pos : (size : ℕ) → 0 < size → 0 < blocks_in size
unfolding blocks_in
blocks_in_pos size h = omega arith

-- Whatever a peer sends, a well-formed piece stays well formed.
pub received_block-IsValid :
    (size begin : ℕ) (block : List ℕ) (row : Row)
    → 0 < size
    → IsValid size (blocks_in size) row
    → IsValid size (blocks_in size) (received_block row size (blocks_in size) begin block).0
received_block-IsValid size begin block row h v =
    received_block_cases (λ r. IsValid size (blocks_in size) r.0) size begin block row v v
      λ b e w l c.
        accept-IsValid size b begin block row.state row.requested row.received row.buffer c
          (block_inside size b begin block e w l) (blocks_in_pos size h) v
