-- ===== src/Piece/Row/Assembly.antt =====
-- src/piece/manager.rs: the assembled piece is made of the blocks that were accepted for it.
use rustytorrent.Base.{
  ℕ, ◌*◌, ◌/◌, ◌<◌, ◌≡◌, ◌≢◌, refl, sym, ap, subst, ◌∙◌, inl, inr, Bool-cases, Bool, true, Option,
  none, some, List, arith, length, set, take, replicate, ltb, ◌==◌, ==_iff, if◌then◌else◌,
  length-set,
}
use rustytorrent.Base.Outcome.{Result, ok}
use rustytorrent.Peer.Message.{block_size}
use rustytorrent.Piece.Geometry.{block_length_in, blocks_in}
use rustytorrent.Piece.Geometry.Sums.{blocks_cover}
use rustytorrent.Piece.Row.{
  Row, PieceState, missing, in_progress, complete, BlockOutcome, stored, completed, bit, all, start,
  write_at, store, received_block,
}
use rustytorrent.Piece.Row.Slices.{slice, slice-write_at_self, slice-write_at_before, drop-write_at}
use rustytorrent.Piece.Row.Bits.{all→bit, bit-set_ne}
use rustytorrent.Piece.Row.Receive.{length-write_at, received_block_cases, blocks_in_pos}
use rustytorrent.Piece.Row.Invariant.{IsValid, Fits, start-IsValid}

-- What was accepted for each block: the bytes `blocks b` stand in the buffer at block b's place.
abbrev pub HoldsBlocks : ℕ → (ℕ → Bool) → (ℕ → List ℕ) → List ℕ → Type 0
HoldsBlocks size have blocks buf =
    (b : ℕ)
    → b < blocks_in size
    → have b ≡ true
    → slice buf (b * block_size) (block_length_in size b) ≡ blocks b

abbrev pub record_block : ℕ → List ℕ → (ℕ → List ℕ) → ℕ → List ℕ
record_block d block blocks b = if b == d then block else blocks b

-- Writing block d at its place makes it stand there and leaves the others standing.
write_at-HoldsBlocks :
    (size d : ℕ) (block : List ℕ) (received : List Bool) (blocks : ℕ → List ℕ) (buf : List ℕ)
    → d < blocks_in size
    → length block ≡ block_length_in size d
    → length buf ≡ size
    → HoldsBlocks size (bit received) blocks buf
    → HoldsBlocks size
        (bit (set received d true))
        (record_block d block blocks)
        (write_at buf (d * block_size) block)
write_at-HoldsBlocks size d block received blocks buf h l e v b w r =
    let fits_d = (blocks_cover size).1 d h in
    let fits_b = (blocks_cover size).1 b w in
    elim (Bool-cases (b == d)) [
      | inl hit ↦
          let same : b ≡ d = (==_iff b d).0 hit in
          rw hit (rw (same, ← l) (slice-write_at_self buf (d * block_size) block (omega arith)))
      | inr other ↦ rw other (elim (Bool-cases (ltb b d)) [
        | inl below ↦
            slice-write_at_before buf (d * block_size) block (b * block_size)
              (block_length_in size b) (ground arith) (omega arith)
            ∙ v b w (sym (bit-set_ne received d b true (ground arith)) ∙ r)
        | inr above ↦
            ap (take (block_length_in size b)) (
              drop-write_at buf (d * block_size) block (b * block_size) (ground arith)
                (omega arith))
            ∙ v b w (sym (bit-set_ne received d b true (ground arith)) ∙ r)
      ])
    ]

-- The buffer of a piece, if it has one, holds what was accepted for the blocks received so far.
abbrev pub Holding : ℕ → (ℕ → List ℕ) → List Bool → Option (List ℕ) → Type 0
Holding size blocks received none = Unit
Holding size blocks received (some buf) = HoldsBlocks size (bit received) blocks buf

-- What a result says of the blocks: a block that is not accepted leaves the accepted ones as they
-- were, an accepted one joins them, and the bytes of a completed piece are the accepted blocks,
-- each at its place, over the piece's whole length.
abbrev pub Accounts : ℕ → ℕ → List ℕ → (ℕ → List ℕ) → Row → Result BlockOutcome → Type 0
Accounts size d block blocks row (ok stored) =
    Holding size (record_block d block blocks) row.received row.buffer
Accounts size d block blocks row (ok (completed bytes)) =
    (length bytes ≡ size)
    × ((b : ℕ)
        → b < blocks_in size
        → slice bytes (b * block_size) (block_length_in size b) ≡ record_block d block blocks b)
Accounts size d block blocks row _ = Holding size blocks row.received row.buffer

abbrev row_of : PieceState → List Bool → List Bool → Option (List ℕ) → Row
row_of s requested received buffer = record {
  state = s;
  requested = requested;
  received = received;
  buffer = buffer;
}

abbrev AccountsFor : ℕ → ℕ → List ℕ → (ℕ → List ℕ) → Row × Result BlockOutcome → Type 0
AccountsFor size d block blocks r = Accounts size d block blocks r.0 r.1

store-Accounts :
    (size d : ℕ) (block : List ℕ) (blocks : ℕ → List ℕ) (requested received : List Bool)
    (buffer : Option (List ℕ))
    → d < blocks_in size
    → length block ≡ block_length_in size d
    → IsValid size (blocks_in size) (row_of in_progress requested received buffer)
    → Holding size blocks received buffer
    → AccountsFor size d block blocks
        (store (row_of in_progress requested received buffer) d (d * block_size) block)
unfolding store
store-Accounts size d block blocks requested received none h l v held =
    elim (Bool-cases (bit received d)) [ inl e ↦ rw e tt | inr e ↦ rw e tt ]
store-Accounts size d block blocks requested received (some buf) h l v held =
    let written = write_at-HoldsBlocks size d block received blocks buf h l v.fits.0 held in
    let inside = (blocks_cover size).1 d h in
    elim (Bool-cases (bit received d)) [
      | inl e ↦ rw e held
      | inr e ↦ rw e (elim (Bool-cases (all (set received d true))) [
        | inl done ↦ rw done (
          length-write_at buf (d * block_size) block (omega (arith, v.fits.0)) ∙ v.fits.0,
          λ b w. written b w (
              all→bit (set received d true) b done
                (omega (arith, v.received_len, length-set received d true))),
        )
        | inr more ↦ rw more written
      ])
    ]

start-Holding :
    (size : ℕ) (blocks : ℕ → List ℕ) (s : PieceState) (requested received : List Bool)
    (buffer : Option (List ℕ))
    → Fits size s received buffer
    → Holding size blocks received buffer
    → let row = start (row_of s requested received buffer) size in
      Holding size blocks row.received row.buffer
unfolding start
start-Holding size blocks missing requested received buffer f h = λ b w r. cc (f.1 b)
start-Holding size blocks in_progress requested received buffer f h = h
start-Holding size blocks complete requested received buffer f h = h

accept-Accounts :
    (size d : ℕ) (block : List ℕ) (blocks : ℕ → List ℕ) (s : PieceState)
    (requested received : List Bool) (buffer : Option (List ℕ))
    → s ≢ complete
    → d < blocks_in size
    → length block ≡ block_length_in size d
    → 0 < blocks_in size
    → IsValid size (blocks_in size) (row_of s requested received buffer)
    → Holding size blocks received buffer
    → AccountsFor size d block blocks
        (store (start (row_of s requested received buffer) size) d (d * block_size) block)
unfolding start
accept-Accounts size d block blocks missing requested received buffer c h l n v held =
    store-Accounts size d block blocks requested received (some (replicate size 0)) h l
      (start-IsValid size _ (row_of missing requested received buffer) n v)
      (start-Holding size blocks missing requested received buffer v.fits held)
accept-Accounts size d block blocks in_progress requested received buffer c h l n v held =
    store-Accounts size d block blocks requested received buffer h l v held
accept-Accounts size d block blocks complete requested received buffer c h l n v held =
    absurd (c refl)

-- `received_block` assembles a piece from the blocks it accepts: if the buffer holds the blocks
-- accepted so far, then after any call, whatever the peer sent, it holds them still, with the new
-- one where that is stored; and when the piece is completed, the bytes handed to the verifier have
-- the piece's size and are, block by block, the accepted ones.
pub received_block-Accounts :
    (size begin : ℕ) (block : List ℕ) (blocks : ℕ → List ℕ) (row : Row)
    → 0 < size
    → IsValid size (blocks_in size) row
    → Holding size blocks row.received row.buffer
    → let r = received_block row size (blocks_in size) begin block in
      Accounts size (begin / block_size) block blocks r.0 r.1
received_block-Accounts size begin block blocks row h v held =
    received_block_cases (AccountsFor size (begin / block_size) block blocks) size begin block row
      held held
      λ b e w l c.
        let same : b ≡ begin / block_size = omega arith in
        subst (λ j. AccountsFor size j block blocks (store (start row size) b begin block)) same
          (rw e (
            accept-Accounts size b block blocks row.state row.requested row.received row.buffer c w
              l (blocks_in_pos size h) v held))
