-- ===== src/Piece/Manager/Calls.antt =====
-- src/piece/manager.rs: no call with a piece in range panics, whatever a peer sends, and every call
-- keeps the manager well formed.
use rustytorrent.Base.{
  ℕ, ◌^◌, ◌<◌, ◌≤◌, ◌≡◌, refl, subst, ◌∙◌, inl, inr, Bool-cases, true, Option, none, some, List,
  arith, set, length-set, leb, ◌==◌, ==_iff,
}
use rustytorrent.Piece.Geometry.{blocks_in}
use rustytorrent.Piece.Row
use rustytorrent.Piece.Row.{Row, complete, bit}
use rustytorrent.Piece.Row.Invariant as RowInvariant
use rustytorrent.Piece.Row.Receive
use rustytorrent.Piece.Row.Panics
use rustytorrent.Piece.Row.Panics.Safety
use rustytorrent.Piece.Row.Bits
use rustytorrent.Piece.Manager.{
  PieceManager, row, put_row, piece_size, num_blocks, reserve_block, unfinished_blocks,
  release_block, release_piece_inflight, received_block, reset_piece, mark_complete,
}
use rustytorrent.Piece.Manager.Invariant.{
  IsValid, piece_size_pos, piece_size_le, row-in_range, update-IsValid, put_row-IsValid,
  reserve_back, receive_back, release_back, inflight_back,
}

-- The calls for a piece; `unfinished` only looks.
pub data Call : Type 0 where
  reserve unfinished release_inflight reset finish : ℕ → Call
  release : ℕ → ℕ → Call
  receive : ℕ → ℕ → List ℕ → Call

-- The manager after a call; `none` is a panic.
abbrev pub after {ℓ} : {A : Type ℓ} → Option (PieceManager × A) → Option PieceManager
after none = none
after (some (pm, a)) = some pm

abbrev with_manager {ℓ} : {A : Type ℓ} → PieceManager → Option A → Option (PieceManager × A)
with_manager pm none = none
with_manager pm (some a) = some (pm, a)

unfoldable pub apply : PieceManager → Call → Option PieceManager
apply pm (reserve i) = after (reserve_block pm i)
apply pm (unfinished i) = after (with_manager pm (unfinished_blocks pm i))
apply pm (release_inflight i) = release_piece_inflight pm i
apply pm (reset i) = reset_piece pm i
apply pm (finish i) = mark_complete pm i
apply pm (release i begin) = release_block pm i begin
apply pm (receive i begin block) = after (received_block pm i begin block)

-- The engine's own calls name pieces of the torrent; a peer's block may name any.
abbrev pub IsInRange : PieceManager → Call → Type 0
IsInRange pm (receive i begin block) = Unit
IsInRange pm (reserve i) = i < pm.num_pieces
IsInRange pm (unfinished i) = i < pm.num_pieces
IsInRange pm (release_inflight i) = i < pm.num_pieces
IsInRange pm (reset i) = i < pm.num_pieces
IsInRange pm (finish i) = i < pm.num_pieces
IsInRange pm (release i begin) = i < pm.num_pieces

abbrev pub Survives : Option PieceManager → Type 0
Survives none = ⊥
Survives (some pm) = IsValid pm

row_blocks : (pm : PieceManager) (i : ℕ) → num_blocks pm i ≡ blocks_in (piece_size pm i)
unfolding num_blocks piece_size
row_blocks pm i = refl

num_blocks_pos : (pm : PieceManager) (i : ℕ) → IsValid pm → 0 < num_blocks pm i
num_blocks_pos pm i v =
    rw (row_blocks pm i)
      (Receive.blocks_in_pos (piece_size pm i) (piece_size_pos pm i v.piece_length_pos))

module _ (pm : PieceManager) (i : ℕ) (v : IsValid pm) where
  size_pos : 0 < piece_size pm i
  size_pos = piece_size_pos pm i v.piece_length_pos

  size_le : piece_size pm i ≤ 2 ^ 32
  size_le = piece_size_le pm i v.piece_length_pos v.piece_length_le

  row-IsValid :
      (r : Row)
      → row pm i ≡ some r
      → RowInvariant.IsValid (piece_size pm i) (blocks_in (piece_size pm i)) r
  row-IsValid r e = rw (row_blocks pm i) at (v.rows i r e)

  reserve-Survives : i < pm.num_pieces → Survives (after (reserve_block pm i))
  unfolding reserve_block
  reserve-Survives h =
      let (r, e) = row-in_range pm i v h in
      let safe : Panics.reserve_block r (piece_size pm i) (num_blocks pm i)
          ≡ some (Row.reserve_block r (piece_size pm i) (num_blocks pm i)) =
        rw (row_blocks pm i)
          (Safety.reserve_block_safe (piece_size pm i) r size_pos (row-IsValid r e) size_le) in
      rw (e, safe)
        (put_row-IsValid pm i r _ v h e
          (RowInvariant.reserve_block-IsValid _ _ r (num_blocks_pos pm i v) (v.rows i r e))
          (reserve_back r _ _))

  unfinished-Survives :
      i < pm.num_pieces → Survives (after (with_manager pm (unfinished_blocks pm i)))
  unfolding unfinished_blocks
  unfinished-Survives h =
      let (r, e) = row-in_range pm i v h in
      let safe : Panics.unfinished_blocks r (piece_size pm i) (num_blocks pm i)
          ≡ some (Row.unfinished_blocks r (piece_size pm i) (num_blocks pm i)) =
        rw (row_blocks pm i)
          (Safety.unfinished_blocks_safe (piece_size pm i) r size_pos (row-IsValid r e) size_le) in
      rw (e, safe) v

  inflight-Survives : i < pm.num_pieces → Survives (release_piece_inflight pm i)
  unfolding release_piece_inflight
  inflight-Survives h =
      let (r, e) = row-in_range pm i v h in
      let safe : Panics.release_piece_inflight r (num_blocks pm i)
          ≡ some (Row.release_piece_inflight r (num_blocks pm i)) =
        rw (row_blocks pm i)
          (Safety.release_piece_inflight_safe (piece_size pm i) r size_pos (row-IsValid r e)) in
      rw (e, safe)
        (put_row-IsValid pm i r _ v h e
          (RowInvariant.release_piece_inflight-IsValid _ _ r (v.rows i r e)) (inflight_back r _))

  reset-Survives : i < pm.num_pieces → Survives (reset_piece pm i)
  unfolding reset_piece Row.reset_piece
  reset-Survives h =
      let (r, e) = row-in_range pm i v h in
      let safe : Panics.reset_piece r (num_blocks pm i)
          ≡ some (Row.reset_piece r (num_blocks pm i)) =
        rw (row_blocks pm i)
          (Safety.reset_piece_safe (piece_size pm i) r size_pos (row-IsValid r e)) in
      rw (e, safe)
        (put_row-IsValid pm i r _ v h e (RowInvariant.reset_piece-IsValid _ _ r (v.rows i r e))
          (λ c. cc))

  finish-Survives : i < pm.num_pieces → Survives (mark_complete pm i)
  unfolding mark_complete
  finish-Survives h =
      let (r, e) = row-in_range pm i v h in
      rw (e, Safety.set_bit_lem pm.local i true (omega (arith, v.local_len)))
        (update-IsValid pm i _ (set pm.local i true) v h
          (RowInvariant.mark_complete-IsValid _ _ r (v.rows i r e))
          (length-set pm.local i true ∙ v.local_len) grow
          (λ c. Bits.bit-set_self pm.local i true (omega (arith, v.local_len))))
    where
      grow : (j : ℕ) → bit pm.local j ≡ true → bit (set pm.local i true) j ≡ true
      grow j b = elim (Bool-cases (i == j)) [
        | inl s ↦
            subst (λ k. bit (set pm.local i true) k ≡ true) ((==_iff i j).0 s)
              (Bits.bit-set_self pm.local i true (omega (arith, v.local_len)))
        | inr n ↦ Bits.bit-set_ne pm.local i j true (ground arith) ∙ b
      ]

  release-Survives : (begin : ℕ) → i < pm.num_pieces → Survives (release_block pm i begin)
  unfolding release_block
  release-Survives begin h =
      let (r, e) = row-in_range pm i v h in
      rw e (
        put_row-IsValid pm i r _ v h e
          (RowInvariant.release_block-IsValid _ _ r begin (v.rows i r e)) (release_back r begin))

  received-IsValid :
      (begin : ℕ) (block : List ℕ) (r : Row)
      → i < pm.num_pieces
      → row pm i ≡ some r
      → IsValid
          (put_row pm i (Row.received_block r (piece_size pm i) (num_blocks pm i) begin block).0)
  received-IsValid begin block r h e =
      put_row-IsValid pm i r _ v h e
        (rw (row_blocks pm i) (
          Receive.received_block-IsValid (piece_size pm i) begin block r
            (piece_size_pos pm i v.piece_length_pos) (rw (row_blocks pm i) at (v.rows i r e))))
        (rw (row_blocks pm i) (receive_back r (piece_size pm i) begin block))

  receive-Survives :
      (begin : ℕ) (block : List ℕ) → Survives (after (received_block pm i begin block))
  unfolding received_block
  receive-Survives begin block = elim (Bool-cases (leb pm.num_pieces i)) [
    | inl out ↦ rw out v
    | inr within ↦
        let h : i < pm.num_pieces = ground arith in
        let (r, e) = row-in_range pm i v h in
        let safe : Panics.received_block r (piece_size pm i) (num_blocks pm i) begin block
            ≡ some (Row.received_block r (piece_size pm i) (num_blocks pm i) begin block) =
          rw (row_blocks pm i) (
            Safety.received_block_safe (piece_size pm i) r size_pos (row-IsValid r e) begin
              block) in
        rw (within, e, safe) (received-IsValid begin block r h e)
  ]

-- On a well-formed manager, calls for pieces of the torrent, and blocks for whatever piece a peer
-- names, never panic: no bit vector and no buffer is indexed out of range, and no block's place
-- overflows. They leave the manager well formed: pieces have 2 ^ 32 bytes at most, every vector has
-- an entry for each piece, with a bit for each block, a piece in progress has a buffer of its size
-- until its last block is in, and a complete piece is in the local bitfield.
pub apply-Survives :
    (pm : PieceManager) (call : Call) → IsValid pm → IsInRange pm call → Survives (apply pm call)
unfolding apply
apply-Survives pm (reserve i) v h = reserve-Survives pm i v h
apply-Survives pm (unfinished i) v h = unfinished-Survives pm i v h
apply-Survives pm (release_inflight i) v h = inflight-Survives pm i v h
apply-Survives pm (reset i) v h = reset-Survives pm i v h
apply-Survives pm (finish i) v h = finish-Survives pm i v h
apply-Survives pm (release i begin) v h = release-Survives pm i v begin h
apply-Survives pm (receive i begin block) v h = receive-Survives pm i v begin block
