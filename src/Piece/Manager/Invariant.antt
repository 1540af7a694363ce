-- ===== src/Piece/Manager/Invariant.antt =====
-- src/piece/manager.rs: no call with a piece in range panics, whatever a peer sends, and every call
-- keeps the manager well formed.
use rustytorrent.Base.{
  ℕ, ◌^◌, ◌<◌, ◌≤◌, ◌≡◌, ◌≢◌, ◌⊎◌, sym, ap, subst, ◌∙◌, inl, inr, Bool-cases, Bool, true, some,
  List, arith, length, length-set, get_elem?-in_range, get_elem?-set_self, get_elem?-set_ne, ◌==◌,
  ==_iff,
}
use rustytorrent.Piece.Geometry.{blocks_in}
use rustytorrent.Piece.Row
use rustytorrent.Piece.Row.{Row, PieceState, missing, in_progress, complete, bit, BlockOutcome}
use rustytorrent.Piece.Row.Invariant as RowInvariant
use rustytorrent.Piece.Row.Receive
use rustytorrent.Piece.Manager.{PieceManager, row, put_row, piece_size, num_blocks}

pub record IsValid (pm : PieceManager) : Type 0 where
  pub piece_length_pos : 0 < pm.piece_length
  -- A block begins at a number of 32 bits.
  pub piece_length_le : pm.piece_length ≤ 2 ^ 32
  pub states_len : length pm.states ≡ pm.num_pieces
  pub requested_len : length pm.requested ≡ pm.num_pieces
  pub received_len : length pm.received ≡ pm.num_pieces
  pub buffers_len : length pm.buffers ≡ pm.num_pieces
  pub local_len : length pm.local ≡ pm.num_pieces
  pub wanted_len : length pm.wanted ≡ pm.num_pieces
  pub rows :
      (i : ℕ) (r : Row)
      → row pm i ≡ some r
      → RowInvariant.IsValid (piece_size pm i) (num_blocks pm i) r
  -- A complete piece is in the local bitfield.
  pub local_of_complete :
      (i : ℕ) (r : Row) → row pm i ≡ some r → r.state ≡ complete → bit pm.local i ≡ true

pub piece_size_pos : (pm : PieceManager) (i : ℕ) → 0 < pm.piece_length → 0 < piece_size pm i
unfolding piece_size
piece_size_pos pm i h = ground arith

pub piece_size_le :
    (pm : PieceManager) (i : ℕ)
    → 0 < pm.piece_length
    → pm.piece_length ≤ 2 ^ 32
    → piece_size pm i ≤ 2 ^ 32
unfolding piece_size
piece_size_le pm i pos h = ground arith

-- A piece in range has a row.
pub row-in_range :
    (pm : PieceManager) (i : ℕ) → IsValid pm → i < pm.num_pieces → (r : Row) × (row pm i ≡ some r)
unfolding row
row-in_range pm i v h =
    let (s, es) = get_elem?-in_range pm.states i (omega (arith, v.states_len)) in
    let (q, eq) = get_elem?-in_range pm.requested i (omega (arith, v.requested_len)) in
    let (c, ec) = get_elem?-in_range pm.received i (omega (arith, v.received_len)) in
    let (b, eb) = get_elem?-in_range pm.buffers i (omega (arith, v.buffers_len)) in
    (record { state = s; requested = q; received = c; buffer = b }, rw (es, eq, ec, eb))

row-put_row_self :
    (pm : PieceManager) (i : ℕ) (r : Row)
    → IsValid pm
    → i < pm.num_pieces
    → row (put_row pm i r) i ≡ some r
unfolding row put_row
row-put_row_self pm i r v h = rw (
  get_elem?-set_self pm.states i r.state (omega (arith, v.states_len)),
  get_elem?-set_self pm.requested i r.requested (omega (arith, v.requested_len)),
  get_elem?-set_self pm.received i r.received (omega (arith, v.received_len)),
  get_elem?-set_self pm.buffers i r.buffer (omega (arith, v.buffers_len)),
)

row-put_row_ne : (pm : PieceManager) (i j : ℕ) (r : Row) → i ≢ j → row (put_row pm i r) j ≡ row pm j
unfolding row put_row
row-put_row_ne pm i j r h = rw (
  get_elem?-set_ne pm.states i j r.state h,
  get_elem?-set_ne pm.requested i j r.requested h,
  get_elem?-set_ne pm.received i j r.received h,
  get_elem?-set_ne pm.buffers i j r.buffer h,
)

-- A row read after a write is the one written, or it is the old one.
row-put_row :
    (pm : PieceManager) (i j : ℕ) (r q : Row)
    → IsValid pm
    → i < pm.num_pieces
    → row (put_row pm i r) j ≡ some q
    → ((i ≡ j) × (r ≡ q)) ⊎ (row pm j ≡ some q)
row-put_row pm i j r q v h e = elim (Bool-cases (i == j)) [
  | inl s ↦
      let same : i ≡ j = (==_iff i j).0 s in
      let e' = subst (λ k. row (put_row pm i r) k ≡ some q) (sym same) e in
      inl (same, cc (row-put_row_self pm i r v h, e'))
  | inr n ↦ inr (sym (row-put_row_ne pm i j r (ground arith)) ∙ e)
]

-- A new row for a piece in range, with bits added to the local bitfield.
pub update-IsValid :
    (pm : PieceManager) (i : ℕ) (r : Row) (local' : List Bool)
    → IsValid pm
    → i < pm.num_pieces
    → RowInvariant.IsValid (piece_size pm i) (num_blocks pm i) r
    → length local' ≡ pm.num_pieces
    → ((j : ℕ) → bit pm.local j ≡ true → bit local' j ≡ true)
    → (r.state ≡ complete → bit local' i ≡ true)
    → IsValid (record (put_row pm i r) { local = local' })
unfolding put_row row piece_size num_blocks
update-IsValid pm i r local' v h good l grow done = record {
  piece_length_pos = v.piece_length_pos;
  piece_length_le = v.piece_length_le;
  states_len = length-set pm.states i r.state ∙ v.states_len;
  requested_len = length-set pm.requested i r.requested ∙ v.requested_len;
  received_len = length-set pm.received i r.received ∙ v.received_len;
  buffers_len = length-set pm.buffers i r.buffer ∙ v.buffers_len;
  local_len = l;
  wanted_len = v.wanted_len;
  rows = λ j q e. elim (row-put_row pm i j r q v h e) [
    | inl (same, is_r) ↦
        subst (λ k. RowInvariant.IsValid (piece_size pm k) (num_blocks pm k) q) same
          (subst (RowInvariant.IsValid (piece_size pm i) (num_blocks pm i)) is_r good)
    | inr old ↦ v.rows j q old
  ];
  local_of_complete = λ j q e c. elim (row-put_row pm i j r q v h e) [
    | inl (same, is_r) ↦ subst (λ k. bit local' k ≡ true) same (done (ap (λ x. x.state) is_r ∙ c))
    | inr old ↦ grow j (v.local_of_complete j q old c)
  ];
}

pub put_row-IsValid :
    (pm : PieceManager) (i : ℕ) (r q : Row)
    → IsValid pm
    → i < pm.num_pieces
    → row pm i ≡ some r
    → RowInvariant.IsValid (piece_size pm i) (num_blocks pm i) q
    → (q.state ≡ complete → r.state ≡ complete)
    → IsValid (put_row pm i q)
unfolding put_row
put_row-IsValid pm i r q v h e good back =
    update-IsValid pm i q pm.local v h good v.local_len (λ j b. b)
      (λ c. v.local_of_complete i r e (back c))

-- No row operation but `mark_complete` completes a piece.
pub reserve_back :
    (r : Row) (size nb : ℕ) → (Row.reserve_block r size nb).0.state ≡ complete → r.state ≡ complete
unfolding Row.reserve_block
reserve_back r size nb e = ground arith

pub receive_back :
    (r : Row) (size begin : ℕ) (block : List ℕ)
    → (Row.received_block r size (blocks_in size) begin block).0.state ≡ complete
    → r.state ≡ complete
unfolding Row.store Row.start
receive_back r size begin block =
    Receive.received_block_cases (λ x. x.0.state ≡ complete → r.state ≡ complete) size begin block r
      (λ e. e) (λ e. e) λ b e w l c s. ground arith

pub release_back :
    (r : Row) (begin : ℕ) → (Row.release_block r begin).state ≡ complete → r.state ≡ complete
unfolding Row.release_block
release_back r begin e = ground arith

pub inflight_back :
    (r : Row) (nb : ℕ) → (Row.release_piece_inflight r nb).state ≡ complete → r.state ≡ complete
unfolding Row.release_piece_inflight
inflight_back r nb e = ground arith
