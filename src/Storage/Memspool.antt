-- ===== src/Storage/Memspool.antt =====
-- src/storage/memspool.rs: `MemSpool`, the pieces kept in memory.
pub mod ReadBack
pub mod Task
use rustytorrent.Base.{
  ℕ, ◌+◌, ◌-◌, ◌%◌, Option, none, some, List, ltb, leb, ◌==◌, ◌!=◌, if◌then◌else◌, length,
  get_elem?, set, replicate, take, drop,
}
use rustytorrent.Base.Outcome.{Error, Result, ok, err}

pub record MemSpool : Type 0 where
  pub pieces : List (Option (List ℕ))
  pub piece_length : ℕ
  pub num_pieces : ℕ
  pub total_length : ℕ

unfoldable pub new : ℕ → ℕ → ℕ → MemSpool
new piece_length num_pieces total_length = record {
  pieces = replicate num_pieces none;
  piece_length = piece_length;
  num_pieces = num_pieces;
  total_length = total_length;
}

unfoldable pub piece_size : MemSpool → ℕ → ℕ
piece_size sp index =
    if index + 1 == sp.num_pieces
    then (let r = sp.total_length % sp.piece_length in if r == 0 then sp.piece_length else r)
    else sp.piece_length

unfoldable pub write_piece : MemSpool → ℕ → List ℕ → MemSpool × Result (Unit {0})
unfolding piece_size
write_piece sp index bytes =
    if length bytes != piece_size sp index
    then (sp, err Error.io)
    else if leb (length sp.pieces) index
    then (sp, err Error.io)
    else (record sp { pieces = set sp.pieces index (some bytes) }, ok tt)

-- The slot that `pieces.get(index)` finds, then what is in it.
unfoldable pub read_slot : Option (Option (List ℕ)) → ℕ → ℕ → Result (List ℕ)
read_slot none begin n = err Error.io
read_slot (some none) begin n = err Error.io
read_slot (some (some buf)) begin n = ok (take n (drop begin buf))

unfoldable pub read_range : MemSpool → ℕ → ℕ → ℕ → Result (List ℕ)
unfolding piece_size read_slot
read_range sp index begin n =
    if ltb (piece_size sp index) (begin + n)
    then err Error.io
    else read_slot (get_elem? sp.pieces index) begin n
