-- ===== src/Storage/Memspool/ReadBack.antt =====
-- src/storage/memspool.rs: what was written is read back, and nothing else changes.
use rustytorrent.Base.{
  ℕ, ◌+◌, ◌<◌, ◌≤◌, ◌≡◌, ◌≢◌, ◌⊎◌, refl, inl, inr, Bool-cases, some, List, arith, ltb, leb, leb→le,
  ◌==◌, ==_iff, length, get_elem?-set_self, get_elem?-set_ne, set, take, drop, true, false,
}
use rustytorrent.Base.Outcome.{Error, ok, err}
use rustytorrent.Storage.Memspool.{MemSpool, piece_size, write_piece, read_range, read_slot}

pub write_piece_ok :
    (sp : MemSpool) (index : ℕ) (bytes : List ℕ)
    → length bytes ≡ piece_size sp index
    → index < length sp.pieces
    → write_piece sp index bytes ≡ (record sp { pieces = set sp.pieces index (some bytes) }, ok tt)
unfolding write_piece
write_piece_ok sp index bytes e h =
    let fits : (length bytes == piece_size sp index) ≡ true = ground arith in
    let within : leb (length sp.pieces) index ≡ false = ground arith in rw (fits, within) refl

-- A piece of the right size is stored: every range inside it reads back as the bytes that were
-- written, and the ranges of every other piece read as before. A piece of another size, or one out
-- of range, is refused, and the spool is as it was.
pub write_piece_lem :
    (sp : MemSpool) (index : ℕ) (bytes : List ℕ)
    → let r = write_piece sp index bytes in
      (((length bytes ≢ piece_size sp index) ⊎ (length sp.pieces ≤ index))
        × (r ≡ (sp, err Error.io)))
      ⊎ ((r.1 ≡ ok tt)
          × ((begin n : ℕ)
              → begin + n ≤ piece_size sp index
              → read_range r.0 index begin n ≡ ok (take n (drop begin bytes)))
          × ((other begin n : ℕ)
              → index ≢ other
              → read_range r.0 other begin n ≡ read_range sp other begin n))
unfolding read_range read_slot piece_size
write_piece_lem sp index bytes = elim (Bool-cases (length bytes == piece_size sp index)) [
  | inr misfit ↦ inl (inl (λ e. ground arith), unfold write_piece in (rw misfit refl))
  | inl fits ↦ elim (Bool-cases (leb (length sp.pieces) index)) [
    | inl out ↦ inl (inr (leb→le _ _ out), unfold write_piece in (rw (fits, out) refl))
    | inr within ↦
        let h : index < length sp.pieces = ground arith in
        inr (
          rw (write_piece_ok sp index bytes ((==_iff _ _).0 fits) h) (
            refl,
            λ begin n k.
                let room : ltb (piece_size sp index) (begin + n) ≡ false = ground arith in
                rw (room, get_elem?-set_self sp.pieces index (some bytes) h) refl,
            λ other begin n ne. rw (get_elem?-set_ne sp.pieces index other (some bytes) ne) refl,
          ))
  ]
]
