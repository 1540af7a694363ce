-- ===== src/Storage/Memspool/Task/Served.antt =====
-- src/storage/memspool.rs: what the task answers, from the commands alone.
use rustytorrent.Base.{
  ℕ, zero, suc, ◌+◌, ◌%◌, ◌^◌, ◌<◌, ◌≡◌, refl, sym, ap₂, ◌∙◌, inl, inr, Bool, true, false, Option,
  none, some, List, [], ◌∷◌, arith, Bool-cases, ltb, leb, ◌==◌, ◌!=◌, ==_iff, ◌&&◌, if◌then◌else◌,
  length, length-set, length-replicate, get_elem?, get_elem?-set_self, get_elem?-set_ne, set,
  replicate, take, drop, of_if,
}
use rustytorrent.Base.Outcome.{Error, Result, ok, err}
use rustytorrent.Storage.Layout.{Layout, piece_size}
use rustytorrent.Storage.Memspool
use rustytorrent.Storage.Memspool.{MemSpool, new, write_piece, read_range, read_slot}
use rustytorrent.Storage.Memspool.Task.{
  StorageCommand, write, read, shutdown, written, error, Output, event, reply, write_event, serve,
  run_memspool_storage,
}

-- The torrent has such a piece, and the bytes are of its size.
abbrev pub is_fitting : Layout → ℕ → List ℕ → Bool
is_fitting l index bytes = ltb index l.num_pieces && (length bytes == piece_size l index)

-- What a piece holds after the commands, of which the last one is the first of the list.
abbrev pub held : Layout → List StorageCommand → ℕ → Option (List ℕ)
held l [] i = none
held l (write index bytes ∷ past) i =
    if index == i && is_fitting l index bytes then some bytes else held l past i
held l (_ ∷ past) i = held l past i

abbrev pub range_of : Option (List ℕ) → ℕ → ℕ → Result (List ℕ)
range_of none begin n = err Error.io
range_of (some bytes) begin n = ok (take n (drop begin bytes))

-- The answers to the commands, with those that came before.
abbrev pub answers : Layout → List StorageCommand → List StorageCommand → List Output
answers l past [] = []
answers l past (shutdown ∷ _) = []
answers l past (write index bytes ∷ commands) =
    event (if is_fitting l index bytes then written index else error (some index))
    ∷ answers l (write index bytes ∷ past) commands
answers l past (read index begin n ∷ commands) =
    reply (
      if ltb (piece_size l index) (begin + n)
      then err Error.io
      else range_of (held l past index) begin n)
    ∷ answers l (read index begin n ∷ past) commands

-- The spool of a layout, with the pieces that the commands have left.
record IsSpool (l : Layout) (past : List StorageCommand) (sp : MemSpool) : Type 0 where
  piece_length_eq : sp.piece_length ≡ l.piece_length
  num_pieces_eq : sp.num_pieces ≡ l.num_pieces
  total_length_eq : sp.total_length ≡ l.total_length
  length_eq : length sp.pieces ≡ l.num_pieces
  slot_eq :
      (i begin n : ℕ) → read_slot (get_elem? sp.pieces i) begin n ≡ range_of (held l past i) begin n

size_eq :
    (l : Layout) (past : List StorageCommand) (sp : MemSpool) (i : ℕ)
    → IsSpool l past sp
    → Memspool.piece_size sp i ≡ piece_size l i
unfolding Memspool.piece_size piece_size
size_eq l past sp i h = rw (h.piece_length_eq, h.num_pieces_eq, h.total_length_eq) refl

replicate-empty :
    (n i begin count : ℕ) → read_slot (get_elem? (replicate n none) i) begin count ≡ err Error.io
unfolding read_slot
replicate-empty zero i begin count = refl
replicate-empty (suc n) zero begin count = refl
replicate-empty (suc n) (suc i) begin count = replicate-empty n i begin count

new-IsSpool :
    (l : Layout)
    → l.num_pieces < 2 ^ 32
    → IsSpool l [] (new l.piece_length (l.num_pieces % 2 ^ 32) l.total_length)
unfolding new
new-IsSpool l h =
    let same : l.num_pieces % 2 ^ 32 ≡ l.num_pieces = omega arith in
    rw same (record {
      piece_length_eq = refl;
      num_pieces_eq = refl;
      total_length_eq = refl;
      length_eq = length-replicate l.num_pieces none;
      slot_eq = replicate-empty l.num_pieces;
    })

-- What a write does to the spool and what it reports, for commands that came before.
abbrev IsWritten : Layout → List StorageCommand → ℕ → List ℕ → MemSpool × Result (Unit {0}) → Type 0
IsWritten l past index bytes r =
    IsSpool l (write index bytes ∷ past) r.0
    × (write_event index r.1
        ≡ (if is_fitting l index bytes then written index else error (some index)))

refused-IsWritten :
    (l : Layout) (past : List StorageCommand) (index : ℕ) (bytes : List ℕ) (sp : MemSpool)
    → IsSpool l past sp
    → is_fitting l index bytes ≡ false
    → IsWritten l past index bytes (sp, err Error.io)
unfolding write_event
refused-IsWritten l past index bytes sp h e = (
  record {
    piece_length_eq = h.piece_length_eq;
    num_pieces_eq = h.num_pieces_eq;
    total_length_eq = h.total_length_eq;
    length_eq = h.length_eq;
    slot_eq = λ i.
        let skip : (index == i && is_fitting l index bytes) ≡ false = ground arith in
        rw skip (h.slot_eq i);
  },
  rw e refl,
)

accepted-IsWritten :
    (l : Layout) (past : List StorageCommand) (index : ℕ) (bytes : List ℕ) (sp : MemSpool)
    → IsSpool l past sp
    → is_fitting l index bytes ≡ true
    → IsWritten l past index bytes (record sp { pieces = set sp.pieces index (some bytes) }, ok tt)
unfolding write_event
accepted-IsWritten l past index bytes sp h e = (
  record {
    piece_length_eq = h.piece_length_eq;
    num_pieces_eq = h.num_pieces_eq;
    total_length_eq = h.total_length_eq;
    length_eq = length-set sp.pieces index (some bytes) ∙ h.length_eq;
    slot_eq = slots;
  },
  rw e refl,
)
  where
    within : index < length sp.pieces
    within = rw h.length_eq (ground arith)

    slots :
        (i begin n : ℕ)
        → read_slot (get_elem? (set sp.pieces index (some bytes)) i) begin n
          ≡ range_of (held l (write index bytes ∷ past) i) begin n
    slots i begin n = elim (Bool-cases (index == i)) [
      | inl same ↦
          rw
            (
              same,
              e,
              sym ((==_iff index i).0 same),
              get_elem?-set_self sp.pieces index (some bytes) within,
            )
            (unfold read_slot in refl)
      | inr other ↦
          rw (other, get_elem?-set_ne sp.pieces index i (some bytes) (λ p. ground arith))
            (h.slot_eq i begin n)
    ]

write_piece-IsWritten :
    (l : Layout) (past : List StorageCommand) (index : ℕ) (bytes : List ℕ) (sp : MemSpool)
    → IsSpool l past sp
    → IsWritten l past index bytes (write_piece sp index bytes)
unfolding write_piece
write_piece-IsWritten l past index bytes sp h =
    let size = size_eq l past sp index h in
    let many = h.length_eq in
    of_if (IsWritten l past index bytes) (length bytes != Memspool.piece_size sp index) _ _
      (λ misfit. refused-IsWritten l past index bytes sp h (ground arith))
      λ fits.
        of_if (IsWritten l past index bytes) (leb (length sp.pieces) index) _ _
          (λ out. refused-IsWritten l past index bytes sp h (ground arith))
          λ within. accepted-IsWritten l past index bytes sp h (ground arith)

serve-answers :
    (l : Layout) (past commands : List StorageCommand) (sp : MemSpool)
    → IsSpool l past sp
    → serve sp commands ≡ answers l past commands
unfolding serve
serve-answers l past [] sp h = refl
serve-answers l past (shutdown ∷ _) sp h = refl
serve-answers l past (write index bytes ∷ commands) sp h =
    let r = write_piece sp index bytes in
    let done = write_piece-IsWritten l past index bytes sp h in
    ap₂ (λ e rest. event e ∷ rest) done.1
      (serve-answers l (write index bytes ∷ past) commands r.0 done.0)
serve-answers l past (read index begin n ∷ commands) sp h =
    ap₂ (λ r rest. reply r ∷ rest)
      (unfold read_range in rw (size_eq l past sp index h, h.slot_eq index begin n) refl)
      (serve-answers l (read index begin n ∷ past) commands sp (record {
        piece_length_eq = h.piece_length_eq;
        num_pieces_eq = h.num_pieces_eq;
        total_length_eq = h.total_length_eq;
        length_eq = h.length_eq;
        slot_eq = h.slot_eq;
      }))

-- For a torrent of less than 2^32 pieces, the task answers what the commands before say: a write
-- is confirmed exactly if the torrent has such a piece and the bytes are of its size; a read within
-- the piece gets the range of the bytes that the last confirmed write of the piece gave, and an
-- error if there is none; and nothing is answered after a shutdown.
pub run_memspool_storage-answers :
    (l : Layout) (commands : List StorageCommand)
    → l.num_pieces < 2 ^ 32
    → run_memspool_storage l commands ≡ answers l [] commands
unfolding run_memspool_storage
run_memspool_storage-answers l commands h = serve-answers l [] commands _ (new-IsSpool l h)
