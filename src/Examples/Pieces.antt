-- ===== src/Examples/Pieces.antt =====
-- src/piece/manager.rs: the theorems on the manager, at concrete torrents.
use rustytorrent.Base.{
  ℕ, ◌/◌, ◌<◌, ◌≡◌, ◌≢◌, ◌⊎◌, refl, true, false, none, some, [], ◌∷◌, arith, ◌==◌, if◌then◌else◌,
}
use rustytorrent.Peer.Message.{block_size}
use rustytorrent.Piece.Geometry.{blocks_in}
use rustytorrent.Piece.Row
use rustytorrent.Piece.Row.{Row, in_progress, start, block_at, bit, complete, fresh, received_block}
use rustytorrent.Piece.Row.Invariant as RowInvariant
use rustytorrent.Piece.Row.Assembly.{Accounts, received_block-Accounts}
use rustytorrent.Piece.Row.Requests.{is_free, reserve_block_lem}
use rustytorrent.Piece.Manager.{PieceManager, initial}
use rustytorrent.Piece.Manager.Invariant.{IsValid}
use rustytorrent.Piece.Manager.Calls.{Survives, apply, receive, apply-Survives}
use rustytorrent.Piece.Manager.Start.{initial-IsValid}

-- Two pieces of 32768 bytes and of 7232.
abbrev two_pieces : PieceManager
two_pieces = initial 32768 40000 2

two_pieces-IsValid : IsValid two_pieces
two_pieces-IsValid = initial-IsValid 32768 40000 2 (omega arith) (omega arith)

apply-Survives_example : Survives (apply two_pieces (receive 1 0 (1 ∷ [])))
apply-Survives_example = apply-Survives two_pieces (receive 1 0 (1 ∷ [])) two_pieces-IsValid tt

-- A piece of three bytes in one block, which arrives.
received_block-Accounts_example :
    let r = received_block (fresh (blocks_in 3)) 3 (blocks_in 3) 0 (1 ∷ 2 ∷ 3 ∷ []) in
    Accounts 3 (0 / block_size) (1 ∷ 2 ∷ 3 ∷ []) (λ b. []) r.0 r.1
unfolding fresh
received_block-Accounts_example =
    received_block-Accounts 3 0 (1 ∷ 2 ∷ 3 ∷ []) (λ b. []) (fresh (blocks_in 3)) (omega arith)
      (RowInvariant.fresh-IsValid 3 (blocks_in 3)) tt

-- Two blocks, of which the first is asked for.
abbrev half_asked : Row
half_asked = record {
  state = in_progress;
  requested = true ∷ false ∷ [];
  received = false ∷ false ∷ [];
  buffer = none;
}

half_asked_open : half_asked.state ≢ complete
half_asked_open e = cc

reserve_block_lem_example :
    ((Row.reserve_block half_asked 20000 2 ≡ (start half_asked 20000, none))
      × ((c : ℕ) → c < 2 → is_free half_asked c ≡ false))
    ⊎ ((d : ℕ) × ((Row.reserve_block half_asked 20000 2).1 ≡ some (block_at 20000 d))
        × (d < 2)
        × (is_free half_asked d ≡ true)
        × ((c : ℕ) → c < d → is_free half_asked c ≡ false)
        × ((c : ℕ)
            → is_free (Row.reserve_block half_asked 20000 2).0 c
              ≡ (if c == d then false else is_free half_asked c)))
reserve_block_lem_example = reserve_block_lem half_asked 20000 2 refl half_asked_open
