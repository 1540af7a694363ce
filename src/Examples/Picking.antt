-- ===== src/Examples/Picking.antt =====
-- src/piece/picker.rs: the theorems on the picker, at two peers and three pieces.
use rustytorrent.Base.{
  ℕ, suc, zero, ◌≤◌, ◌≡◌, ◌⊎◌, refl, true, false, none, some, List, [], ◌∷◌, arith, get_or, length,
}
use rustytorrent.Base.Maps.{lookup}
use rustytorrent.Piece.Manager.{PieceManager, initial}
use rustytorrent.Piece.Picker.{Picker, max_u32, new, usable, sticky, pick_for}
use rustytorrent.Piece.Picker.Counting.{IsCounted}
use rustytorrent.Piece.Picker.Events.{apply, have, apply-IsCounted, new-IsCounted}
use rustytorrent.Piece.Picker.Choice.{IsShuffle, IsBest, pick_for_lem}

-- A shuffle may leave the order as it is.
abbrev same_order : List ℕ → List ℕ
same_order xs = xs

same_order-IsShuffle : IsShuffle same_order
same_order-IsShuffle = record { size = λ xs. refl; keeps = λ P xs h. h }

no_peers : length (new 3).peer_bitfields ≤ 0
unfolding new
no_peers = omega arith

apply-IsCounted_example : IsCounted (apply same_order (new 3) (have 1 2))
apply-IsCounted_example =
    apply-IsCounted same_order (new 3) (have 1 2) (omega (arith, no_peers)) (new-IsCounted 3)

abbrev two_peers : Picker
two_peers = record {
  num_pieces = 3;
  peer_bitfields = (1, true ∷ true ∷ false ∷ []) ∷ (2, true ∷ false ∷ false ∷ []) ∷ [];
  availability = 2 ∷ 1 ∷ 0 ∷ [];
  assigned = [];
  sequential = false;
}

abbrev three_pieces : PieceManager
three_pieces = initial 16384 40000 3

peer_known : lookup 1 two_peers.peer_bitfields ≡ some (true ∷ true ∷ false ∷ [])
unfolding lookup
peer_known = refl

nothing_assigned : sticky three_pieces (lookup 1 two_peers.assigned) ≡ none
unfolding sticky lookup
nothing_assigned = refl

small_counts : (j : ℕ) → get_or two_peers.availability j 0 ≤ max_u32
small_counts zero = omega arith
small_counts (suc zero) = omega arith
small_counts (suc (suc zero)) = omega arith
small_counts (suc (suc (suc j))) = omega arith

pick_for_lem_example :
    let r = pick_for same_order two_peers 1 three_pieces false in
    IsBest false
      (usable two_peers three_pieces false (true ∷ true ∷ false ∷ []))
      (2 ∷ 1 ∷ 0 ∷ [])
      3
      r.1
    × (((r.1 ≡ none) × (r.0 ≡ two_peers)) ⊎ (lookup 1 r.0.assigned ≡ r.1))
pick_for_lem_example =
    pick_for_lem same_order same_order-IsShuffle two_peers 1 three_pieces false
      (true ∷ true ∷ false ∷ []) peer_known nothing_assigned small_counts
