-- ===== src/Piece/Picker.antt =====
-- src/piece/picker.rs: which peers have which piece, and the next piece to fetch from a peer.
-- An address is a number. `rand`'s `shuffle` is a parameter. The picker and the piece manager are
-- made for the same number of pieces; a state out of range reads as complete, where the source
-- panics.
pub mod Counting
pub mod Choice
pub mod Events
use rustytorrent.Base.{
  ℕ, zero, suc, ◌+◌, ◌-◌, ◌^◌, min, Bool, true, false, not, ◌&&◌, ◌||◌, Option, none, some, List,
  [], ◌∷◌, ◌++◌, ltb, leb, ◌==◌, if◌then◌else◌, length, get_or, set, replicate,
}
use rustytorrent.Base.Maps.{Map, lookup, remove, insert}
use rustytorrent.Piece.Row.{complete, is_state_complete, bit}
use rustytorrent.Piece.Manager.{PieceManager, is_wanted}

pub record Picker : Type 0 where
  pub num_pieces : ℕ
  pub peer_bitfields : Map (List Bool)
  pub availability : List ℕ
  pub assigned : Map ℕ
  pub sequential : Bool

abbrev pub max_u32 : ℕ
max_u32 = 2 ^ 32 - 1

unfoldable pub new : ℕ → Picker
new num_pieces = record {
  num_pieces = num_pieces;
  peer_bitfields = [];
  availability = replicate num_pieces 0;
  assigned = [];
  sequential = false;
}

unfoldable pub set_sequential : Picker → Bool → Picker
set_sequential p on = record p { sequential = on }

-- The loops over a bitfield, as far as there are pieces: `saturating_sub` and `saturating_add`.
unfoldable pub withdraw : List ℕ → List Bool → List ℕ
withdraw [] bits = []
withdraw (a ∷ av) [] = a ∷ av
withdraw (a ∷ av) (b ∷ bits) = (if b then a - 1 else a) ∷ withdraw av bits

unfoldable pub contribute : List ℕ → List Bool → List ℕ
contribute [] bits = []
contribute (a ∷ av) [] = a ∷ av
contribute (a ∷ av) (b ∷ bits) = (if b then min (a + 1) max_u32 else a) ∷ contribute av bits

-- `peer_bitfields.remove(&addr)`, and its contributions with it.
unfoldable pub withdraw_old : List ℕ → Option (List Bool) → List ℕ
unfolding withdraw
withdraw_old av none = av
withdraw_old av (some old) = withdraw av old

unfoldable pub set_peer_bitfield : Picker → ℕ → List Bool → Picker
unfolding withdraw_old contribute lookup insert
set_peer_bitfield p addr bf = record p {
  availability = contribute (withdraw_old p.availability (lookup addr p.peer_bitfields)) bf;
  peer_bitfields = insert addr bf p.peer_bitfields;
}

peer_bit : Option (List Bool) → ℕ → Bool
peer_bit none index = false
peer_bit (some bf) index = bit bf index

unfoldable pub peer_has : Picker → ℕ → ℕ → Bool
unfolding peer_bit lookup
peer_has p addr index = peer_bit (lookup addr p.peer_bitfields) index

-- `or_insert_with` an empty bitfield, then `resize` of a short one.
unfoldable pub entry : ℕ → Option (List Bool) → List Bool
entry num_pieces none = replicate num_pieces false
entry num_pieces (some bf) = bf ++ replicate (num_pieces - length bf) false

add_to : Picker → ℕ → ℕ → List Bool → Picker
unfolding insert
add_to p addr index bf =
    if not (bit bf index)
    then record p {
      peer_bitfields = insert addr (set bf index true) p.peer_bitfields;
      availability = set p.availability index (min (get_or p.availability index 0 + 1) max_u32);
    }
    else record p { peer_bitfields = insert addr bf p.peer_bitfields }

unfoldable pub add_have : Picker → ℕ → ℕ → Picker
unfolding entry add_to lookup
add_have p addr index =
    if leb p.num_pieces index
    then p
    else add_to p addr index (entry p.num_pieces (lookup addr p.peer_bitfields))

unfoldable pub forget_peer : Picker → ℕ → Picker
unfolding withdraw_old lookup remove
forget_peer p addr = record p {
  availability = withdraw_old p.availability (lookup addr p.peer_bitfields);
  peer_bitfields = remove addr p.peer_bitfields;
  assigned = remove addr p.assigned;
}

unfoldable pub assignment : Picker → ℕ → Option ℕ
unfolding lookup
assignment p addr = lookup addr p.assigned

unfoldable pub release_assignment : Picker → ℕ → Picker
unfolding remove
release_assignment p addr = record p { assigned = remove addr p.assigned }

unfoldable pub is_at : ℕ → Option ℕ → Bool
is_at index none = false
is_at index (some cur) = cur == index

unfoldable pub clear_assignment_if : Picker → ℕ → ℕ → Picker
unfolding is_at remove lookup
clear_assignment_if p addr index =
    if is_at index (lookup addr p.assigned)
    then record p { assigned = remove addr p.assigned }
    else p

-- `in_use.contains(&i)`.
unfoldable pub in_use : ℕ → Map ℕ → Bool
in_use i [] = false
in_use i ((addr, j) ∷ m) = j == i || in_use i m

-- `state` panics on a piece that the manager does not have, which is taken for complete here: a
-- picker is meant to be used with a manager of as many pieces.
unfoldable pub is_needed : PieceManager → ℕ → Bool
is_needed pm i = not (is_state_complete (get_or pm.states i complete)) && is_wanted pm i

unfoldable pub usable : Picker → PieceManager → Bool → List Bool → ℕ → Bool
unfolding is_needed in_use
usable p pm endgame bf i = bit bf i && is_needed pm i && (endgame || not (in_use i p.assigned))

-- The pieces from number i on, of which `left` remain: the first that passes.
unfoldable pub find_from : ℕ → ℕ → (ℕ → Bool) → Option ℕ
find_from zero i test = none
find_from (suc left) i test =
    let rest = find_from left (i + 1) test in if test i then some i else rest

-- The pass over the pieces with the lowest availability seen and the pieces tied at it.
unfoldable pub rarest_step : (ℕ → Bool) → List ℕ → ℕ → ℕ × List ℕ → ℕ × List ℕ
rarest_step test availability i (min_av, ties) =
    let av = get_or availability i 0 in
    if not (test i)
    then (min_av, ties)
    else if ltb av min_av
    then (av, i ∷ [])
    else if av == min_av
    then (min_av, ties ++ i ∷ [])
    else (min_av, ties)

unfoldable pub rarest_from : ℕ → ℕ → (ℕ → Bool) → List ℕ → ℕ × List ℕ → ℕ × List ℕ
unfolding rarest_step
rarest_from zero i test availability best = best
rarest_from (suc left) i test availability best =
    rarest_from left (i + 1) test availability (rarest_step test availability i best)

unfoldable pub first : List ℕ → Option ℕ
first [] = none
first (i ∷ is_) = some i

unfoldable pub sticky : PieceManager → Option ℕ → Option ℕ
unfolding is_needed
sticky pm none = none
sticky pm (some i) = if is_needed pm i then some i else none

module _ (shuffle : List ℕ → List ℕ) where
  unfoldable pub choose : Picker → PieceManager → Bool → List Bool → Option ℕ
  unfolding usable find_from rarest_from first
  choose p pm endgame bf =
      if p.sequential
      then find_from p.num_pieces 0 (usable p pm endgame bf)
      else first (
          shuffle
            (rarest_from p.num_pieces 0 (usable p pm endgame bf) p.availability (max_u32, [])).1)

  assign : Picker → ℕ → Option ℕ → Picker × Option ℕ
  unfolding insert
  assign p addr none = (p, none)
  assign p addr (some chosen) = (record p { assigned = insert addr chosen p.assigned }, some chosen)

  pick_new : Picker → ℕ → PieceManager → Bool → Option (List Bool) → Picker × Option ℕ
  unfolding choose assign
  pick_new p addr pm endgame none = (p, none)
  pick_new p addr pm endgame (some bf) = assign p addr (choose p pm endgame bf)

  or_new : Picker → ℕ → PieceManager → Bool → Option ℕ → Picker × Option ℕ
  unfolding pick_new lookup
  or_new p addr pm endgame (some i) = (p, some i)
  or_new p addr pm endgame none = pick_new p addr pm endgame (lookup addr p.peer_bitfields)

  unfoldable pub pick_for : Picker → ℕ → PieceManager → Bool → Picker × Option ℕ
  unfolding or_new sticky lookup
  pick_for p addr pm endgame = or_new p addr pm endgame (sticky pm (lookup addr p.assigned))
