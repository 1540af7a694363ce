-- ===== src/Piece/Picker/Events.antt =====
-- src/piece/picker.rs: whatever peers send and whichever pieces are picked, availability counts.
use rustytorrent.Base.{
  ℕ, ◌<◌, ◌≡◌, refl, inl, inr, Bool-cases, Bool, Option-cases, List, length, length-replicate,
  get_or, replicate, zero, suc,
}
use rustytorrent.Base.Maps.{lookup}
use rustytorrent.Piece.Manager.{PieceManager}
use rustytorrent.Piece.Picker.{
  Picker, max_u32, new, set_sequential, set_peer_bitfield, add_have, forget_peer,
  release_assignment, clear_assignment_if, is_at, pick_for, or_new, pick_new, assign, sticky,
  choose,
}
use rustytorrent.Piece.Picker.Counting.{
  IsCounted, set_peer_bitfield-IsCounted, forget_peer-IsCounted, add_have-IsCounted,
}

-- The calls that change the picker.
pub data Event : Type 0 where
  bitfield : ℕ → List Bool → Event
  have : ℕ → ℕ → Event
  forget release : ℕ → Event
  clear : ℕ → ℕ → Event
  pick : ℕ → PieceManager → Bool → Event
  order : Bool → Event

unfoldable pub apply : (List ℕ → List ℕ) → Picker → Event → Picker
apply shuffle p (bitfield addr bf) = set_peer_bitfield p addr bf
apply shuffle p (have addr index) = add_have p addr index
apply shuffle p (forget addr) = forget_peer p addr
apply shuffle p (release addr) = release_assignment p addr
apply shuffle p (clear addr index) = clear_assignment_if p addr index
apply shuffle p (pick addr pm endgame) = (pick_for shuffle p addr pm endgame).0
apply shuffle p (order on) = set_sequential p on

pick_for-IsCounted :
    (shuffle : List ℕ → List ℕ) (p : Picker) (addr : ℕ) (pm : PieceManager) (endgame : Bool)
    → IsCounted p
    → IsCounted (pick_for shuffle p addr pm endgame).0
unfolding pick_for or_new pick_new assign
pick_for-IsCounted shuffle p addr pm endgame v =
    elim (Option-cases (sticky pm (lookup addr p.assigned))) [
      | inr (i, e) ↦ rw e v
      | inl e ↦ rw e (elim (Option-cases (lookup addr p.peer_bitfields)) [
        | inl f ↦ rw f v
        | inr (bf, f) ↦ rw f (elim (Option-cases (choose shuffle p pm endgame bf)) [
          | inl g ↦ rw g v
          | inr (c, g) ↦ rw g (record {
            availability_len = v.availability_len;
            distinct = v.distinct;
            counted = v.counted;
          })
        ])
      ])
    ]

-- With fewer than 2 ^ 32 - 1 peers, every call keeps each piece's availability at the number of
-- peers whose bitfield has it, and each peer with one bitfield.
pub apply-IsCounted :
    (shuffle : List ℕ → List ℕ) (p : Picker) (event : Event)
    → length p.peer_bitfields < max_u32
    → IsCounted p
    → IsCounted (apply shuffle p event)
unfolding apply release_assignment clear_assignment_if set_sequential
apply-IsCounted shuffle p (bitfield addr bf) few v = set_peer_bitfield-IsCounted p addr v bf few
apply-IsCounted shuffle p (have addr index) few v = add_have-IsCounted p addr index v few
apply-IsCounted shuffle p (forget addr) few v = forget_peer-IsCounted p addr v
apply-IsCounted shuffle p (release addr) few v = record {
  availability_len = v.availability_len;
  distinct = v.distinct;
  counted = v.counted;
}
apply-IsCounted shuffle p (clear addr index) few v =
    elim (Bool-cases (is_at index (lookup addr p.assigned))) [
      | inl hit ↦ rw hit (record {
        availability_len = v.availability_len;
        distinct = v.distinct;
        counted = v.counted;
      })
      | inr miss ↦ rw miss v
    ]
apply-IsCounted shuffle p (pick addr pm endgame) few v =
    pick_for-IsCounted shuffle p addr pm endgame v
apply-IsCounted shuffle p (order on) few v = record {
  availability_len = v.availability_len;
  distinct = v.distinct;
  counted = v.counted;
}

get_or-replicate : (n i : ℕ) → get_or (replicate n (let z : ℕ = 0 in z)) i 0 ≡ 0
get_or-replicate zero i = refl
get_or-replicate (suc n) zero = refl
get_or-replicate (suc n) (suc i) = get_or-replicate n i

pub new-IsCounted : (num_pieces : ℕ) → IsCounted (new num_pieces)
unfolding new
new-IsCounted num_pieces = record {
  availability_len = length-replicate num_pieces 0;
  distinct = tt;
  counted = λ i h. get_or-replicate num_pieces i;
}
