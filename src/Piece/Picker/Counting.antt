-- ===== src/Piece/Picker/Counting.antt =====
-- src/piece/picker.rs: the availability of a piece is the number of peers that have it.
use rustytorrent.Base.{
  ℕ, zero, suc, ◌+◌, ◌-◌, ◌<◌, ◌≤◌, ◌≡◌, ◌≢◌, refl, sym, ap, ◌∙◌, inl, inr, Bool-cases, Bool, true,
  false, Option, none, some, List, [], ◌∷◌, ◌++◌, arith, leb, min, ◌==◌, ==_iff, length,
  length-append, length-set, length-replicate, get_or, set, replicate, if◌then◌else◌,
}
use rustytorrent.Base.Maps.{
  Map, lookup, remove, insert, HasDistinctKeys, remove-HasDistinctKeys, insert-HasDistinctKeys,
  remove_absent,
}
use rustytorrent.Piece.Row.{bit}
use rustytorrent.Piece.Row.Bits.{bit-set_self, bit-set_ne, bit-replicate}
use rustytorrent.Piece.Picker.{
  Picker, max_u32, withdraw, contribute, withdraw_old, set_peer_bitfield, entry, add_to, add_have,
  forget_peer,
}

abbrev pub one_if : Bool → ℕ
one_if b = if b then 1 else 0

-- How many of the peers have the piece.
abbrev pub count : Map (List Bool) → ℕ → ℕ
count [] i = 0
count ((k, bf) ∷ m) i = one_if (bit bf i) + count m i

pub record IsCounted (p : Picker) : Type 0 where
  pub availability_len : length p.availability ≡ p.num_pieces
  pub distinct : HasDistinctKeys p.peer_bitfields
  pub counted : (i : ℕ) → i < p.num_pieces → get_or p.availability i 0 ≡ count p.peer_bitfields i

abbrev had : Option (List Bool) → ℕ → ℕ
had none i = 0
had (some bf) i = one_if (bit bf i)

count-remove :
    (k : ℕ) (m : Map (List Bool)) (i : ℕ)
    → HasDistinctKeys m
    → count m i ≡ had (lookup k m) i + count (remove k m) i
unfolding lookup remove
count-remove k [] i d = refl
count-remove k ((j, bf) ∷ m) i d = elim (Bool-cases (j == k)) [
  | inl hit ↦
      let same : j ≡ k = (==_iff j k).0 hit in
      let gone = remove_absent j m d.0 in
      rw hit
        (ap (λ x. one_if (bit bf i) + count x i) (sym (ap (λ x. remove x m) (sym same) ∙ gone)))
  | inr miss ↦ let rest = count-remove k m i d.1 in rw miss (omega (arith, rest))
]

count-le : (m : Map (List Bool)) (i : ℕ) → count m i ≤ length m
count-le [] i = omega arith
count-le ((k, bf) ∷ m) i = ground (arith, count-le m i)

length-remove : (k : ℕ) (m : Map (List Bool)) → length (remove k m) ≤ length m
unfolding remove
length-remove k [] = omega arith
length-remove k ((j, bf) ∷ m) = ground (arith, length-remove k m)

length-withdraw : (av : List ℕ) (bits : List Bool) → length (withdraw av bits) ≡ length av
unfolding withdraw
length-withdraw [] bits = refl
length-withdraw (a ∷ av) [] = refl
length-withdraw (a ∷ av) (b ∷ bits) = ap suc (length-withdraw av bits)

length-contribute : (av : List ℕ) (bits : List Bool) → length (contribute av bits) ≡ length av
unfolding contribute
length-contribute [] bits = refl
length-contribute (a ∷ av) [] = refl
length-contribute (a ∷ av) (b ∷ bits) = ap suc (length-contribute av bits)

get_or-withdraw :
    (av : List ℕ) (bits : List Bool) (i : ℕ)
    → get_or (withdraw av bits) i 0 ≡ get_or av i 0 - one_if (bit bits i)
unfolding withdraw
get_or-withdraw [] bits i = omega arith
get_or-withdraw (a ∷ av) [] i = omega arith
get_or-withdraw (a ∷ av) (b ∷ bits) zero = ground arith
get_or-withdraw (a ∷ av) (b ∷ bits) (suc i) = get_or-withdraw av bits i

get_or-contribute :
    (av : List ℕ) (bits : List Bool) (i : ℕ)
    → i < length av
    → get_or av i 0 < max_u32
    → get_or (contribute av bits) i 0 ≡ get_or av i 0 + one_if (bit bits i)
unfolding contribute
get_or-contribute [] bits i h l = absurd (omega arith)
get_or-contribute (a ∷ av) [] i h l = omega arith
get_or-contribute (a ∷ av) (b ∷ bits) zero h l = ground arith
get_or-contribute (a ∷ av) (b ∷ bits) (suc i) h l = get_or-contribute av bits i (omega arith) l

length-withdraw_old :
    (av : List ℕ) (old : Option (List Bool)) → length (withdraw_old av old) ≡ length av
unfolding withdraw_old
length-withdraw_old av none = refl
length-withdraw_old av (some bf) = length-withdraw av bf

get_or-withdraw_old :
    (av : List ℕ) (old : Option (List Bool)) (i : ℕ)
    → get_or (withdraw_old av old) i 0 ≡ get_or av i 0 - had old i
unfolding withdraw_old
get_or-withdraw_old av none i = omega arith
get_or-withdraw_old av (some bf) i = get_or-withdraw av bf i

module _ (p : Picker) (addr : ℕ) (v : IsCounted p) where
  -- Without the peer's old contributions, the counts are those of the others.
  others :
      (i : ℕ)
      → i < p.num_pieces
      → get_or (withdraw_old p.availability (lookup addr p.peer_bitfields)) i 0
        ≡ count (remove addr p.peer_bitfields) i
  others i h =
      let out = get_or-withdraw_old p.availability (lookup addr p.peer_bitfields) i in
      let split = count-remove addr p.peer_bitfields i v.distinct in
      omega (arith, out, split, v.counted i h)

  pub set_peer_bitfield-IsCounted :
      (bf : List Bool) → length p.peer_bitfields < max_u32 → IsCounted (set_peer_bitfield p addr bf)
  unfolding set_peer_bitfield insert
  set_peer_bitfield-IsCounted bf few =
      let old = lookup addr p.peer_bitfields in
      let av = withdraw_old p.availability old in
      let size : length av ≡ p.num_pieces =
        length-withdraw_old p.availability old ∙ v.availability_len in
      record {
        availability_len = length-contribute av bf ∙ size;
        distinct = insert-HasDistinctKeys addr bf p.peer_bitfields v.distinct;
        counted = λ i h.
            let rest = others i h in
            let low = count-le (remove addr p.peer_bitfields) i in
            let fewer = length-remove addr p.peer_bitfields in
            let added = get_or-contribute av bf i (omega arith) (omega arith) in
            omega (arith, added, rest);
      }

  pub forget_peer-IsCounted : IsCounted (forget_peer p addr)
  unfolding forget_peer
  forget_peer-IsCounted = record {
    availability_len =
        length-withdraw_old p.availability (lookup addr p.peer_bitfields) ∙ v.availability_len;
    distinct = remove-HasDistinctKeys addr p.peer_bitfields v.distinct;
    counted = others;
  }

bit-append_false : (bf : List Bool) (n i : ℕ) → bit (bf ++ replicate n false) i ≡ bit bf i
bit-append_false [] n i = bit-replicate n i
bit-append_false (b ∷ bf) n zero = refl
bit-append_false (b ∷ bf) n (suc i) = bit-append_false bf n i

one_if-entry : (n : ℕ) (old : Option (List Bool)) (i : ℕ) → one_if (bit (entry n old) i) ≡ had old i
unfolding entry
one_if-entry n none i = ap one_if (bit-replicate n i)
one_if-entry n (some bf) i = ap one_if (bit-append_false bf (n - length bf) i)

length-entry : (n : ℕ) (old : Option (List Bool)) → n ≤ length (entry n old)
unfolding entry
length-entry n none = omega (arith, length-replicate n false)
length-entry n (some bf) = omega (
  arith,
  length-append bf (replicate (n - length bf) false),
  length-replicate (n - length bf) false,
)

get_or-set_self : (av : List ℕ) (i v : ℕ) → i < length av → get_or (set av i v) i 0 ≡ v
get_or-set_self [] i v h = absurd (omega arith)
get_or-set_self (a ∷ av) zero v h = refl
get_or-set_self (a ∷ av) (suc i) v h = get_or-set_self av i v (omega arith)

get_or-set_ne : (av : List ℕ) (i j v : ℕ) → i ≢ j → get_or (set av i v) j 0 ≡ get_or av j 0
get_or-set_ne [] i j v n = refl
get_or-set_ne (a ∷ av) zero zero v n = absurd (n refl)
get_or-set_ne (a ∷ av) zero (suc j) v n = refl
get_or-set_ne (a ∷ av) (suc i) zero v n = refl
get_or-set_ne (a ∷ av) (suc i) (suc j) v n = get_or-set_ne av i j v (λ e. n (ap suc e))

abbrev available : List ℕ → ℕ → ℕ
available av i = get_or av i 0

module _ (p : Picker) (addr index : ℕ) (v : IsCounted p) where
  -- `bf` is the peer's bitfield, extended to every piece.
  add_to-IsCounted :
      (bf : List Bool)
      → index < p.num_pieces
      → length p.peer_bitfields < max_u32
      → p.num_pieces ≤ length bf
      → ((i : ℕ) → one_if (bit bf i) ≡ had (lookup addr p.peer_bitfields) i)
      → IsCounted (add_to p addr index bf)
  unfolding add_to insert
  add_to-IsCounted bf h few wide same = elim (Bool-cases (bit bf index)) [
    | inl set_already ↦ rw set_already (record {
      availability_len = v.availability_len;
      distinct = insert-HasDistinctKeys addr bf p.peer_bitfields v.distinct;
      counted = λ i k.
          let split = count-remove addr p.peer_bitfields i v.distinct in
          omega (arith, split, same i, v.counted i k);
    })
    | inr new_bit ↦ rw new_bit (record {
      availability_len = length-set p.availability index _ ∙ v.availability_len;
      distinct = insert-HasDistinctKeys addr (set bf index true) p.peer_bitfields v.distinct;
      counted = λ i k. counted_at i k new_bit;
    })
  ]
    where
      counted_at :
          (i : ℕ)
          → i < p.num_pieces
          → bit bf index ≡ false
          → get_or (set p.availability index (min (get_or p.availability index 0 + 1) max_u32)) i 0
            ≡ one_if (bit (set bf index true) i) + count (remove addr p.peer_bitfields) i
      counted_at i k new_bit =
          let split = count-remove addr p.peer_bitfields i v.distinct in
          let len = v.availability_len in
          let few_here = count-le p.peer_bitfields i in
          elim (Bool-cases (index == i)) [
            | inl here ↦
                let at_ : index ≡ i = (==_iff index i).0 here in
                let low : one_if (bit bf i) ≡ 0 = ap one_if (ap (bit bf) (sym at_) ∙ new_bit) in
                let raised : one_if (bit (set bf index true) i) ≡ 1 = ap one_if (
                  ap (bit (set bf index true)) (sym at_)
                  ∙ bit-set_self bf index true (omega arith)) in
                let written =
                  ap
                    (available
                      (set p.availability index (min (get_or p.availability index 0 + 1) max_u32)))
                    (sym at_)
                  ∙ get_or-set_self p.availability index
                      (min (get_or p.availability index 0 + 1) max_u32) (omega arith) in
                let old = v.counted index h in
                let split_here = count-remove addr p.peer_bitfields index v.distinct in
                let moved : count p.peer_bitfields index ≡ count p.peer_bitfields i =
                  ap (count p.peer_bitfields) at_ in
                omega (arith, written, raised, low, same i, split, old, moved)
            | inr elsewhere ↦
                let kept_bit : one_if (bit (set bf index true) i) ≡ one_if (bit bf i) =
                  ap one_if (bit-set_ne bf index i true (ground arith)) in
                let kept =
                  get_or-set_ne p.availability index i
                    (min (get_or p.availability index 0 + 1) max_u32) (ground arith) in
                omega (arith, kept, kept_bit, same i, split, v.counted i k)
          ]

  pub add_have-IsCounted : length p.peer_bitfields < max_u32 → IsCounted (add_have p addr index)
  unfolding add_have
  add_have-IsCounted few = elim (Bool-cases (leb p.num_pieces index)) [
    | inl out ↦ rw out v
    | inr within ↦ rw within (
        add_to-IsCounted (entry p.num_pieces (lookup addr p.peer_bitfields)) (ground arith) few
          (length-entry p.num_pieces (lookup addr p.peer_bitfields))
          (one_if-entry p.num_pieces (lookup addr p.peer_bitfields)))
  ]
