-- ===== src/Piece/Picker/Choice.antt =====
-- src/piece/picker.rs: the piece that is picked for a peer is the rarest usable one, or the first.
use rustytorrent.Base.{
  ℕ, zero, suc, ◌+◌, ◌<◌, ◌≤◌, ◌≡◌, ◌⊎◌, refl, sym, ap, subst, ◌∙◌, inl, inr, Bool-cases, Bool,
  true, false, Option, none, some, Option-cases, List, [], ◌∷◌, ◌++◌, arith, ltb, ◌==◌, ==_iff,
  length, length-append, get_or, All, All-append,
}
use rustytorrent.Base.Maps.{lookup, insert}
use rustytorrent.Piece.Manager.{PieceManager}
use rustytorrent.Piece.Picker.{
  Picker, max_u32, usable, find_from, rarest_step, rarest_from, first, sticky, choose, pick_for,
  or_new, pick_new, assign,
}

-- `shuffle` puts the same elements into another order.
pub record IsShuffle (shuffle : List ℕ → List ℕ) : Type 1 where
  pub size : (xs : List ℕ) → length (shuffle xs) ≡ length xs
  pub keeps : (P : ℕ → Type 0) (xs : List ℕ) → All P xs → All P (shuffle xs)

module _ (test : ℕ → Bool) (availability : List ℕ) where
  abbrev av : ℕ → ℕ
  av i = get_or availability i 0

  -- A tied piece passes the test and has the lowest availability.
  abbrev IsTied : ℕ → ℕ → ℕ → Type 0
  IsTied bound min_av i = (i < bound) × (test i ≡ true) × (av i ≡ min_av)

  -- The pass over the pieces below the bound: every piece that passes the test has at least the
  -- lowest availability, and without a tied piece none passed.
  abbrev IsPassed : ℕ → ℕ → List ℕ → Type 0
  IsPassed bound min_av ties =
      All (IsTied bound min_av) ties
      × ((j : ℕ) → j < bound → test j ≡ true → (min_av ≤ av j) × (0 < length ties))
      × ((0 < length ties) ⊎ (min_av ≡ max_u32))

  grow :
      (bound min_av : ℕ) (is_ : List ℕ)
      → All (IsTied bound min_av) is_
      → All (IsTied (bound + 1) min_av) is_
  grow bound min_av [] h = tt
  grow bound min_av (i ∷ is_) h = ((omega arith, h.0.1, h.0.2), grow bound min_av is_ h.1)

  abbrev IsPassedTo : ℕ → ℕ × List ℕ → Type 0
  IsPassedTo bound best = IsPassed bound best.0 best.1

  -- A piece that passes is one of those before or the new one.
  below_suc :
      (P : ℕ → Type 0) (bound : ℕ)
      → ((j : ℕ) → j < bound → P j)
      → P bound
      → (j : ℕ) → j < bound + 1
      → P j
  below_suc P bound before here j h = elim (Bool-cases (j == bound)) [
    | inl e ↦ subst P (sym ((==_iff j bound).0 e)) here
    | inr e ↦ before j (ground arith)
  ]

  rarest_step-IsPassed :
      (bound min_av : ℕ) (ties : List ℕ)
      → av bound ≤ max_u32
      → IsPassed bound min_av ties
      → IsPassedTo (bound + 1) (rarest_step test availability bound (min_av, ties))
  unfolding rarest_step
  rarest_step-IsPassed bound min_av ties small (tied, least, none_yet) =
      elim (Bool-cases (test bound)) [
        | inr fails ↦ rw fails (
          grow bound min_av ties tied,
          below_suc (λ j. test j ≡ true → (min_av ≤ av j) × (0 < length ties)) bound least
              (λ e. cc),
          none_yet,
        )
        | inl passes ↦ elim (Bool-cases (ltb (av bound) min_av)) [
          | inl lower ↦
              rw (passes, lower)
                (
                  ((omega arith, passes, refl), tt),
                  below_suc (λ j. test j ≡ true → (av bound ≤ av j) × (0 < 1)) bound
                      (λ j h e. let old = least j h e in (ground arith, omega arith))
                      (λ e. (omega arith, omega arith)),
                  inl (omega arith),
                )
          | inr not_lower ↦ elim (Bool-cases (av bound == min_av)) [
            | inl same ↦
                let size = length-append ties (bound ∷ []) in
                rw (passes, not_lower, same)
                  (
                    All-append (IsTied (bound + 1) min_av) ties (bound ∷ [])
                        (grow bound min_av ties tied)
                        ((omega arith, passes, (==_iff _ _).0 same), tt),
                    below_suc
                        (λ j. test j ≡ true → (min_av ≤ av j) × (0 < length (ties ++ bound ∷ [])))
                        bound (λ j h e. let old = least j h e in (old.0, omega (arith, size)))
                        (λ e. (ground arith, omega (arith, size))),
                    inl (omega (arith, size)),
                  )
            | inr higher ↦
                let some_tied : 0 < length ties = elim none_yet [
                  | inl h ↦ h
                  | inr at_max ↦ absurd (ground arith)
                ] in
                rw (passes, not_lower, higher)
                  (
                    grow bound min_av ties tied,
                    below_suc (λ j. test j ≡ true → (min_av ≤ av j) × (0 < length ties)) bound least
                        (λ e. (ground arith, some_tied)),
                    none_yet,
                  )
          ]
        ]
      ]

  rarest_from-IsPassed :
      (left bound n min_av : ℕ) (ties : List ℕ)
      → ((j : ℕ) → av j ≤ max_u32)
      → n ≡ bound + left
      → IsPassed bound min_av ties
      → IsPassedTo n (rarest_from left bound test availability (min_av, ties))
  unfolding rarest_from
  rarest_from-IsPassed zero bound n min_av ties small e v =
      subst (λ k. IsPassed k min_av ties) (let same : bound ≡ n = omega arith in same) v
  rarest_from-IsPassed (suc left) bound n min_av ties small e v =
      let next = rarest_step test availability bound (min_av, ties) in
      rarest_from-IsPassed left (bound + 1) n next.0 next.1 small (omega arith)
        (rarest_step-IsPassed bound min_av ties (small bound) v)

find_from_cases :
    (left i : ℕ) (test : ℕ → Bool)
    → ((find_from left i test ≡ none) × ((j : ℕ) → i ≤ j → j < i + left → test j ≡ false))
      ⊎ ((c : ℕ) × (find_from left i test ≡ some c)
          × (c < i + left)
          × (test c ≡ true)
          × ((j : ℕ) → i ≤ j → j < c → test j ≡ false))
unfolding find_from
find_from_cases zero i test = inl (refl, λ j h k. absurd (omega arith))
find_from_cases (suc left) i test = elim (Bool-cases (test i)) [
  | inl e ↦ inr (i, rw e refl, omega arith, e, λ j h k. absurd (omega arith))
  | inr e ↦ elim (find_from_cases left (i + 1) test) [
    | inl (f, all) ↦
        inl
          (rw e f, λ j h k. from_next (λ j. j < i + suc left) e j h k (λ g. all j g (omega arith)))
    | inr (c, f, lt, hit, before) ↦
        inr
          (c, rw e f, omega arith, hit, λ j h k. from_next (λ j. j < c) e j h k (λ g. before j g k))
  ]
]
  where
    from_next :
        (P : ℕ → Type 0)
        → test i ≡ false
        → (j : ℕ) → i ≤ j
        → P j
        → (i + 1 ≤ j → test j ≡ false)
        → test j ≡ false
    from_next P e j h k later = elim (Bool-cases (i == j)) [
      | inl same ↦ ap test (sym ((==_iff i j).0 same)) ∙ e
      | inr other ↦ later (ground arith)
    ]

first_cases :
    (xs : List ℕ)
    → ((first xs ≡ none) × (length xs ≡ 0))
      ⊎ ((c : ℕ) × (first xs ≡ some c) × ((P : ℕ → Type 0) → All P xs → P c))
unfolding first
first_cases [] = inl (refl, refl)
first_cases (x ∷ xs) = inr (x, refl, λ P h. h.0)

-- In order, no piece before c passes; otherwise, no piece that passes is rarer than c.
abbrev pub IsPreferred : Bool → (ℕ → Bool) → List ℕ → ℕ → ℕ → Type 0
IsPreferred true test availability n c = (j : ℕ) → j < c → test j ≡ false
IsPreferred false test availability n c =
    (j : ℕ) → j < n → test j ≡ true → get_or availability c 0 ≤ get_or availability j 0

-- The choice among n pieces: none passes, or a preferred one that passes.
abbrev pub IsBest : Bool → (ℕ → Bool) → List ℕ → ℕ → Option ℕ → Type 0
IsBest sequential test availability n none = (j : ℕ) → j < n → test j ≡ false
IsBest sequential test availability n (some c) =
    (c < n) × (test c ≡ true) × IsPreferred sequential test availability n c

module _ (shuffle : List ℕ → List ℕ) (shuffles : IsShuffle shuffle) where
  rarest-IsBest :
      (n : ℕ) (test : ℕ → Bool) (availability : List ℕ)
      → ((j : ℕ) → get_or availability j 0 ≤ max_u32)
      → IsBest false test availability n
          (first (shuffle (rarest_from n 0 test availability (max_u32, [])).1))
  rarest-IsBest n test availability small =
      let best = rarest_from n 0 test availability (max_u32, []) in
      let (tied, least, found) =
        rarest_from-IsPassed test availability n 0 n max_u32 [] small (omega arith)
          (tt, (λ j h e. absurd (omega arith)), inr refl) in
      let size = shuffles.size best.1 in
      elim (first_cases (shuffle best.1)) [
        | inl (e, empty) ↦ rw e (λ j h. elim (Bool-cases (test j)) [
          | inl passes ↦ let some_tied = (least j h passes).1 in absurd (omega arith)
          | inr fails ↦ fails
        ])
        | inr (c, e, head) ↦
            let (below, passes, lowest) =
              head (IsTied test availability n best.0)
                (shuffles.keeps (IsTied test availability n best.0) best.1 tied) in
            rw e (below, passes, λ j h p. let low = (least j h p).0 in omega arith)
      ]

  first-IsBest :
      (n : ℕ) (test : ℕ → Bool) (availability : List ℕ)
      → IsBest true test availability n (find_from n 0 test)
  first-IsBest n test availability = elim (find_from_cases n 0 test) [
    | inl (e, all) ↦ rw e (λ j h. all j (omega arith) (omega arith))
    | inr (c, e, lt, hit, before) ↦ rw e (omega arith, hit, λ j h. before j (omega arith) h)
  ]

  choose-IsBest :
      (p : Picker) (pm : PieceManager) (endgame : Bool) (bf : List Bool)
      → ((j : ℕ) → get_or p.availability j 0 ≤ max_u32)
      → IsBest p.sequential
          (usable p pm endgame bf)
          p.availability
          p.num_pieces
          (choose shuffle p pm endgame bf)
  unfolding choose
  choose-IsBest p pm endgame bf small = elim (Bool-cases p.sequential) [
    | inl in_order ↦ rw in_order (first-IsBest p.num_pieces (usable p pm endgame bf) p.availability)
    | inr rarest ↦
        rw rarest (rarest-IsBest p.num_pieces (usable p pm endgame bf) p.availability small)
  ]

  -- When `shuffle` keeps the elements and the counts are of 32 bits, a peer whose bitfield is known
  -- and that has no piece assigned still to fetch is given a usable piece, one of the rarest or in
  -- sequential mode the first, and that one is then assigned to it; or no piece is usable, and
  -- the picker is as before.
  pub pick_for_lem :
      (p : Picker) (addr : ℕ) (pm : PieceManager) (endgame : Bool) (bf : List Bool)
      → lookup addr p.peer_bitfields ≡ some bf
      → sticky pm (lookup addr p.assigned) ≡ none
      → ((j : ℕ) → get_or p.availability j 0 ≤ max_u32)
      → let r = pick_for shuffle p addr pm endgame in
        IsBest p.sequential (usable p pm endgame bf) p.availability p.num_pieces r.1
        × (((r.1 ≡ none) × (r.0 ≡ p)) ⊎ (lookup addr r.0.assigned ≡ r.1))
  unfolding pick_for or_new pick_new assign lookup insert
  pick_for_lem p addr pm endgame bf known free small =
      let best = choose-IsBest p pm endgame bf small in
      rw (free, known)
        (elim (Option-cases (choose shuffle p pm endgame bf)) [
          | inl e ↦ rw e ((rw e at best), inl (refl, refl))
          | inr (c, e) ↦
              let hit : (addr == addr) ≡ true = ground arith in
              rw e ((rw e at best), inr (rw hit refl))
        ])
