-- ===== src/Scheduler/Choke/Slots.antt =====
-- src/scheduler/choke.rs: the regular slots go to the fastest peers, and there are four in all.
use mathlib.Core.List.{Perm}
use mathlib.Core.List.Perm
use rustytorrent.Base.{
  ℕ, zero, suc, ◌≤◌, ◌≡◌, refl, ap, inl, inr, Bool-cases, Option, none, some, List, [], ◌∷◌, ◌++◌,
  arith, leb, leb→le, length, length-append, length-take, take, drop, take-append-drop, All,
}
use rustytorrent.Scheduler.Choke.{
  ChokeScheduler, contains, eligible, insert_ranked, rank, addresses, regular, with_optimistic,
  chosen_by, regular_unchoke_slots,
}

-- The peer is at least as fast as each of the list.
abbrev pub IsFastest : ℕ × ℕ → List (ℕ × ℕ) → Type 0
IsFastest e = All (λ d. d.1 ≤ e.1)

abbrev pub IsRanked : List (ℕ × ℕ) → Type 0
IsRanked [] = Unit
IsRanked (e ∷ es) = IsFastest e es × IsRanked es

IsFastest-trans : (e d : ℕ × ℕ) (es : List (ℕ × ℕ)) → d.1 ≤ e.1 → IsFastest d es → IsFastest e es
IsFastest-trans e d [] h f = tt
IsFastest-trans e d (x ∷ es) h f = (omega (arith, f.0), IsFastest-trans e d es h f.1)

insert_ranked-IsFastest :
    (b e : ℕ × ℕ) (es : List (ℕ × ℕ))
    → e.1 ≤ b.1
    → IsFastest b es
    → IsFastest b (insert_ranked e es)
unfolding insert_ranked
insert_ranked-IsFastest b e [] h f = (h, tt)
insert_ranked-IsFastest b e (d ∷ es) h f = elim (Bool-cases (leb d.1 e.1)) [
  | inl before ↦ rw before (h, f)
  | inr behind ↦ rw behind (f.0, insert_ranked-IsFastest b e es h f.1)
]

insert_ranked-IsRanked :
    (e : ℕ × ℕ) (es : List (ℕ × ℕ)) → IsRanked es → IsRanked (insert_ranked e es)
unfolding insert_ranked
insert_ranked-IsRanked e [] r = (tt, tt)
insert_ranked-IsRanked e (d ∷ es) r = elim (Bool-cases (leb d.1 e.1)) [
  | inl before ↦
      let faster : d.1 ≤ e.1 = leb→le d.1 e.1 before in
      rw before ((faster, IsFastest-trans e d es faster r.0), r)
  | inr behind ↦
      rw behind (insert_ranked-IsFastest d e es (ground arith) r.0, insert_ranked-IsRanked e es r.1)
]

insert_ranked-perm : (e : ℕ × ℕ) (es : List (ℕ × ℕ)) → Perm (insert_ranked e es) (e ∷ es)
unfolding insert_ranked
insert_ranked-perm e [] = Perm.rfl
insert_ranked-perm e (d ∷ es) = elim (Bool-cases (leb d.1 e.1)) [
  | inl before ↦ rw before Perm.rfl
  | inr behind ↦ rw behind (Perm.trans (Perm.cons d (insert_ranked-perm e es)) (Perm.swap e d es))
]

rank-IsRanked : (es : List (ℕ × ℕ)) → IsRanked (rank es)
unfolding rank
rank-IsRanked [] = tt
rank-IsRanked (e ∷ es) = insert_ranked-IsRanked e (rank es) (rank-IsRanked es)

rank-perm : (es : List (ℕ × ℕ)) → Perm (rank es) es
unfolding rank
rank-perm [] = Perm.rfl
rank-perm (e ∷ es) = Perm.trans (insert_ranked-perm e (rank es)) (Perm.cons e (rank-perm es))

drop-IsFastest : (n : ℕ) (e : ℕ × ℕ) (es : List (ℕ × ℕ)) → IsFastest e es → IsFastest e (drop n es)
drop-IsFastest zero e es f = f
drop-IsFastest (suc n) e [] f = tt
drop-IsFastest (suc n) e (d ∷ es) f = drop-IsFastest n e es f.1

take-IsFastest :
    (n : ℕ) (es : List (ℕ × ℕ)) → IsRanked es → All (λ e. IsFastest e (drop n es)) (take n es)
take-IsFastest zero es r = tt
take-IsFastest (suc n) [] r = tt
take-IsFastest (suc n) (e ∷ es) r = (drop-IsFastest n e es r.0, take-IsFastest n es r.1)

-- The regular slots go to eligible peers, with the ones left out all of them; and no peer left out
-- has a higher rate than one with a slot.
pub regular_lem :
    (s : ChokeScheduler) (now : ℕ) (candidates : List ℕ)
    → (left_out : List (ℕ × ℕ)) × Perm
        (regular s now candidates ++ left_out)
        (eligible s now candidates)
      × All (λ e. IsFastest e left_out) (regular s now candidates)
unfolding regular
regular_lem s now candidates =
    let ranked = rank (eligible s now candidates) in
    (
      drop regular_unchoke_slots ranked,
      rw (take-append-drop regular_unchoke_slots ranked) (rank-perm (eligible s now candidates)),
      take-IsFastest regular_unchoke_slots ranked (rank-IsRanked (eligible s now candidates)),
    )

length-addresses : (es : List (ℕ × ℕ)) → length (addresses es) ≡ length es
unfolding addresses
length-addresses [] = refl
length-addresses ((a, r) ∷ es) = ap suc (length-addresses es)

extra :
    (chosen : List ℕ) (opt : Option ℕ) → length chosen ≤ 3 → length (with_optimistic chosen opt) ≤ 4
unfolding with_optimistic
extra chosen none h = omega arith
extra chosen (some a) h =
    let size = length-append chosen (a ∷ []) in
    elim (Bool-cases (contains chosen a)) [
      | inl there ↦ rw there (omega arith)
      | inr new_one ↦ rw new_one (omega (arith, size))
    ]

-- No more than four peers are chosen at a time.
pub chosen_by_bound :
    (s : ChokeScheduler) (now : ℕ) (candidates : List ℕ) → length (chosen_by s now candidates) ≤ 4
unfolding chosen_by regular
chosen_by_bound s now candidates =
    let slots = regular s now candidates in
    let few = length-take regular_unchoke_slots (rank (eligible s now candidates)) in
    let named = length-addresses (take regular_unchoke_slots (rank (eligible s now candidates))) in
    extra (addresses (take regular_unchoke_slots (rank (eligible s now candidates)))) s.optimistic
      (omega (arith, few, named))
