-- ===== src/Scheduler/Choke/Settle.antt =====
-- src/scheduler/choke.rs: a tick unchokes exactly the chosen peers, and reports exactly the changes.
use rustytorrent.Base.{
  ℕ, ◌≡◌, ◌≢◌, refl, ap, subst, ◌∙◌, inl, inr, Bool-cases, Bool, true, false, not, ◌&&◌, Option,
  some, List, [], ◌∷◌, arith, ◌==◌, ==_iff, All, if◌then◌else◌,
}
use rustytorrent.Base.Maps.{Map, lookup, remove, insert}
use rustytorrent.Scheduler.Choke.{
  ChokeScheduler, contains, is_unchoked, settle, rotate, chosen_by, tick,
}

abbrev pub unchoked_in : Map Bool → ℕ → Bool
unchoked_in m a = is_unchoked (lookup a m)

lookup-remove_ne : (k i : ℕ) (m : Map Bool) → k ≢ i → lookup i (remove k m) ≡ lookup i m
unfolding lookup remove
lookup-remove_ne k i [] n = refl
lookup-remove_ne k i ((j, b) ∷ m) n = elim (Bool-cases (j == k)) [
  | inl hit ↦
      let other : (j == i) ≡ false = ground arith in rw (hit, other) (lookup-remove_ne k i m n)
  | inr miss ↦ rw (miss, lookup-remove_ne k i m n) refl
]

lookup-insert_self : (k : ℕ) (b : Bool) (m : Map Bool) → lookup k (insert k b m) ≡ some b
unfolding lookup insert
lookup-insert_self k b m = let hit : (k == k) ≡ true = ground arith in rw hit refl

lookup-insert_ne :
    (k i : ℕ) (b : Bool) (m : Map Bool) → k ≢ i → lookup i (insert k b m) ≡ lookup i m
unfolding lookup insert
lookup-insert_ne k i b m n =
    let other : (k == i) ≡ false = ground arith in rw other (lookup-remove_ne k i m n)

-- The map behind one candidate.
abbrev turned : Bool → ℕ → Map Bool → Map Bool
turned want a m =
    if want && not (unchoked_in m a)
    then insert a true m
    else if not want && unchoked_in m a
    then insert a false m
    else m

turned_self : (want : Bool) (a : ℕ) (m : Map Bool) → unchoked_in (turned want a m) a ≡ want
unfolding is_unchoked
turned_self true a m = elim (Bool-cases (unchoked_in m a)) [
  | inl have ↦ rw have have
  | inr choked ↦ rw choked (ap is_unchoked (lookup-insert_self a true m))
]
turned_self false a m = elim (Bool-cases (unchoked_in m a)) [
  | inl have ↦ rw have (ap is_unchoked (lookup-insert_self a false m))
  | inr choked ↦ rw choked choked
]

turned_ne :
    (want : Bool) (a i : ℕ) (m : Map Bool)
    → a ≢ i
    → unchoked_in (turned want a m) i ≡ unchoked_in m i
turned_ne true a i m n = elim (Bool-cases (unchoked_in m a)) [
  | inl have ↦ rw have refl
  | inr choked ↦ rw choked (ap is_unchoked (lookup-insert_ne a i true m n))
]
turned_ne false a i m n = elim (Bool-cases (unchoked_in m a)) [
  | inl have ↦ rw have (ap is_unchoked (lookup-insert_ne a i false m n))
  | inr choked ↦ rw choked refl
]

settle_outside :
    (chosen as_ : List ℕ) (m : Map Bool) (i : ℕ)
    → contains as_ i ≡ false
    → unchoked_in (settle chosen as_ m).unchoked i ≡ unchoked_in m i
unfolding settle contains
settle_outside chosen [] m i e = refl
settle_outside chosen (a ∷ as_) m i e = elim (Bool-cases (a == i)) [
  | inl hit ↦ let bad = rw hit at e in cc
  | inr miss ↦
      settle_outside chosen as_ (turned (contains chosen a) a m) i (rw miss at e)
      ∙ turned_ne (contains chosen a) a i m (ground arith)
]

settle_inside :
    (chosen as_ : List ℕ) (m : Map Bool) (i : ℕ)
    → contains as_ i ≡ true
    → unchoked_in (settle chosen as_ m).unchoked i ≡ contains chosen i
unfolding settle contains
settle_inside chosen [] m i e = cc
settle_inside chosen (a ∷ as_) m i e = elim (Bool-cases (contains as_ i)) [
  | inl later ↦ settle_inside chosen as_ (turned (contains chosen a) a m) i later
  | inr once ↦ elim (Bool-cases (a == i)) [
    | inl hit ↦
        let same : a ≡ i = (==_iff a i).0 hit in
        settle_outside chosen as_ (turned (contains chosen a) a m) i once
        ∙ subst (λ j. unchoked_in (turned (contains chosen a) a m) j ≡ contains chosen j) same
            (turned_self (contains chosen a) a m)
    | inr miss ↦ let bad = rw (miss, once) at e in cc
  ]
]

rotate_keeps :
    (choose : List ℕ → Option ℕ) (s : ChokeScheduler) (now : ℕ) (candidates : List ℕ)
    → (rotate choose s now candidates).unchoked ≡ s.unchoked
unfolding rotate
rotate_keeps choose s now candidates = ground arith

-- After a tick a candidate is unchoked exactly if it was chosen, and any other peer is as it was.
pub tick_settles :
    (choose : List ℕ → Option ℕ) (s : ChokeScheduler) (now : ℕ) (candidates : List ℕ) (i : ℕ)
    → unchoked_in (tick choose s now candidates).0.unchoked i ≡ (
        if contains candidates i
        then contains (chosen_by (rotate choose s now candidates) now candidates) i
        else unchoked_in s.unchoked i)
unfolding tick
tick_settles choose s now candidates i =
    let s' = rotate choose s now candidates in
    let chosen = chosen_by s' now candidates in
    elim (Bool-cases (contains candidates i)) [
      | inl inside ↦ rw inside (settle_inside chosen candidates s'.unchoked i inside)
      | inr outside ↦ rw outside (
          settle_outside chosen candidates s'.unchoked i outside
          ∙ ap (λ m. unchoked_in m i) (rotate_keeps choose s now candidates))
    ]

abbrev pub AreDistinct : List ℕ → Type 0
AreDistinct [] = Unit
AreDistinct (a ∷ as_) = All (λ x. a ≢ x) as_ × AreDistinct as_

abbrev pub picked : (ℕ → Bool) → List ℕ → List ℕ
picked p [] = []
picked p (a ∷ as_) = if p a then a ∷ picked p as_ else picked p as_

picked_ext :
    (p q : ℕ → Bool) (a : ℕ) (as_ : List ℕ)
    → ((x : ℕ) → a ≢ x → p x ≡ q x)
    → All (λ x. a ≢ x) as_
    → picked p as_ ≡ picked q as_
picked_ext p q a [] same d = refl
picked_ext p q a (x ∷ as_) same d =
    let rest = picked_ext p q a as_ same d.1 in
    let here = same x d.0 in
    elim (Bool-cases (q x)) [ inl e ↦ rw (here, e) (ap (◌∷◌ x) rest) | inr e ↦ rw (here, e) rest ]

abbrev pub starts : List ℕ → Map Bool → ℕ → Bool
starts chosen m a = contains chosen a && not (unchoked_in m a)

abbrev pub stops : List ℕ → Map Bool → ℕ → Bool
stops chosen m a = not (contains chosen a) && unchoked_in m a

settle_decisions :
    (chosen as_ : List ℕ) (m : Map Bool)
    → AreDistinct as_
    → ((settle chosen as_ m).to_unchoke ≡ picked (starts chosen m) as_)
      × ((settle chosen as_ m).to_choke ≡ picked (stops chosen m) as_)
unfolding settle
settle_decisions chosen [] m d = (refl, refl)
settle_decisions chosen (a ∷ as_) m d =
    let m' = turned (contains chosen a) a m in
    let rest = settle_decisions chosen as_ m' d.1 in
    let kept : (x : ℕ) → a ≢ x → unchoked_in m' x ≡ unchoked_in m x =
      λ x n. turned_ne (contains chosen a) a x m n in
    let up =
      rest.0
      ∙ picked_ext (starts chosen m') (starts chosen m) a as_
          (λ x n. ap (λ b. contains chosen x && not b) (kept x n)) d.0 in
    let down =
      rest.1
      ∙ picked_ext (stops chosen m') (stops chosen m) a as_
          (λ x n. ap (λ b. not (contains chosen x) && b) (kept x n)) d.0 in
    (
      ap (λ l. if starts chosen m a then a ∷ l else l) up ∙ out (starts chosen m) a as_,
      ap (λ l. if stops chosen m a then a ∷ l else l) down ∙ out (stops chosen m) a as_,
    )
  where
    out :
        (p : ℕ → Bool) (a : ℕ) (as_ : List ℕ)
        → (if p a then a ∷ picked p as_ else picked p as_) ≡ picked p (a ∷ as_)
    out p a as_ = refl

-- The decision of a tick over distinct candidates names, in their order, the chosen ones that were
-- choked and the unchoked ones that were not chosen.
pub tick_decides :
    (choose : List ℕ → Option ℕ) (s : ChokeScheduler) (now : ℕ) (candidates : List ℕ)
    → AreDistinct candidates
    → let r = tick choose s now candidates in
      let chosen = chosen_by (rotate choose s now candidates) now candidates in
      (r.1.to_unchoke ≡ picked (starts chosen s.unchoked) candidates)
      × (r.1.to_choke ≡ picked (stops chosen s.unchoked) candidates)
unfolding tick
tick_decides choose s now candidates d =
    let s' = rotate choose s now candidates in
    let chosen = chosen_by s' now candidates in
    let settled = settle_decisions chosen candidates s'.unchoked d in
    let same = rotate_keeps choose s now candidates in
    (
      settled.0 ∙ ap (λ m. picked (starts chosen m) candidates) same,
      settled.1 ∙ ap (λ m. picked (stops chosen m) candidates) same,
    )
