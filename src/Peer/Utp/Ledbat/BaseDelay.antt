-- ===== src/Peer/Utp/Ledbat/BaseDelay.antt =====
-- src/peer/utp/connection.rs: what `Ledbat::update_base` computes.
use rustytorrent.Base.{
  ℕ, zero, suc, ◌-◌, ◌/◌, ◌^◌, ◌<◌, ◌≤◌, min, max, ◌≡◌, ◌≢◌, refl, ap, ◌⊎◌, inl, inr, List, [], ◌∷◌,
  Option, none, some, arith, ltb, leb, ltb→lt, if◌then◌else◌, length, length-append, drop,
  length-drop, of_if, Option-cases,
}
use rustytorrent.Peer.Utp.Ledbat.{
  Ledbat, push_back, fold_newest, open_slots, minimum, unwrap_or, floor_of, slots_passed,
  slots_after, update_base, base_delay_slot, base_delay_slots,
}

-- Some slot holds at most `s`.
abbrev HasAtMost : ℕ → List ℕ → Type 0
HasAtMost s [] = ⊥
HasAtMost s (x ∷ xs) = (x ≤ s) ⊎ HasAtMost s xs

-- A history after a sample: a slot of at most the sample, and no more slots than are kept.
abbrev IsHistory : ℕ → List ℕ → Type 0
IsHistory s xs = HasAtMost s xs × (length xs ≤ base_delay_slots)

push_back-HasAtMost : (s : ℕ) (xs : List ℕ) → HasAtMost s (push_back xs s)
unfolding push_back
push_back-HasAtMost s [] = inl (omega arith)
push_back-HasAtMost s (x ∷ xs) = inr (push_back-HasAtMost s xs)

drop-HasAtMost :
    (s : ℕ) (xs : List ℕ) → 1 < length (push_back xs s) → HasAtMost s (drop 1 (push_back xs s))
unfolding push_back
drop-HasAtMost s [] h = absurd (omega arith)
drop-HasAtMost s (x ∷ xs) h = push_back-HasAtMost s xs

length-push_back : (s : ℕ) (xs : List ℕ) → length (push_back xs s) ≡ suc (length xs)
unfolding push_back
length-push_back s xs = omega (arith, length-append xs (s ∷ []))

push_slot-IsHistory :
    (s : ℕ) (xs : List ℕ)
    → length xs ≤ base_delay_slots
    → let pushed = push_back xs s in
      IsHistory s (if ltb base_delay_slots (length pushed) then drop 1 pushed else pushed)
push_slot-IsHistory s xs h =
    let pushed = push_back xs s in
    let n = length-push_back s xs in
    of_if (IsHistory s) (ltb base_delay_slots (length pushed)) (drop 1 pushed) pushed
      (λ long.
        let more = ltb→lt _ _ long in
        (drop-HasAtMost s xs (omega arith), omega (arith, length-drop 1 pushed)))
      (λ short. (push_back-HasAtMost s xs, ground arith))

open_slots-IsHistory :
    (n s : ℕ) (xs : List ℕ) → length xs ≤ base_delay_slots → 0 < n → IsHistory s (open_slots n xs s)
unfolding open_slots
open_slots-IsHistory zero s xs h p = absurd (omega arith)
open_slots-IsHistory (suc zero) s xs h p = push_slot-IsHistory s xs h
open_slots-IsHistory (suc (suc n)) s xs h p =
    open_slots-IsHistory (suc n) s _ (push_slot-IsHistory s xs h).1 (omega arith)

fold_newest-IsHistory :
    (s : ℕ) (xs : List ℕ) → length xs ≤ base_delay_slots → IsHistory s (fold_newest xs s)
unfolding fold_newest
fold_newest-IsHistory s [] h = (inl (omega arith), omega arith)
fold_newest-IsHistory s (x ∷ xs) h = (holds x xs, omega (arith, same x xs))
  where
    holds : (x : ℕ) (xs : List ℕ) → HasAtMost s (fold_newest (x ∷ xs) s)
    holds x [] = inl (omega arith)
    holds x (y ∷ ys) = inr (holds y ys)

    same : (x : ℕ) (xs : List ℕ) → length (fold_newest (x ∷ xs) s) ≡ suc (length xs)
    same x [] = refl
    same x (y ∷ ys) = ap suc (same y ys)

slots_after-IsHistory :
    (start : Option ℕ) (xs : List ℕ) (s now : ℕ)
    → length xs ≤ base_delay_slots
    → (start ≡ none → length xs ≡ 0)
    → IsHistory s (slots_after start xs s now).0 × ((slots_after start xs s now).1 ≢ none)
unfolding slots_after slots_passed
slots_after-IsHistory none xs s now h first =
    ((push_back-HasAtMost s xs, omega (arith, first refl, length-push_back s xs)), λ e. cc)
slots_after-IsHistory (some start) xs s now h first =
    of_if {A = List ℕ × Option ℕ} (λ r. IsHistory s r.0 × (r.1 ≢ none))
      (leb base_delay_slot (now - start)) _ _
      (λ _.
        (open_slots-IsHistory (max ((now - start) / 10 ^ 9 / 60) 1) s xs h (omega arith), λ e. cc))
      (λ _. (fold_newest-IsHistory s xs h, λ e. cc))

minimum_le : (s : ℕ) (xs : List ℕ) → HasAtMost s xs → (m : ℕ) × (minimum xs ≡ some m) × (m ≤ s)
unfolding minimum
minimum_le s [] h = absurd h
minimum_le s (x ∷ xs) (inl le) = elim (Option-cases (minimum xs)) [
  | inl e ↦ (x, rw (minimum, e) refl, le)
  | inr (m, e) ↦ (min x m, rw (minimum, e) refl, omega arith)
]
minimum_le s (x ∷ xs) (inr later) =
    let (m, e, le) = minimum_le s xs later in (min x m, rw (minimum, e) refl, omega arith)

floor_of_le : (o : Option ℕ) (s : ℕ) → floor_of o s ≤ s
unfolding floor_of
floor_of_le none s = omega arith
floor_of_le (some f) s = omega arith

module _ {F : Type 0} where
  -- No more slots than are kept, and none before the first sample.
  abbrev pub HasSlots : Ledbat F → Type 0
  HasSlots cc =
      (length cc.base_history ≤ base_delay_slots)
      × (cc.cur_slot_start ≡ none → length cc.base_history ≡ 0)

  -- The base delay lies between the smallest sample ever seen and this one, so the queuing delay,
  -- their difference, is not cut off; and the history stays within 13 slots.
  pub update_base_lem :
      (cc : Ledbat F) (sample now : ℕ)
      → HasSlots cc
      → let r = update_base cc sample now in
        HasSlots r.0
        × (r.1 ≤ sample)
        × (floor : ℕ) × ((r.0).fixed_floor ≡ some floor)
        × (floor ≤ r.1)
        × (floor ≤ sample)
  unfolding update_base unwrap_or
  update_base_lem cc sample now h =
      let slots = slots_after-IsHistory cc.cur_slot_start cc.base_history sample now h.0 h.1 in
      let (m, e, le) = minimum_le sample _ slots.0.0 in
      let floor = floor_of_le cc.fixed_floor sample in
      (
        (slots.0.1, λ none_yet. absurd (slots.1 none_yet)),
        rw e (omega arith),
        floor_of cc.fixed_floor sample,
        refl,
        omega arith,
        floor,
      )
