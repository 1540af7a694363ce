-- ===== src/Base/Maps.antt =====
-- `HashMap` with numbers as keys: an association list with each key once. The order in which the
-- source would iterate is not modelled.
use Prim.Native.Nat.{ℕ}
use mathlib.Core.Path.{◌≡◌, refl}
use mathlib.Core.Logic.{◌≢◌, inl, inr}
use mathlib.Core.Bool.{false}
use mathlib.Core.Option.{Option, none, some}
use mathlib.Core.List.{List, [], ◌∷◌}
use native.Mathlib.Omega.{arith}
use rustytorrent.Base.Tests.{◌==◌, if◌then◌else◌, Bool-cases}
use rustytorrent.Base.Lists.{All}

abbrev pub Map : Type 0 → Type 0
Map A = List (ℕ × A)

module _ {A : Type 0} where
  unfoldable pub lookup : ℕ → Map A → Option A
  lookup k [] = none
  lookup k ((j, a) ∷ m) = let rest = lookup k m in if j == k then some a else rest

  unfoldable pub remove : ℕ → Map A → Map A
  remove k [] = []
  remove k ((j, a) ∷ m) = let rest = remove k m in if j == k then rest else (j, a) ∷ rest

  unfoldable pub insert : ℕ → A → Map A → Map A
  unfolding remove
  insert k a m = (k, a) ∷ remove k m

  -- No entry of the map has the key.
  abbrev pub Lacks : ℕ → Map A → Type 0
  Lacks k = All (λ e. e.0 ≢ k)

  abbrev pub HasDistinctKeys : Map A → Type 0
  HasDistinctKeys [] = Unit
  HasDistinctKeys ((j, a) ∷ m) = Lacks j m × HasDistinctKeys m

  pub remove-Lacks : (k : ℕ) (m : Map A) → Lacks k (remove k m)
  unfolding remove
  remove-Lacks k [] = tt
  remove-Lacks k ((j, a) ∷ m) = elim (Bool-cases (j == k)) [
    | inl hit ↦ rw hit (remove-Lacks k m)
    | inr miss ↦ rw miss ((λ e. ground arith), remove-Lacks k m)
  ]

  pub remove-Lacks_other : (k i : ℕ) (m : Map A) → Lacks i m → Lacks i (remove k m)
  unfolding remove
  remove-Lacks_other k i [] h = tt
  remove-Lacks_other k i ((j, a) ∷ m) h = elim (Bool-cases (j == k)) [
    | inl hit ↦ rw hit (remove-Lacks_other k i m h.1)
    | inr miss ↦ rw miss (h.0, remove-Lacks_other k i m h.1)
  ]

  pub remove-HasDistinctKeys :
      (k : ℕ) (m : Map A) → HasDistinctKeys m → HasDistinctKeys (remove k m)
  unfolding remove
  remove-HasDistinctKeys k [] h = tt
  remove-HasDistinctKeys k ((j, a) ∷ m) h = elim (Bool-cases (j == k)) [
    | inl hit ↦ rw hit (remove-HasDistinctKeys k m h.1)
    | inr miss ↦ rw miss (remove-Lacks_other k j m h.0, remove-HasDistinctKeys k m h.1)
  ]

  pub insert-HasDistinctKeys :
      (k : ℕ) (a : A) (m : Map A) → HasDistinctKeys m → HasDistinctKeys (insert k a m)
  unfolding insert
  insert-HasDistinctKeys k a m h = (remove-Lacks k m, remove-HasDistinctKeys k m h)

  pub remove_absent : (k : ℕ) (m : Map A) → Lacks k m → remove k m ≡ m
  unfolding remove
  remove_absent k [] h = refl
  remove_absent k ((j, a) ∷ m) h =
      let miss : (j == k) ≡ false = ground arith in rw (miss, remove_absent k m h.1) refl

  pub Lacks-of_lookup : (k : ℕ) (m : Map A) → lookup k m ≡ none → Lacks k m
  unfolding lookup
  Lacks-of_lookup k [] e = tt
  Lacks-of_lookup k ((j, a) ∷ m) e = elim (Bool-cases (j == k)) [
    | inl hit ↦ let no_entry = rw hit at e in cc
    | inr miss ↦ ((λ s. ground arith), Lacks-of_lookup k m (rw miss at e))
  ]
