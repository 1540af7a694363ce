-- ===== src/Base/Tests.antt =====
-- Boolean tests on the native numbers, and the conditional.
use Prim.Native.Nat.{ℕ, ◌≤◌, ◌<◌, compare, Ordering}
use mathlib.Core.Path.{◌≡◌, refl}
use mathlib.Core.Logic.{◌↔◌, ◌⊎◌, inl, inr}
use mathlib.Core.Bool.{Bool, true, false, not}
use mathlib.Core.Option.{Option, none, some}
use mathlib.Core.List.{List, [], ◌∷◌}
use native.Mathlib.Omega.{arith}

abbrev pub ltb : ℕ → ℕ → Bool
ltb a b = elim (compare a b) [ Ordering.lt ↦ true | _ ↦ false ]

abbrev pub leb : ℕ → ℕ → Bool
leb a b = elim (compare a b) [ Ordering.gt ↦ false | _ ↦ true ]

infix 50 ◌==◌ ◌!=◌
abbrev pub ◌==◌ : ℕ → ℕ → Bool
a == b = elim (compare a b) [ Ordering.eq ↦ true | _ ↦ false ]

abbrev pub ◌!=◌ : ℕ → ℕ → Bool
a != b = not (a == b)

infix 1 if◌then◌else◌
abbrev pub if◌then◌else◌ {ℓ} : {A : Type ℓ} → Bool → A → A → A
if true then x else y = x
if false then x else y = y

pub ltb→lt : (a b : ℕ) → ltb a b ≡ true → a < b
ltb→lt a b h = ground arith

pub lt→ltb : (a b : ℕ) → a < b → ltb a b ≡ true
lt→ltb a b h = ground arith

pub leb→le : (a b : ℕ) → leb a b ≡ true → a ≤ b
leb→le a b h = ground arith

pub ==_iff : (a b : ℕ) → ((a == b) ≡ true) ↔ (a ≡ b)
==_iff a b = ground arith

pub Bool-cases : (b : Bool) → (b ≡ true) ⊎ (b ≡ false)
Bool-cases true = inl refl
Bool-cases false = inr refl

pub Option-cases {ℓ} : {A : Type ℓ} (o : Option A) → (o ≡ none) ⊎ ((a : A) × (o ≡ some a))
Option-cases none = inl refl
Option-cases (some a) = inr (a, refl)

-- A property of both branches, under the equation that leads to each, holds of the choice.
pub of_test {ℓ κ} :
    {A : Type κ} (P : A → Type ℓ) (test : Bool) (a b : A)
    → (test ≡ true → P a)
    → (test ≡ false → P b)
    → P (elim test [ true ↦ a | false ↦ b ])
of_test P true a b pa pb = pa refl
of_test P false a b pa pb = pb refl

pub of_if {ℓ κ} :
    {A : Type κ} (P : A → Type ℓ) (test : Bool) (a b : A)
    → (test ≡ true → P a)
    → (test ≡ false → P b)
    → P (if test then a else b)
of_if P true a b pa pb = pa refl
of_if P false a b pa pb = pb refl

pub of_option {ℓ κ μ} :
    {A : Type κ} {B : Type μ} (P : A → Type ℓ) (o : Option B) (a : A) (f : B → A)
    → (o ≡ none → P a)
    → ((b : B) → o ≡ some b → P (f b))
    → P (elim o [ none ↦ a | some b ↦ f b ])
of_option P none a f pa pf = pa refl
of_option P (some b) a f pa pf = pf b refl

pub of_list {ℓ κ μ} :
    {A : Type κ} {B : Type μ} (P : A → Type ℓ) (xs : List B) (a : A) (f : B → List B → A)
    → (xs ≡ [] → P a)
    → ((b : B) (bs : List B) → xs ≡ b ∷ bs → P (f b bs))
    → P (elim xs [ [] ↦ a | b ∷ bs ↦ f b bs ])
of_list P [] a f pa pf = pa refl
of_list P (b ∷ bs) a f pa pf = pf b bs refl
