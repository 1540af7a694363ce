-- ===== src/Base/Outcome.antt =====
-- `crate::error` (src/error.rs): the error kinds, without their texts, and `Result` with its `?`.
use Prim.Native.Nat.{ℕ}
use mathlib.Core.Path.{◌≡◌, refl}
use mathlib.Core.Option.{Option, none, some}
use mathlib.Core.Logic.{◌⊎◌, inl, inr}

-- The constructors keep the source's names; the message of each is left out, but for the index.
-- `panicked` is no error of the source: it stands for the panic of an overflow check.
pub data Error : Type 0 where
  bencode tracker handshake io network protocol crypto panicked : Error
  verify_failed : ℕ → Error

pub data Result {ℓ} (A : Type ℓ) : Type ℓ where
  ok : A → Result A
  err : Error → Result A

infixl 5 ◌>>=◌ ◌>>◌
abbrev pub ◌>>=◌ {ℓ κ} : {A : Type ℓ} {B : Type κ} → Result A → (A → Result B) → Result B
ok a >>= f = f a
err e >>= f = err e

abbrev pub ◌>>◌ {ℓ κ} : {A : Type κ} {B : Type ℓ} → Result A → Result B → Result B
m >> k = m >>= λ _. k

-- `ok_or_else`, and `map_err` to one error.
unfoldable pub found_or {ℓ} : {A : Type ℓ} → Error → Option A → Result A
found_or e none = err e
found_or e (some a) = ok a

unfoldable pub to_err {ℓ} : {A : Type ℓ} → Error → Result A → Result A
to_err e (ok a) = ok a
to_err e (err _) = err e

pub Result-cases {ℓ} :
    {A : Type ℓ} (r : Result A) → ((a : A) × (r ≡ ok a)) ⊎ ((e : Error) × (r ≡ err e))
Result-cases (ok a) = inl (a, refl)
Result-cases (err e) = inr (e, refl)

-- The property holds of the result, if there is one.
abbrev pub Holds {ℓ κ} : {A : Type ℓ} → (A → Type κ) → Result A → Type κ
Holds P (ok a) = P a
Holds P (err e) = Unit

pub Holds-bind {ℓ κ μ} :
    {A : Type ℓ} {B : Type κ} (Q : A → Type μ) (P : B → Type μ) (r : Result A) (k : A → Result B)
    → Holds Q r
    → ((a : A) → Q a → Holds P (k a))
    → Holds P (r >>= k)
Holds-bind Q P (ok a) k h next = next a h
Holds-bind Q P (err e) k h next = tt

-- Nothing need be known of what came before.
pub Holds-after {ℓ κ μ} :
    {A : Type ℓ} {B : Type κ} (P : B → Type μ) (r : Result A) (k : A → Result B)
    → ((a : A) → Holds P (k a))
    → Holds P (r >>= k)
Holds-after P (ok a) k next = next a
Holds-after P (err e) k next = tt

pub Holds-self {ℓ} : {A : Type ℓ} (r : Result A) → Holds (λ a. r ≡ ok a) r
Holds-self (ok a) = refl
Holds-self (err e) = tt
