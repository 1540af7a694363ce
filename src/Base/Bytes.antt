-- ===== src/Base/Bytes.antt =====
-- Bytes as natural numbers below 256, and Rust's `to_be_bytes` and `from_be_bytes`.
use Prim.Native.Nat.{ℕ, ◌+◌, ◌*◌, ◌/◌, ◌%◌, ◌^◌, ◌<◌}
use mathlib.Core.Path.{◌≡◌, refl}
use mathlib.Core.Bool.{Bool, true, false, ◌&&◌}
use rustytorrent.Base.Tests.{◌==◌}
use mathlib.Core.List.{List, [], ◌∷◌}
use native.Mathlib.Omega.{arith}
use rustytorrent.Base.Lists.{All, get_or}

abbrev pub IsByte : ℕ → Type 0
IsByte b = b < 256

abbrev pub AreBytes : List ℕ → Type 0
AreBytes = All IsByte

-- `u16::to_be_bytes`, `u32::to_be_bytes`.
abbrev pub be16 : ℕ → List ℕ
be16 n = (n / 256 % 256) ∷ (n % 256) ∷ []

abbrev pub be32 : ℕ → List ℕ
be32 n = (n / 2 ^ 24 % 256) ∷ (n / 2 ^ 16 % 256) ∷ (n / 256 % 256) ∷ (n % 256) ∷ []

-- `u16::from_be_bytes`, `u32::from_be_bytes` on the bytes from position i on.
abbrev pub of_be16 : ℕ → ℕ → ℕ
of_be16 a b = a * 256 + b

abbrev pub of_be32 : ℕ → ℕ → ℕ → ℕ → ℕ
of_be32 a b c d = ((a * 256 + b) * 256 + c) * 256 + d

-- `p[i]`; every use in the source stands behind a check of the length.
abbrev pub byte_at : List ℕ → ℕ → ℕ
byte_at p i = get_or p i 0

pub of_be16-be16 : (n : ℕ) → n < 2 ^ 16 → of_be16 (n / 256 % 256) (n % 256) ≡ n
of_be16-be16 n h = omega arith

pub of_be32-be32 :
    (n : ℕ)
    → n < 2 ^ 32
    → of_be32 (n / 2 ^ 24 % 256) (n / 2 ^ 16 % 256) (n / 256 % 256) (n % 256) ≡ n
of_be32-be32 n h = omega arith

pub of_be32-lt : (a b c d : ℕ) → a < 256 → b < 256 → c < 256 → d < 256 → of_be32 a b c d < 2 ^ 32
of_be32-lt a b c d ha hb hc hd = omega arith

pub be32-of_be32 :
    (a b c d : ℕ)
    → a < 256
    → b < 256
    → c < 256
    → d < 256
    → be32 (of_be32 a b c d) ≡ a ∷ b ∷ c ∷ d ∷ []
be32-of_be32 a b c d ha hb hc hd = ground arith

pub be16-of_be16 : (a b : ℕ) → a < 256 → b < 256 → be16 (of_be16 a b) ≡ a ∷ b ∷ []
be16-of_be16 a b ha hb = ground arith

-- The bytes of a number that was read from bytes.
pub be16_bytes :
    (a b : ℕ) → a < 256 → b < 256 → (of_be16 a b / 256 % 256 ≡ a) × (of_be16 a b % 256 ≡ b)
be16_bytes a b ha hb = (omega arith, omega arith)

pub be32_bytes :
    (a b c d : ℕ)
    → a < 256
    → b < 256
    → c < 256
    → d < 256
    → (of_be32 a b c d / 2 ^ 24 % 256 ≡ a)
      × (of_be32 a b c d / 2 ^ 16 % 256 ≡ b)
      × (of_be32 a b c d / 256 % 256 ≡ c)
      × (of_be32 a b c d % 256 ≡ d)
be32_bytes a b c d ha hb hc hd = (omega arith, omega arith, omega arith, omega arith)

-- `==` of byte slices.
unfoldable pub bytes_eq : List ℕ → List ℕ → Bool
bytes_eq [] [] = true
bytes_eq (a ∷ xs) (b ∷ ys) = a == b && bytes_eq xs ys
bytes_eq _ _ = false

pub bytes_eq_refl : (xs : List ℕ) → bytes_eq xs xs ≡ true
unfolding bytes_eq
bytes_eq_refl [] = refl
bytes_eq_refl (x ∷ xs) = ground (arith, bytes_eq_refl xs)

pub bytes_eq_comm : (xs ys : List ℕ) → bytes_eq xs ys ≡ bytes_eq ys xs
unfolding bytes_eq
bytes_eq_comm [] [] = refl
bytes_eq_comm [] (y ∷ ys) = refl
bytes_eq_comm (x ∷ xs) [] = refl
bytes_eq_comm (x ∷ xs) (y ∷ ys) = ground (arith, bytes_eq_comm xs ys)

pub bytes_eq→eq : (xs ys : List ℕ) → bytes_eq xs ys ≡ true → xs ≡ ys
unfolding bytes_eq
bytes_eq→eq [] [] e = refl
bytes_eq→eq [] (y ∷ ys) e = cc
bytes_eq→eq (x ∷ xs) [] e = cc
bytes_eq→eq (x ∷ xs) (y ∷ ys) e = ground (arith, bytes_eq→eq xs ys)
