-- ===== src/Base/Decimal.antt =====
-- Signed integers and the decimal notation of numbers, as `i64`, `usize`, `to_string` and `parse`
-- of the standard library have them.
use rustytorrent.Base.{
  ℕ, zero, suc, ◌+◌, ◌-◌, ◌*◌, ◌/◌, ◌%◌, ◌^◌, ◌<◌, ◌≤◌, ◌≡◌, refl, ◌∙◌, inl, inr, Bool, true, false,
  List, [], ◌∷◌, ◌++◌, Option, none, some, arith, ltb, leb, ◌==◌, if◌then◌else◌, Bool-cases, ltb→lt,
  lt→ltb, ◌≢◌, All, All-append,
}

-- `negsuc n` is -(n + 1).
pub data ℤ : Type 0 where
  pos : ℕ → ℤ
  negsuc : ℕ → ℤ

-- The values of an `i64`.
abbrev pub IsI64 : ℤ → Type 0
IsI64 (pos n) = n < 2 ^ 63
IsI64 (negsuc n) = n < 2 ^ 63

unfoldable pub negate : ℕ → ℤ
negate n = if n == 0 then pos 0 else negsuc (n - 1)

unfoldable pub is_digit : ℕ → Bool
is_digit c = if leb 48 c then leb c 57 else false

-- The digits of a number below 10 ^ fuel, the most significant first.
unfoldable pub digits : ℕ → ℕ → List ℕ
digits zero n = []
digits (suc fuel) n = if ltb n 10 then (48 + n) ∷ [] else digits fuel (n / 10) ++ (48 + n % 10) ∷ []

-- `to_string` of a `usize`: 20 digits hold every number of 64 bits.
unfoldable pub usize_to_string : ℕ → List ℕ
unfolding digits
usize_to_string n = digits 20 n

unfoldable pub i64_to_string : ℤ → List ℕ
unfolding usize_to_string
i64_to_string (pos n) = usize_to_string n
i64_to_string (negsuc n) = 45 ∷ usize_to_string (suc n)

unfoldable pub value_from : ℕ → List ℕ → Option ℕ
unfolding is_digit
value_from acc [] = some acc
value_from acc (c ∷ cs) = if is_digit c then value_from (10 * acc + (c - 48)) cs else none

-- A number without a sign; there must be a digit.
unfoldable pub magnitude : List ℕ → Option ℕ
unfolding value_from
magnitude [] = none
magnitude (c ∷ cs) = value_from 0 (c ∷ cs)

unfoldable pub at_most : ℕ → Option ℕ → Option ℕ
at_most bound none = none
at_most bound (some n) = if leb n bound then some n else none

-- `str::parse` of a `usize`: a plus sign is allowed.
unfoldable pub parse_usize : List ℕ → Option ℕ
unfolding magnitude at_most
parse_usize [] = none
parse_usize (c ∷ cs) = at_most (2 ^ 64 - 1) (if c == 43 then magnitude cs else magnitude (c ∷ cs))

unfoldable pub positive : Option ℕ → Option ℤ
positive none = none
positive (some n) = some (pos n)

unfoldable pub negative : Option ℕ → Option ℤ
unfolding negate
negative none = none
negative (some n) = some (negate n)

-- `str::parse` of an `i64`: either sign is allowed.
unfoldable pub parse_i64 : List ℕ → Option ℤ
unfolding magnitude at_most positive negative
parse_i64 [] = none
parse_i64 (c ∷ cs) =
    if c == 45
    then negative (at_most (2 ^ 63) (magnitude cs))
    else positive (at_most (2 ^ 63 - 1) (if c == 43 then magnitude cs else magnitude (c ∷ cs)))

abbrev pow10 : ℕ → ℕ
pow10 zero = 1
pow10 (suc n) = 10 * pow10 n

abbrev pub IsDigit : ℕ → Type 0
IsDigit c = (48 ≤ c) × (c ≤ 57)

pub digits-All : (fuel n : ℕ) → All IsDigit (digits fuel n)
unfolding digits
digits-All zero n = tt
digits-All (suc fuel) n = elim (Bool-cases (ltb n 10)) [
  | inl small ↦ let below = ltb→lt n 10 small in rw (All, small) ((omega arith, omega arith), tt)
  | inr large ↦
      rw (All, large)
        (All-append IsDigit _ _ (digits-All fuel (n / 10)) ((omega arith, omega arith), tt))
]

is_digit-IsDigit : (c : ℕ) → IsDigit c → is_digit c ≡ true
unfolding is_digit
is_digit-IsDigit c d = ground arith

value_from-append :
    (xs ys : List ℕ) (acc n : ℕ)
    → value_from acc xs ≡ some n
    → value_from acc (xs ++ ys) ≡ value_from n ys
unfolding value_from is_digit
value_from-append [] ys acc n h = cc
value_from-append (x ∷ xs) ys acc n h = elim (Bool-cases (is_digit x)) [
  | inl e ↦ rw e (value_from-append xs ys (10 * acc + (x - 48)) n (rw e at h))
  | inr e ↦ let bad = rw e at h in cc
]

value_from-digit : (acc c : ℕ) → IsDigit c → value_from acc (c ∷ []) ≡ some (10 * acc + (c - 48))
unfolding value_from
value_from-digit acc c d = rw (is_digit-IsDigit c d)

value_from-digits : (fuel n : ℕ) → n < pow10 fuel → value_from 0 (digits fuel n) ≡ some n
unfolding digits
value_from-digits zero n h = let z : n ≡ 0 = omega arith in rw z (unfold value_from in refl)
value_from-digits (suc fuel) n h = elim (Bool-cases (ltb n 10)) [
  | inl small ↦
      let below = ltb→lt n 10 small in
      let one = value_from-digit 0 (48 + n) (omega arith, omega arith) in
      let same : 10 * 0 + (48 + n - 48) ≡ n = omega arith in rw (small, one) (rw same)
  | inr large ↦
      let front = value_from-digits fuel (n / 10) (omega arith) in
      let last = value_from-digit (n / 10) (48 + n % 10) (omega arith, omega arith) in
      let same : 10 * (n / 10) + (48 + n % 10 - 48) ≡ n = omega arith in
      rw (large, value_from-append _ _ 0 (n / 10) front, last) (rw same)
]

-- There is a first character, and it is not '0'.
abbrev pub StartsNonzero : List ℕ → Type 0
StartsNonzero [] = ⊥
StartsNonzero (c ∷ cs) = c ≢ 48

StartsNonzero-append : (xs ys : List ℕ) → StartsNonzero xs → StartsNonzero (xs ++ ys)
StartsNonzero-append [] ys h = absurd h
StartsNonzero-append (x ∷ xs) ys h = h

digits-StartsNonzero : (fuel n : ℕ) → 0 < n → n < pow10 fuel → StartsNonzero (digits fuel n)
unfolding digits
digits-StartsNonzero zero n p h = absurd (omega arith)
digits-StartsNonzero (suc fuel) n p h = elim (Bool-cases (ltb n 10)) [
  | inl small ↦ rw (StartsNonzero, small) (λ e. absurd (omega arith))
  | inr large ↦
      let big : ¬ (n < 10) = λ b. let t = lt→ltb n 10 b in cc in
      rw (StartsNonzero, large)
        (StartsNonzero-append _ _ (digits-StartsNonzero fuel (n / 10) (omega arith) (omega arith)))
]

magnitude-positive : (xs : List ℕ) → StartsNonzero xs → magnitude xs ≡ value_from 0 xs
unfolding magnitude
magnitude-positive [] h = absurd h
magnitude-positive (x ∷ xs) h = refl

magnitude-digits : (fuel n : ℕ) → n < pow10 (suc fuel) → magnitude (digits (suc fuel) n) ≡ some n
magnitude-digits fuel zero h = unfold digits magnitude value_from is_digit in refl
magnitude-digits fuel (suc n) h =
    magnitude-positive _ (digits-StartsNonzero (suc fuel) (suc n) (omega arith) h)
    ∙ value_from-digits (suc fuel) (suc n) h

-- What `usize_to_string` writes.
pub usize_to_string-All : (n : ℕ) → All IsDigit (usize_to_string n)
unfolding usize_to_string
usize_to_string-All n = digits-All 20 n

pub usize_to_string-StartsNonzero : (n : ℕ) → 0 < n → n < 2 ^ 64 → StartsNonzero (usize_to_string n)
unfolding usize_to_string
usize_to_string-StartsNonzero n p h = digits-StartsNonzero 20 n p (omega arith)

magnitude-usize_to_string : (n : ℕ) → n < 2 ^ 64 → magnitude (usize_to_string n) ≡ some n
unfolding usize_to_string
magnitude-usize_to_string n h = magnitude-digits 19 n (omega arith)

not_code : (c k : ℕ) → IsDigit c → k < 48 → (c == k) ≡ false
not_code c k d b = ground arith

parse_usize-unsigned :
    (xs : List ℕ) (n : ℕ)
    → All IsDigit xs
    → magnitude xs ≡ some n
    → n < 2 ^ 64
    → parse_usize xs ≡ some n
unfolding parse_usize at_most
parse_usize-unsigned [] n d h b = unfold magnitude in cc
parse_usize-unsigned (c ∷ cs) n d h b =
    let fits : leb n (2 ^ 64 - 1) ≡ true = ground arith in
    rw (not_code c 43 d.0 (omega arith), h, fits)

parse_i64-unsigned :
    (xs : List ℕ) (n : ℕ)
    → All IsDigit xs
    → magnitude xs ≡ some n
    → n < 2 ^ 63
    → parse_i64 xs ≡ some (pos n)
unfolding parse_i64 at_most positive
parse_i64-unsigned [] n d h b = unfold magnitude in cc
parse_i64-unsigned (c ∷ cs) n d h b =
    let fits : leb n (2 ^ 63 - 1) ≡ true = ground arith in
    rw (not_code c 45 d.0 (omega arith), not_code c 43 d.0 (omega arith), h, fits)

-- A printed `usize` is read back.
pub parse_usize-usize_to_string : (n : ℕ) → n < 2 ^ 64 → parse_usize (usize_to_string n) ≡ some n
parse_usize-usize_to_string n b =
    parse_usize-unsigned _ n (usize_to_string-All n) (magnitude-usize_to_string n b) b

-- A printed `i64` is read back.
pub parse_i64-i64_to_string : (i : ℤ) → IsI64 i → parse_i64 (i64_to_string i) ≡ some i
unfolding i64_to_string
parse_i64-i64_to_string (pos n) b =
    parse_i64-unsigned _ n (usize_to_string-All n) (magnitude-usize_to_string n (omega arith)) b
parse_i64-i64_to_string (negsuc n) b =
    unfold parse_i64 at_most negative negate in
    let fits : leb (suc n) (2 ^ 63) ≡ true = ground arith in
    let some_digit : (suc n == 0) ≡ false = ground arith in
    let back : suc n - 1 ≡ n = omega arith in
    rw (magnitude-usize_to_string (suc n) (omega arith), fits, some_digit, back)

at_most_lem : (bound : ℕ) (o : Option ℕ) (n : ℕ) → at_most bound o ≡ some n → n ≤ bound
unfolding at_most
at_most_lem bound none n h = cc
at_most_lem bound (some m) n h = ground arith

-- Whatever `parse` reads fits its type.
pub parse_usize-lt : (xs : List ℕ) (n : ℕ) → parse_usize xs ≡ some n → n < 2 ^ 64
unfolding parse_usize
parse_usize-lt [] n h = cc
parse_usize-lt (c ∷ cs) n h =
    let b : n ≤ 2 ^ 64 - 1 =
      at_most_lem (2 ^ 64 - 1) (if c == 43 then magnitude cs else magnitude (c ∷ cs)) n h in
    omega arith

positive-IsI64 : (o : Option ℕ) (i : ℤ) → positive (at_most (2 ^ 63 - 1) o) ≡ some i → IsI64 i
unfolding positive at_most
positive-IsI64 none i h = cc
positive-IsI64 (some n) i h = ground arith

negative-IsI64 : (o : Option ℕ) (i : ℤ) → negative (at_most (2 ^ 63) o) ≡ some i → IsI64 i
unfolding negative at_most negate
negative-IsI64 none i h = cc
negative-IsI64 (some n) i h = ground arith

pub parse_i64-IsI64 : (xs : List ℕ) (i : ℤ) → parse_i64 xs ≡ some i → IsI64 i
unfolding parse_i64
parse_i64-IsI64 [] i h = cc
parse_i64-IsI64 (c ∷ cs) i h = elim (Bool-cases (c == 45)) [
  | inl e ↦ negative-IsI64 (magnitude cs) i (rw e at h)
  | inr e ↦ positive-IsI64 (if c == 43 then magnitude cs else magnitude (c ∷ cs)) i (rw e at h)
]

-- The first character is a digit.
abbrev pub StartsWithDigit : List ℕ → Type 0
StartsWithDigit [] = ⊥
StartsWithDigit (c ∷ cs) = IsDigit c

StartsWithDigit-of :
    (xs : List ℕ) (n : ℕ) → magnitude xs ≡ some n → All IsDigit xs → StartsWithDigit xs
unfolding magnitude
StartsWithDigit-of [] n h d = cc
StartsWithDigit-of (x ∷ xs) n h d = d.0

pub usize_to_string-StartsWithDigit : (n : ℕ) → n < 2 ^ 64 → StartsWithDigit (usize_to_string n)
usize_to_string-StartsWithDigit n h =
    StartsWithDigit-of _ n (magnitude-usize_to_string n h) (usize_to_string-All n)
