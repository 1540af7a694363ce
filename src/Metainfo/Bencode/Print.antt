-- ===== src/Metainfo/Bencode/Print.antt =====
-- src/metainfo/bencode.rs: what the pieces of a printed value parse to.
use rustytorrent.Base.{
  ℕ, zero, suc, ◌^◌, ◌<◌, ◌≡◌, ◌≢◌, refl, true, false, List, [], ◌∷◌, ◌++◌, append_assoc, arith,
  ltb, ◌==◌, length, All, take-append_of, drop-append_of, length-append,
}
use rustytorrent.Base.Decimal.{
  ℤ, pos, negsuc, IsI64, IsDigit, StartsNonzero, usize_to_string, i64_to_string,
  parse_usize-usize_to_string, parse_i64-i64_to_string, usize_to_string-All,
  usize_to_string-StartsNonzero,
}
use rustytorrent.Metainfo.Bencode.{
  parsed, until, int, parse_int, int_of, has_leading_zero, split_at, parse_bytes, string_bytes,
}

until-append :
    (b : ℕ) (xs ys : List ℕ) → All (λ c. c ≢ b) xs → until b (xs ++ b ∷ ys) ≡ parsed xs ys
unfolding until
until-append b [] ys h = let same : (b == b) ≡ true = ground arith in rw same
until-append b (x ∷ xs) ys h =
    let other : (x == b) ≡ false = (let ne = h.0 in ground arith) in
    rw (other, until-append b xs ys h.1)

All-map {κ} : {P Q : ℕ → Type κ} (xs : List ℕ) → ((c : ℕ) → P c → Q c) → All P xs → All Q xs
All-map [] f h = tt
All-map (x ∷ xs) f h = (f x h.0, All-map xs f h.1)

split_at-append : (xs ys : List ℕ) → split_at (length xs) (xs ++ ys) ≡ parsed xs ys
unfolding split_at
split_at-append xs ys =
    let fits : ltb (length (xs ++ ys)) (length xs) ≡ false =
      (let n = length-append xs ys in ground arith) in
    rw (fits, take-append_of (length xs) xs ys refl, drop-append_of (length xs) xs ys refl)

-- A printed byte string is read back.
pub parse_bytes-string_bytes :
    (b rest : List ℕ) → length b < 2 ^ 64 → parse_bytes (string_bytes b ++ rest) ≡ parsed b rest
unfolding parse_bytes string_bytes
parse_bytes-string_bytes b rest h =
    let colon =
      until-append 58 (usize_to_string (length b)) (b ++ rest)
        (All-map _ (λ c d e. absurd (omega arith)) (usize_to_string-All (length b))) in
    rw (
      append_assoc (usize_to_string (length b)) (58 ∷ b) rest,
      colon,
      parse_usize-usize_to_string (length b) h,
      split_at-append b rest,
    )

nonzero_fits : (xs : List ℕ) → All IsDigit xs → StartsNonzero xs → has_leading_zero xs ≡ false
unfolding has_leading_zero
nonzero_fits [] d h = refl
nonzero_fits (x ∷ []) d h = refl
nonzero_fits (x ∷ y ∷ ys) d h =
    let a : (x == 48) ≡ false = ground arith in
    let b : (x == 45) ≡ false = (let lo = d.0.0 in ground arith) in rw (a, b)

minus_fits : (xs : List ℕ) → StartsNonzero xs → has_leading_zero (45 ∷ xs) ≡ false
unfolding has_leading_zero
minus_fits [] h = refl
minus_fits (x ∷ xs) h = let a : (x == 48) ≡ false = ground arith in a

i64_to_string_fits : (i : ℤ) → IsI64 i → has_leading_zero (i64_to_string i) ≡ false
unfolding i64_to_string
i64_to_string_fits (pos zero) h = unfold usize_to_string has_leading_zero in refl
i64_to_string_fits (pos (suc n)) h =
    nonzero_fits _ (usize_to_string-All (suc n))
      (usize_to_string-StartsNonzero (suc n) (omega arith) (omega arith))
i64_to_string_fits (negsuc n) h =
    minus_fits _ (usize_to_string-StartsNonzero (suc n) (omega arith) (omega arith))

i64_to_string-All : (i : ℤ) → All (λ c. c ≢ 101) (i64_to_string i)
unfolding i64_to_string
i64_to_string-All (pos n) = All-map _ (λ c d e. absurd (omega arith)) (usize_to_string-All n)
i64_to_string-All (negsuc n) = (
  (λ e. absurd (omega arith)),
  All-map _ (λ c d e. absurd (omega arith)) (usize_to_string-All (suc n)),
)

-- A printed integer is read back.
pub parse_int-print :
    (i : ℤ) (rest : List ℕ)
    → IsI64 i
    → parse_int (105 ∷ (i64_to_string i ++ 101 ∷ []) ++ rest) ≡ parsed (int i) rest
unfolding parse_int int_of
parse_int-print i rest h = rw (
  append_assoc (i64_to_string i) (101 ∷ []) rest,
  until-append 101 (i64_to_string i) rest (i64_to_string-All i),
  i64_to_string_fits i h,
  parse_i64-i64_to_string i h,
)
