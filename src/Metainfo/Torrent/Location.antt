-- ===== src/Metainfo/Torrent/Location.antt =====
-- src/metainfo/torrent.rs: the bytes of the info dictionary, which are hashed as they stand.
use rustytorrent.Base.{
  ℕ, zero, suc, ◌-◌, ◌^◌, ◌<◌, ◌≤◌, ◌≡◌, refl, ◌∙◌, inl, inr, Bool, true, false, List, [], ◌∷◌,
  ◌++◌, Option, none, some, arith, ◌==◌, if◌then◌else◌, Bool-cases, length, is_empty, take, drop,
  length-append, length-drop, append-nil, append_assoc, take-length_append, drop-length_append,
  of_test, of_if,
}
use rustytorrent.Base.Bytes.{bytes_eq, bytes_eq_comm}
use rustytorrent.Metainfo.Bencode.{
  BencodeValue, Fields, no_fields, field, int, bytes, list, dict, Parsed, parsed, refused, starved,
  ◌>>=◌, is_end, get, string_bytes, to_bytes, fields_bytes, parse_value, skip_value,
}
use rustytorrent.Metainfo.Bencode.Totality.{Leaves, parse_value_ends}
use rustytorrent.Metainfo.Bencode.Validity.{height, fields_height, IsValid, FieldsAreValid}
use rustytorrent.Metainfo.Bencode.RoundTrip.{
  parse_value-to_bytes, parse_all-to_bytes, StartsOpen, StartsOpen-append, string_bytes-StartsOpen,
  length-to_bytes_pos, length-fields_bytes_pos,
}
use rustytorrent.Metainfo.Torrent.{info_key}
use rustytorrent.Metainfo.Torrent.File.{parse_bytes_inline, bytes_of, find_from, find_info_slice}

-- A value that is skipped has at least a byte.
abbrev IsSkip : ℕ → Parsed ℕ → Type 0
IsSkip n (parsed k rest) = (1 ≤ k) × (k ≤ n)
IsSkip n refused = Unit
IsSkip n starved = ⊥

skip_value-IsSkip : (c : ℕ) (xs : List ℕ) → IsSkip (suc (length xs)) (skip_value (c ∷ xs))
unfolding skip_value
skip_value-IsSkip c xs = of_leaves (parse_value (c ∷ xs)) (parse_value_ends (c ∷ xs))
  where
    of_leaves :
        (p : Parsed BencodeValue)
        → Leaves (suc (length xs) - 1) p
        → IsSkip (suc (length xs)) (p >>= λ _ rest. parsed (suc (length xs) - length rest) rest)
    of_leaves (parsed v rest) h = (omega arith, omega arith)
    of_leaves refused h = tt
    of_leaves starved h = elim h [ ]

-- The answer is not for want of fuel.
abbrev pub HasEnded {ℓ} : {A : Type ℓ} → Parsed A → Type 0
HasEnded (parsed a rest) = Unit
HasEnded refused = Unit
HasEnded starved = ⊥

pub HasEnded-bind {ℓ κ} :
    {A : Type ℓ} {B : Type κ} (p : Parsed A) (k : A → List ℕ → Parsed B)
    → HasEnded p
    → ((a : A) (rest : List ℕ) → p ≡ parsed a rest → HasEnded (k a rest))
    → HasEnded (p >>= k)
HasEnded-bind (parsed a rest) k h next = next a rest refl
HasEnded-bind refused k h next = tt
HasEnded-bind starved k h next = elim h [ ]

pub Leaves-HasEnded {ℓ} : {A : Type ℓ} (n : ℕ) (p : Parsed A) → Leaves n p → HasEnded p
Leaves-HasEnded n (parsed a rest) h = tt
Leaves-HasEnded n refused h = tt
Leaves-HasEnded n starved h = elim h [ ]

skip_value-HasEnded : (xs : List ℕ) → HasEnded (skip_value xs)
unfolding skip_value
skip_value-HasEnded xs =
    HasEnded-bind (parse_value xs) (λ _ rest. parsed (length xs - length rest) rest)
      (Leaves-HasEnded _ (parse_value xs) (parse_value_ends xs)) λ v rest e. tt

parse_bytes_inline-HasEnded : (xs : List ℕ) → HasEnded (parse_bytes_inline xs)
unfolding parse_bytes_inline
parse_bytes_inline-HasEnded xs =
    HasEnded-bind (parse_value xs) (λ v rest. if is_empty rest then bytes_of v else refused)
      (Leaves-HasEnded _ (parse_value xs) (parse_value_ends xs))
      λ v rest e. of_if HasEnded (is_empty rest) (bytes_of v) refused (λ _. of_value v) (λ _. tt)
  where
    of_value : (v : BencodeValue) → HasEnded (bytes_of v)
    of_value (bytes b) = tt
    of_value (int i) = tt
    of_value (list xs) = tt
    of_value (dict fs) = tt

find_from-HasEnded : (f : ℕ) (input : List ℕ) → length input < f → HasEnded (find_from f input)
unfolding find_from
find_from-HasEnded zero input h = absurd (omega arith)
find_from-HasEnded (suc f) [] h = tt
find_from-HasEnded (suc f) (c ∷ input) h =
    of_test HasEnded (c == 101) _ _ (λ _. tt)
      λ _. HasEnded-bind (skip_value (c ∷ input)) _ (skip_value-HasEnded (c ∷ input)) λ key_len r e.
        let skip = skip_value-IsSkip c input in
        let moved : (1 ≤ key_len) × (key_len ≤ suc (length input)) = rw e at skip in
        let rest = drop key_len (c ∷ input) in
        let n = length-drop key_len (c ∷ input) in
        HasEnded-bind (parse_bytes_inline (take key_len (c ∷ input))) _
          (parse_bytes_inline-HasEnded (take key_len (c ∷ input)))
          λ key r' e'.
            HasEnded-bind (skip_value rest) _ (skip_value-HasEnded rest) λ value_len r'' e''.
              of_test HasEnded (bytes_eq key info_key) _ _ (λ _. tt)
                λ _.
                  find_from-HasEnded f (drop value_len rest)
                    (omega (arith, length-drop value_len rest))

-- The search ends on every input.
pub find_info_slice_ends : (input : List ℕ) → HasEnded (find_info_slice input)
unfolding find_info_slice
find_info_slice_ends [] = tt
find_info_slice_ends (c ∷ input) =
    of_if HasEnded (c == 100) _ _ (λ _. find_from-HasEnded (suc (length input)) input (omega arith))
      (λ _. tt)

parse_bytes_inline-string_bytes :
    (k : List ℕ) → length k < 2 ^ 64 → parse_bytes_inline (string_bytes k) ≡ parsed k []
unfolding parse_bytes_inline to_bytes IsValid height
parse_bytes_inline-string_bytes k h =
    let whole = parse_value-to_bytes (bytes k) [] h (omega arith) in
    let front : parse_value (string_bytes k) ≡ parsed (bytes k) [] = rw append-nil at whole in
    rw front refl

-- What a round gives from the bytes behind a key.
answer :
    (f : ℕ) (test : Bool) (w : BencodeValue) (rest input : List ℕ)
    → input ≡ to_bytes w ++ rest
    → elim test [
      | true ↦ parsed (take (length (to_bytes w)) input) (drop (length (to_bytes w)) input)
      | false ↦ find_from f (drop (length (to_bytes w)) input)
    ]
      ≡ elim test [ true ↦ parsed (to_bytes w) rest | false ↦ find_from f rest ]
answer f true w rest input e =
    rw (e, take-length_append (to_bytes w) rest, drop-length_append (to_bytes w) rest) refl
answer f false w rest input e = rw (e, drop-length_append (to_bytes w) rest) refl

-- One round of the loop over the entries.
find_from-field :
    (f : ℕ) (k rest input : List ℕ) (w : BencodeValue)
    → StartsOpen input
    → skip_value input ≡ parsed (length (string_bytes k)) (to_bytes w ++ rest)
    → take (length (string_bytes k)) input ≡ string_bytes k
    → drop (length (string_bytes k)) input ≡ to_bytes w ++ rest
    → length k < 2 ^ 64
    → IsValid w
    → height w ≤ 100
    → find_from (suc f) input
      ≡ elim (bytes_eq k info_key) [ true ↦ parsed (to_bytes w) rest | false ↦ find_from f rest ]
unfolding find_from is_end
find_from-field f k rest [] w starts a t d hk ok deep = absurd starts
find_from-field f k rest (c ∷ cs) w starts a t d hk ok deep =
    let other : (c == 101) ≡ false = starts in
    rw
      (
        find_from,
        other,
        a,
        t,
        parse_bytes_inline-string_bytes k hk,
        d,
        (parse_all-to_bytes w rest ok deep).1,
        ◌>>=◌,
      )
      (answer f (bytes_eq k info_key) w rest _ d)

-- Where a dictionary holds a value for the key.
find_from-fields_bytes :
    (fs : Fields) (previous : Option (List ℕ)) (v : BencodeValue) (f : ℕ) (tail : List ℕ)
    → get info_key fs ≡ some v
    → FieldsAreValid fs previous
    → fields_height fs ≤ 100
    → length (fields_bytes fs) ≤ f
    → (rest : List ℕ) × (find_from f (fields_bytes fs ++ tail) ≡ parsed (to_bytes v) rest)
unfolding get to_bytes IsValid height
find_from-fields_bytes no_fields previous v f tail has ok deep enough = cc
find_from-fields_bytes (field k w fs) previous v zero tail has ok deep enough =
    let n = length-append (string_bytes k) (to_bytes w ++ fields_bytes fs) in
    let m = length-append (to_bytes w) (fields_bytes fs) in
    absurd (let p = length-fields_bytes_pos fs in omega arith)
find_from-fields_bytes (field k w fs) previous v (suc f) tail has ok deep enough =
    let n = length-append (string_bytes k) (to_bytes w ++ fields_bytes fs) in
    let m = length-append (to_bytes w) (fields_bytes fs) in
    let p = length-to_bytes_pos w in
    let rest = fields_bytes fs ++ tail in
    let input = string_bytes k ++ (to_bytes w ++ rest) in
    let same : (string_bytes k ++ (to_bytes w ++ fields_bytes fs)) ++ tail ≡ input =
      rw
        (
          append_assoc (string_bytes k) (to_bytes w ++ fields_bytes fs) tail,
          append_assoc (to_bytes w) (fields_bytes fs) tail,
        )
        refl in
    let round =
      find_from-field f k rest input w (StartsOpen-append _ _ (string_bytes-StartsOpen k ok.0))
        (parse_all-to_bytes (bytes k) (to_bytes w ++ rest) ok.0 (omega arith)).1
        (take-length_append (string_bytes k) (to_bytes w ++ rest))
        (drop-length_append (string_bytes k) (to_bytes w ++ rest)) ok.0 ok.2 (omega arith) in
    elim (Bool-cases (bytes_eq k info_key)) [
      | inl e ↦
          let c : bytes_eq info_key k ≡ true = bytes_eq_comm info_key k ∙ e in
          let here = rw c at has in
          let is_v : w ≡ v = cc in (rest, rw same (round ∙ rw (e, is_v) refl))
      | inr e ↦
          let c : bytes_eq info_key k ≡ false = bytes_eq_comm info_key k ∙ e in
          let later = rw c at has in
          let (r, found) =
            find_from-fields_bytes fs (some k) v f tail later ok.3 (omega arith) (omega arith) in
          (r, rw same (round ∙ rw e found))
    ]

-- In a printed dictionary, the bytes that are found and hashed are those of the value that stands
-- under the info key, whatever stands around it.
pub find_info_slice-to_bytes :
    (fs : Fields) (v : BencodeValue)
    → get info_key fs ≡ some v
    → IsValid (dict fs)
    → height (dict fs) ≤ 100
    → (rest : List ℕ) × (find_info_slice (to_bytes (dict fs)) ≡ parsed (to_bytes v) rest)
unfolding find_info_slice to_bytes IsValid height
find_info_slice-to_bytes fs v has ok deep =
    let (rest, h) =
      find_from-fields_bytes fs none v (suc (length (fields_bytes fs))) [] has ok deep
        (omega arith) in
    (rest, rw append-nil at h)
