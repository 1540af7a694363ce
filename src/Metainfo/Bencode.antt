-- ===== src/Metainfo/Bencode.antt =====
-- src/metainfo/bencode.rs: the values, their printer and their parser.
--
-- A dictionary, a `BTreeMap` in the source, is the list of its entries in the order of the keys.
-- Each error is `Error::Bencode`, so a parse is `refused` without saying more; that bytes which are
-- no digits are no UTF-8 either is the same refusal. The recursion of the parser on what a call
-- leaves of its input runs on fuel, and `starved` says that it ran out.
pub mod Totality
pub mod RoundTrip
pub mod Slices
pub mod Sound
pub mod Validity
pub mod Nesting
pub mod Print
pub mod Text
use rustytorrent.Base.{
  ℕ, zero, suc, ◌+◌, ◌-◌, ◌*◌, Bool, true, false, not, List, [], ◌∷◌, ◌++◌, Option, none, some, ltb,
  leb, ◌==◌, if◌then◌else◌, length, is_empty, take, drop,
}
use rustytorrent.Base.Bytes.{bytes_eq}
use rustytorrent.Base.Outcome
use rustytorrent.Base.Outcome.{Error, Result, ok, err}
use rustytorrent.Base.Decimal.{ℤ, is_digit, parse_usize, parse_i64, usize_to_string, i64_to_string}

mutual
  pub data BencodeValue : Type 0 where
    int : ℤ → BencodeValue
    bytes : List ℕ → BencodeValue
    list : Items → BencodeValue
    dict : Fields → BencodeValue

  pub data Items : Type 0 where
    no_items : Items
    item : BencodeValue → Items → Items

  pub data Fields : Type 0 where
    no_fields : Fields
    field : List ℕ → BencodeValue → Fields → Fields

abbrev pub max_depth : ℕ
max_depth = 100

-- `<` on byte strings.
unfoldable pub bytes_lt : List ℕ → List ℕ → Bool
bytes_lt xs [] = false
bytes_lt [] (y ∷ ys) = true
bytes_lt (x ∷ xs) (y ∷ ys) =
    let rest = bytes_lt xs ys in if ltb x y then true else if x == y then rest else false

unfoldable pub as_int : BencodeValue → Result ℤ
as_int (int i) = ok i
as_int _ = err Error.bencode

unfoldable pub as_bytes : BencodeValue → Result (List ℕ)
as_bytes (bytes b) = ok b
as_bytes _ = err Error.bencode

unfoldable pub as_list : BencodeValue → Result Items
as_list (list xs) = ok xs
as_list _ = err Error.bencode

unfoldable pub as_dict : BencodeValue → Result Fields
as_dict (dict fs) = ok fs
as_dict _ = err Error.bencode

unfoldable pub get : List ℕ → Fields → Option BencodeValue
get key no_fields = none
get key (field k v fs) = let rest = get key fs in if bytes_eq key k then some v else rest

unfoldable pub found : Option BencodeValue → Result BencodeValue
found none = err Error.bencode
found (some v) = ok v

unfoldable pub dict_get : BencodeValue → List ℕ → Result BencodeValue
unfolding as_dict get found
dict_get v key = Outcome.◌>>=◌ (as_dict v) λ fs. found (get key fs)

-- The length, a colon and the bytes.
unfoldable pub string_bytes : List ℕ → List ℕ
string_bytes b = usize_to_string (length b) ++ 58 ∷ b

unfoldable mutual
  pub to_bytes : BencodeValue → List ℕ
  to_bytes (int i) = 105 ∷ i64_to_string i ++ 101 ∷ []
  to_bytes (bytes b) = string_bytes b
  to_bytes (list xs) = 108 ∷ items_bytes xs
  to_bytes (dict fs) = 100 ∷ fields_bytes fs

  pub items_bytes : Items → List ℕ
  items_bytes no_items = 101 ∷ []
  items_bytes (item v xs) = to_bytes v ++ items_bytes xs

  pub fields_bytes : Fields → List ℕ
  fields_bytes no_fields = 101 ∷ []
  fields_bytes (field k v fs) = string_bytes k ++ (to_bytes v ++ fields_bytes fs)

-- What a parser makes of its input: a value and the bytes behind it, or an error.
pub data Parsed {ℓ} (A : Type ℓ) : Type ℓ where
  parsed : A → List ℕ → Parsed A
  refused : Parsed A
  starved : Parsed A

infixl 1 ◌>>=◌
abbrev pub ◌>>=◌ {ℓ κ} : {A : Type ℓ} {B : Type κ} → Parsed A → (A → List ℕ → Parsed B) → Parsed B
parsed a rest >>= f = f a rest
refused >>= f = refused
starved >>= f = starved

abbrev pub wrap {ℓ κ} : {A : Type ℓ} {B : Type κ} → (A → B) → Parsed A → Parsed B
wrap f p = p >>= λ a rest. parsed (f a) rest

abbrev pub pure {ℓ} : {A : Type ℓ} → Option A → List ℕ → Parsed A
pure none rest = refused
pure (some a) rest = parsed a rest

-- What stands before the first byte `b`, and what behind it.
unfoldable pub until : ℕ → List ℕ → Parsed (List ℕ)
until b [] = refused
until b (x ∷ xs) =
    let more = until b xs >>= λ front rest. parsed (x ∷ front) rest in
    if x == b then parsed [] xs else more

-- The digits that `parse_int` turns away: a negative zero and leading zeros.
unfoldable pub has_leading_zero : List ℕ → Bool
has_leading_zero (c ∷ d ∷ ds) = if c == 48 then true else if c == 45 then d == 48 else false
has_leading_zero _ = false

unfoldable pub int_of : List ℕ → Option ℤ
unfolding has_leading_zero
int_of digits = if has_leading_zero digits then none else parse_i64 digits

unfoldable pub parse_int : List ℕ → Parsed BencodeValue
unfolding int_of until
parse_int input = until 101 (drop 1 input) >>= λ digits rest. wrap int (pure (int_of digits) rest)

unfoldable pub split_at : ℕ → List ℕ → Parsed (List ℕ)
split_at len rest =
    if ltb (length rest) len then refused else parsed (take len rest) (drop len rest)

unfoldable pub parse_bytes : List ℕ → Parsed (List ℕ)
unfolding split_at until
parse_bytes input = until 58 input >>= λ digits rest. pure (parse_usize digits) rest >>= split_at

-- The keys of a dictionary strictly increase.
unfoldable pub follows : Option (List ℕ) → List ℕ → Bool
unfolding bytes_lt
follows none key = true
follows (some previous) key = bytes_lt previous key

-- What the first byte of a value announces.
pub data Kind : Type 0 where
  an_int a_list a_dict a_string unexpected : Kind

unfoldable pub kind_of : ℕ → Kind
unfolding is_digit
kind_of c =
    if c == 105
    then an_int
    else if c == 108
    then a_list
    else if c == 100
    then a_dict
    else if is_digit c
    then a_string
    else unexpected

unfoldable pub is_end : ℕ → Bool
is_end c = c == 101

unfoldable pub is_too_deep : ℕ → Bool
is_too_deep depth = ltb max_depth depth

unfoldable mutual
  pub parse_value_depth : ℕ → List ℕ → ℕ → Parsed BencodeValue
  parse_value_depth zero input depth = starved
  parse_value_depth (suc f) [] depth = refused
  parse_value_depth (suc f) (c ∷ rest) depth = elim (is_too_deep depth) [
    | true ↦ refused
    | false ↦ elim (kind_of c) [
      | an_int ↦ parse_int (c ∷ rest)
      | a_list ↦ wrap list (parse_list f rest depth)
      | a_dict ↦ wrap dict (parse_dict f rest depth none)
      | a_string ↦ wrap bytes (parse_bytes (c ∷ rest))
      | unexpected ↦ refused
    ]
  ]

  pub parse_list : ℕ → List ℕ → ℕ → Parsed Items
  parse_list zero rest depth = starved
  parse_list (suc f) [] depth = refused
  parse_list (suc f) (c ∷ rest) depth = elim (is_end c) [
    | true ↦ parsed no_items rest
    | false ↦
        parse_value_depth f (c ∷ rest) (suc depth) >>= λ v r. wrap (item v) (parse_list f r depth)
  ]

  pub parse_dict : ℕ → List ℕ → ℕ → Option (List ℕ) → Parsed Fields
  parse_dict zero rest depth previous = starved
  parse_dict (suc f) [] depth previous = refused
  parse_dict (suc f) (c ∷ rest) depth previous = elim (is_end c) [
    | true ↦ parsed no_fields rest
    | false ↦ parse_bytes (c ∷ rest) >>= λ key r. elim (follows previous key) [
      | false ↦ refused
      | true ↦ parse_value_depth f r (suc depth) >>= λ v r.
          wrap (field key v) (parse_dict f r depth (some key))
    ]
  ]

unfoldable pub parse_value : List ℕ → Parsed BencodeValue
unfolding parse_value_depth
parse_value input = parse_value_depth (2 * length input + 1) input 0

unfoldable pub parse_all : List ℕ → Parsed BencodeValue
unfolding parse_value
parse_all input = parse_value input >>= λ v rest. if is_empty rest then parsed v rest else refused

unfoldable pub skip_value : List ℕ → Parsed ℕ
unfolding parse_value
skip_value input = parse_value input >>= λ _ rest. parsed (length input - length rest) rest
