-- ===== src/Metainfo/Bencode/RoundTrip.antt =====
-- src/metainfo/bencode.rs: what was printed parses back.
use rustytorrent.Base.{
  ℕ, zero, suc, ◌+◌, ◌-◌, ◌*◌, ◌^◌, ◌<◌, ◌≤◌, ◌≡◌, refl, ◌∙◌, true, false, List, [], ◌∷◌, ◌++◌,
  append_assoc, append-nil, Option, none, some, arith, length, length-append,
}
use rustytorrent.Base.Decimal.{
  IsDigit, StartsWithDigit, is_digit, usize_to_string, usize_to_string-StartsWithDigit,
}
use rustytorrent.Metainfo.Bencode.{
  BencodeValue, Items, Fields, no_items, no_fields, Parsed, parsed, ◌>>=◌, wrap, int, bytes, list,
  dict, item, field, parse_int, parse_bytes, kind_of, a_string, is_end, is_too_deep, follows,
  parse_value_depth, parse_list, parse_dict, string_bytes, to_bytes, items_bytes, fields_bytes,
  parse_value, parse_all, skip_value,
}
use rustytorrent.Metainfo.Bencode.Validity.{
  height, items_height, fields_height, IsValid, ItemsAreValid, FieldsAreValid,
}
use rustytorrent.Metainfo.Bencode.Print.{parse_bytes-string_bytes, parse_int-print}

-- There is a first byte, and it does not end a container.
abbrev pub StartsOpen : List ℕ → Type 0
StartsOpen [] = ⊥
StartsOpen (c ∷ cs) = is_end c ≡ false

pub StartsOpen-append : (xs ys : List ℕ) → StartsOpen xs → StartsOpen (xs ++ ys)
StartsOpen-append [] ys h = absurd h
StartsOpen-append (x ∷ xs) ys h = h

StartsOpen-digit : (xs ys : List ℕ) → StartsWithDigit xs → StartsOpen (xs ++ ys)
unfolding is_end
StartsOpen-digit [] ys h = absurd h
StartsOpen-digit (x ∷ xs) ys h = ground arith

pub string_bytes-StartsOpen : (b : List ℕ) → length b < 2 ^ 64 → StartsOpen (string_bytes b)
unfolding string_bytes
string_bytes-StartsOpen b h = StartsOpen-digit _ _ (usize_to_string-StartsWithDigit (length b) h)

to_bytes-StartsOpen : (v : BencodeValue) → IsValid v → StartsOpen (to_bytes v)
unfolding to_bytes is_end IsValid
to_bytes-StartsOpen (int i) h = refl
to_bytes-StartsOpen (bytes b) h = string_bytes-StartsOpen b h
to_bytes-StartsOpen (list xs) h = refl
to_bytes-StartsOpen (dict fs) h = refl

-- One round of the loop of `parse_list`.
parse_list-item :
    (f : ℕ) (input rest : List ℕ) (depth : ℕ) (v : BencodeValue)
    → StartsOpen input
    → parse_value_depth f input (suc depth) ≡ parsed v rest
    → parse_list (suc f) input depth ≡ wrap (item v) (parse_list f rest depth)
unfolding parse_value_depth
parse_list-item f [] rest depth v starts h = absurd starts
parse_list-item f (c ∷ cs) rest depth v starts h = rw (parse_list, starts, h)

-- One round of the loop of `parse_dict`.
parse_dict-field :
    (f : ℕ) (input middle rest : List ℕ) (depth : ℕ) (previous : Option (List ℕ)) (key : List ℕ)
    (v : BencodeValue)
    → StartsOpen input
    → parse_bytes input ≡ parsed key middle
    → follows previous key ≡ true
    → parse_value_depth f middle (suc depth) ≡ parsed v rest
    → parse_dict (suc f) input depth previous
      ≡ wrap (field key v) (parse_dict f rest depth (some key))
unfolding parse_value_depth
parse_dict-field f [] middle rest depth previous key v starts hk hf hv = absurd starts
parse_dict-field f (c ∷ cs) middle rest depth previous key v starts hk hf hv =
    rw (parse_dict, starts, hk, ◌>>=◌, hf, hv)

shallow : (depth : ℕ) → depth ≤ 100 → is_too_deep depth ≡ false
unfolding is_too_deep
shallow depth h = ground arith

digit_kind : (c : ℕ) → IsDigit c → kind_of c ≡ a_string
unfolding kind_of is_digit
digit_kind c d = ground arith

parse_value_depth-string :
    (f : ℕ) (xs ys : List ℕ) (depth : ℕ)
    → StartsWithDigit xs
    → depth ≤ 100
    → parse_value_depth (suc f) (xs ++ ys) depth ≡ wrap bytes (parse_bytes (xs ++ ys))
unfolding parse_value_depth
parse_value_depth-string f [] ys depth d h = absurd d
parse_value_depth-string f (x ∷ xs) ys depth d h =
    rw (parse_value_depth, shallow depth h, digit_kind x d)

string_bytes-append :
    (b rest : List ℕ) → string_bytes b ++ rest ≡ usize_to_string (length b) ++ 58 ∷ (b ++ rest)
unfolding string_bytes
string_bytes-append b rest = append_assoc (usize_to_string (length b)) (58 ∷ b) rest

parse_value_depth-string_bytes :
    (f : ℕ) (b rest : List ℕ) (depth : ℕ)
    → length b < 2 ^ 64
    → depth ≤ 100
    → parse_value_depth (suc f) (string_bytes b ++ rest) depth ≡ parsed (bytes b) rest
parse_value_depth-string_bytes f b rest depth fits h =
    let printed = string_bytes-append b rest in
    let back = parse_bytes-string_bytes b rest fits in
    rw (
      printed,
      parse_value_depth-string f (usize_to_string (length b)) (58 ∷ (b ++ rest)) depth
          (usize_to_string-StartsWithDigit (length b) fits) h,
      rw printed at back,
    )

parse_value_depth-container :
    (f : ℕ) (input : List ℕ) (depth : ℕ)
    → depth ≤ 100
    → (parse_value_depth (suc f) (105 ∷ input) depth ≡ parse_int (105 ∷ input))
      × (parse_value_depth (suc f) (108 ∷ input) depth ≡ wrap list (parse_list f input depth))
      × (parse_value_depth (suc f) (100 ∷ input) depth ≡ wrap dict (parse_dict f input depth none))
unfolding parse_value_depth
parse_value_depth-container f input depth h =
    unfold kind_of in rw (parse_value_depth, shallow depth h) (refl, refl, refl)

-- The parser finds `a` in front of `rest`, where `text` was printed, if the fuel exceeds twice the
-- length of the text.
abbrev Recovers {ℓ} : {A : Type ℓ} → (ℕ → List ℕ → Parsed A) → List ℕ → A → Type ℓ
Recovers parser text a =
    (rest : List ℕ) (fuel : ℕ) → 2 * length text < fuel → parser fuel (text ++ rest) ≡ parsed a rest

abbrev ValueRecovers : BencodeValue → Type 0
ValueRecovers v =
    (depth : ℕ)
    → IsValid v
    → depth + height v ≤ 100
    → Recovers (λ f xs. parse_value_depth f xs depth) (to_bytes v) v

abbrev ItemsRecover : Items → Type 0
ItemsRecover xs =
    (depth : ℕ)
    → ItemsAreValid xs
    → depth + items_height xs ≤ 100
    → Recovers (λ f ys. parse_list f ys depth) (items_bytes xs) xs

abbrev FieldsRecover : Fields → Type 0
FieldsRecover fs =
    (depth : ℕ) (previous : Option (List ℕ))
    → FieldsAreValid fs previous
    → depth + fields_height fs ≤ 100
    → Recovers (λ f ys. parse_dict f ys depth previous) (fields_bytes fs) fs

-- There is fuel for one more step.
fuelled {ℓ} :
    (P : ℕ → Type ℓ) {least : ℕ}
    → ((left : ℕ) → least < suc left → P (suc left))
    → (fuel : ℕ) → least < fuel
    → P fuel
fuelled P step zero enough = absurd (omega arith)
fuelled P step (suc left) enough = step left enough

pub length-to_bytes_pos : (v : BencodeValue) → 0 < length (to_bytes v)
unfolding to_bytes string_bytes
length-to_bytes_pos (bytes b) = omega (arith, length-append (usize_to_string (length b)) (58 ∷ b))
length-to_bytes_pos _ = omega arith

length-items_bytes_pos : (xs : Items) → 0 < length (items_bytes xs)
unfolding to_bytes
length-items_bytes_pos no_items = omega arith
length-items_bytes_pos (item v xs) =
    omega (arith, length-to_bytes_pos v, length-append (to_bytes v) (items_bytes xs))

pub length-fields_bytes_pos : (fs : Fields) → 0 < length (fields_bytes fs)
unfolding to_bytes
length-fields_bytes_pos no_fields = omega arith
length-fields_bytes_pos (field k v fs) = omega (
  arith,
  length-append (string_bytes k) (to_bytes v ++ fields_bytes fs),
  length-append (to_bytes v) (fields_bytes fs),
  length-to_bytes_pos v,
)

parse_value_depth-Recovers : (v : BencodeValue) → ValueRecovers v
unfolding to_bytes IsValid height parse_list is_end
parse_value_depth-Recovers v = elim v as ValueRecovers ItemsRecover FieldsRecover [
  | int i ↦ λ depth ok deep rest.
      fuelled _
        (λ f h. (parse_value_depth-container f _ depth (omega arith)).0 ∙ parse_int-print i rest ok)
  | bytes b ↦ λ depth ok deep rest.
      fuelled _ (λ f h. parse_value_depth-string_bytes f b rest depth ok (omega arith))
  | list (xs → ih) ↦ λ depth ok deep rest.
      fuelled (λ f. parse_value_depth f (to_bytes (list xs) ++ rest) depth ≡ parsed (list xs) rest)
        (λ f h. rw (
          (parse_value_depth-container f (items_bytes xs ++ rest) depth (omega arith)).1,
          ih depth ok deep rest f (omega arith),
        ))
  | dict (fs → ih) ↦ λ depth ok deep rest.
      fuelled (λ f. parse_value_depth f (to_bytes (dict fs) ++ rest) depth ≡ parsed (dict fs) rest)
        (λ f h. rw (
          (parse_value_depth-container f (fields_bytes fs ++ rest) depth (omega arith)).2,
          ih depth none ok deep rest f (omega arith),
        ))
  | no_items ↦ λ depth ok deep rest. fuelled _ (λ f h. refl)
  | item (w → ih) (xs → ihs) ↦ λ depth ok deep rest.
      fuelled (λ f. parse_list f (items_bytes (item w xs) ++ rest) depth ≡ parsed (item w xs) rest)
        (λ f h.
          let n = length-append (to_bytes w) (items_bytes xs) in
          let p = length-to_bytes_pos w in
          let q = length-items_bytes_pos xs in
          rw (
            append_assoc (to_bytes w) (items_bytes xs) rest,
            parse_list-item f _ (items_bytes xs ++ rest) depth w
                (StartsOpen-append _ _ (to_bytes-StartsOpen w ok.0))
                (ih (suc depth) ok.0 (omega arith) _ f (omega arith)),
            ihs depth ok.1 (omega arith) rest f (omega arith),
          ))
  | no_fields ↦ λ depth previous ok deep rest. fuelled _ (λ f h. refl)
  | field k (w → ih) (fs → ihs) ↦ λ depth previous ok deep rest.
      fuelled
        (λ f.
          parse_dict f (fields_bytes (field k w fs) ++ rest) depth previous
          ≡ parsed (field k w fs) rest)
        (λ f h.
          let n = length-append (string_bytes k) (to_bytes w ++ fields_bytes fs) in
          let m = length-append (to_bytes w) (fields_bytes fs) in
          let p = length-to_bytes_pos w in
          let q = length-fields_bytes_pos fs in
          rw (
            append_assoc (string_bytes k) (to_bytes w ++ fields_bytes fs) rest,
            append_assoc (to_bytes w) (fields_bytes fs) rest,
            parse_dict-field f _ (to_bytes w ++ (fields_bytes fs ++ rest)) (fields_bytes fs ++ rest)
                depth previous k w (StartsOpen-append _ _ (string_bytes-StartsOpen k ok.0))
                (parse_bytes-string_bytes k _ ok.0) ok.1
                (ih (suc depth) ok.2 (omega arith) _ f (omega arith)),
            ihs depth (some k) ok.3 (omega arith) rest f (omega arith),
          ))
]

-- A valid value in which no value lies inside more than 100 containers, printed, parses back from
-- the front of any input; the rest of the input is left.
pub parse_value-to_bytes :
    (v : BencodeValue) (rest : List ℕ)
    → IsValid v
    → height v ≤ 100
    → parse_value (to_bytes v ++ rest) ≡ parsed v rest
unfolding parse_value
parse_value-to_bytes v rest ok deep =
    let n = length-append (to_bytes v) rest in
    parse_value_depth-Recovers v 0 ok (omega arith) rest (2 * length (to_bytes v ++ rest) + 1)
      (omega arith)

-- Alone, such a value is what `parse_all` reads, and `skip_value` finds where it ends, whatever
-- stands behind it.
pub parse_all-to_bytes :
    (v : BencodeValue) (rest : List ℕ)
    → IsValid v
    → height v ≤ 100
    → (parse_all (to_bytes v) ≡ parsed v [])
      × (skip_value (to_bytes v ++ rest) ≡ parsed (length (to_bytes v)) rest)
unfolding parse_all skip_value
parse_all-to_bytes v rest ok deep =
    let whole = parse_value-to_bytes v [] ok deep in
    let front = parse_value-to_bytes v rest ok deep in
    let n : length (to_bytes v ++ rest) - length rest ≡ length (to_bytes v) =
      omega (arith, length-append (to_bytes v) rest) in
    (rw (rw append-nil at whole), rw (front, n))
