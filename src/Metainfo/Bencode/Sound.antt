-- ===== src/Metainfo/Bencode/Sound.antt =====
-- src/metainfo/bencode.rs: what the parser accepts is a valid value.
use rustytorrent.Base.{
  ℕ, zero, suc, ◌+◌, ◌*◌, ◌^◌, ◌<◌, ◌≤◌, ◌≡◌, refl, inl, inr, false, List, [], ◌∷◌, ◌++◌, Option,
  none, some, arith, ltb, Bool-cases, length, length-take, drop, of_test,
}
use rustytorrent.Base.Decimal.{ℤ, IsI64, parse_usize, parse_usize-lt, parse_i64-IsI64}
use rustytorrent.Metainfo.Bencode.{
  BencodeValue, Items, Fields, Parsed, parsed, refused, starved, ◌>>=◌, wrap, pure, until, bytes,
  list, dict, item, field, parse_int, int_of, has_leading_zero, split_at, parse_bytes, kind_of,
  is_end, is_too_deep, follows, parse_value_depth, parse_list, parse_dict, to_bytes, parse_value,
}
use rustytorrent.Metainfo.Bencode.Totality.{of_kind}
use rustytorrent.Metainfo.Bencode.Validity.{
  height, items_height, fields_height, IsValid, ItemsAreValid, FieldsAreValid,
}
use rustytorrent.Metainfo.Bencode.RoundTrip.{parse_value-to_bytes}

-- The property holds of the value, if there is one.
abbrev pub Holds {ℓ κ} : {A : Type ℓ} → (A → Type κ) → Parsed A → Type κ
Holds P (parsed a rest) = P a
Holds P refused = Unit
Holds P starved = Unit

Holds-bind {ℓ κ μ} :
    {A : Type ℓ} {B : Type κ} (Q : A → Type μ) (P : B → Type μ) (p : Parsed A)
    (k : A → List ℕ → Parsed B)
    → Holds Q p
    → ((a : A) (rest : List ℕ) → Q a → Holds P (k a rest))
    → Holds P (p >>= k)
Holds-bind Q P (parsed a rest) k h next = next a rest h
Holds-bind Q P refused k h next = tt
Holds-bind Q P starved k h next = tt

Holds-wrap {ℓ κ μ} :
    {A : Type ℓ} {B : Type κ} (Q : A → Type μ) (P : B → Type μ) (g : A → B) (p : Parsed A)
    → Holds Q p
    → ((a : A) → Q a → P (g a))
    → Holds P (wrap g p)
Holds-wrap Q P g (parsed a rest) h next = next a h
Holds-wrap Q P g refused h next = tt
Holds-wrap Q P g starved h next = tt

Holds-pure {ℓ κ} :
    {A : Type ℓ} (P : A → Type κ) (o : Option A) (rest : List ℕ)
    → ((a : A) → o ≡ some a → P a)
    → Holds P (pure o rest)
Holds-pure P none rest h = tt
Holds-pure P (some a) rest h = h a refl

Holds-any {ℓ} : {A : Type ℓ} (p : Parsed A) → Holds (λ a. Unit {0}) p
Holds-any (parsed a rest) = tt
Holds-any refused = tt
Holds-any starved = tt

int_of-IsI64 : (ds : List ℕ) (i : ℤ) → int_of ds ≡ some i → IsI64 i
unfolding int_of
int_of-IsI64 ds i h = elim (Bool-cases (has_leading_zero ds)) [
  | inl e ↦ let bad = rw e at h in cc
  | inr e ↦ parse_i64-IsI64 ds i (rw e at h)
]

split_at-Holds : (n : ℕ) (xs : List ℕ) → n < 2 ^ 64 → Holds (λ b. length b < 2 ^ 64) (split_at n xs)
unfolding split_at
split_at-Holds n xs h = elim (Bool-cases (ltb (length xs) n)) [
  | inl e ↦ rw (Holds, e) tt
  | inr e ↦ rw (Holds, e) (omega (arith, length-take n xs))
]

parse_bytes-Holds : (xs : List ℕ) → Holds (λ b. length b < 2 ^ 64) (parse_bytes xs)
unfolding parse_bytes
parse_bytes-Holds xs =
    Holds-bind (λ _. Unit) _ (until 58 xs) _ (Holds-any (until 58 xs))
      λ digits rest _.
        Holds-bind (λ n. n < 2 ^ 64) _ _ _
          (Holds-pure _ (parse_usize digits) rest λ n e. parse_usize-lt digits n e)
          λ n r h. split_at-Holds n r h

-- A valid value that can stand inside `depth` containers.
abbrev ValueFits : ℕ → BencodeValue → Type 0
ValueFits depth v = IsValid v × (depth + height v ≤ 100)

parse_int-Holds : (xs : List ℕ) (depth : ℕ) → depth ≤ 100 → Holds (ValueFits depth) (parse_int xs)
unfolding parse_int IsValid height
parse_int-Holds xs depth s =
    Holds-bind (λ _. Unit) _ (until 101 (drop 1 xs)) _ (Holds-any _)
      λ digits rest _.
        Holds-bind IsI64 _ _ _ (Holds-pure _ (int_of digits) rest λ i e. int_of-IsI64 digits i e)
          λ i r h. (h, omega arith)

shallow_of : (depth : ℕ) → is_too_deep depth ≡ false → depth ≤ 100
unfolding is_too_deep
shallow_of depth h = ground arith

abbrev ItemsFit : ℕ → Items → Type 0
ItemsFit depth xs = ItemsAreValid xs × (depth + items_height xs ≤ 100)

abbrev FieldsFit : ℕ → Option (List ℕ) → Fields → Type 0
FieldsFit depth previous fs = FieldsAreValid fs previous × (depth + fields_height fs ≤ 100)

mutual
  unfolding parse_value_depth IsValid height

  value-Fits :
      (f : ℕ) (input : List ℕ) (depth : ℕ)
      → Holds (ValueFits depth) (parse_value_depth f input depth)
  value-Fits zero input depth = tt
  value-Fits (suc f) [] depth = tt
  value-Fits (suc f) (c ∷ rest) depth =
      let P = ValueFits depth in
      of_kind (Holds P) (is_too_deep depth) (kind_of c) _ _ _ _ tt
        (λ e. parse_int-Holds (c ∷ rest) depth (shallow_of depth e))
        (λ e. Holds-wrap _ P list _ (list-Fits f rest depth (shallow_of depth e)) λ xs h. h)
        (λ e. Holds-wrap _ P dict _ (dict-Fits f rest depth none (shallow_of depth e)) λ fs h. h)
        (λ e.
          Holds-wrap (λ b. length b < 2 ^ 64) P bytes _ (parse_bytes-Holds (c ∷ rest))
            λ b h. (h, (let s = shallow_of depth e in omega arith)))

  list-Fits :
      (f : ℕ) (input : List ℕ) (depth : ℕ)
      → depth ≤ 100
      → Holds (ItemsFit depth) (parse_list f input depth)
  list-Fits zero input depth s = tt
  list-Fits (suc f) [] depth s = tt
  list-Fits (suc f) (c ∷ rest) depth s =
      let P = ItemsFit depth in
      of_test (Holds P) (is_end c) _ _ (λ e. (tt, omega arith))
        λ e.
          Holds-bind (ValueFits (suc depth)) P _ _ (value-Fits f (c ∷ rest) (suc depth)) λ v r hv.
            Holds-wrap (ItemsFit depth) P (item v) _ (list-Fits f r depth s)
              λ xs hs. ((hv.0, hs.0), omega arith)

  dict-Fits :
      (f : ℕ) (input : List ℕ) (depth : ℕ) (previous : Option (List ℕ))
      → depth ≤ 100
      → Holds (FieldsFit depth previous) (parse_dict f input depth previous)
  dict-Fits zero input depth previous s = tt
  dict-Fits (suc f) [] depth previous s = tt
  dict-Fits (suc f) (c ∷ rest) depth previous s =
      let P = FieldsFit depth previous in
      of_test (Holds P) (is_end c) _ _ (λ e. (tt, omega arith))
        λ e.
          Holds-bind (λ b. length b < 2 ^ 64) P _ _ (parse_bytes-Holds (c ∷ rest))
            λ key r hk.
              of_test (Holds P) (follows previous key) _ _
                (λ ordered.
                  Holds-bind (ValueFits (suc depth)) P _ _ (value-Fits f r (suc depth)) λ v r' hv.
                    Holds-wrap (FieldsFit depth (some key)) P (field key v) _
                      (dict-Fits f r' depth (some key) s)
                      λ fs hs. ((hk, ordered, hv.0, hs.0), omega arith))
                (λ _. tt)

-- Whatever the parser accepts is valid: integers of 64 bits, lengths that fit a `usize`, strictly
-- increasing keys; and no value in it lies inside more than 100 containers, so that the innermost of
-- 101 nested ones is empty.
pub parse_value_sound :
    (input rest : List ℕ) (v : BencodeValue)
    → parse_value input ≡ parsed v rest
    → IsValid v × (height v ≤ 100)
unfolding parse_value
parse_value_sound input rest v h =
    let fits = value-Fits (2 * length input + 1) input 0 in
    let mine : ValueFits 0 v = rw h at fits in (mine.0, omega arith)

-- So printing what was parsed, in front of anything, and parsing it again gives the same value.
pub to_bytes-parse_value :
    (input rest rest' : List ℕ) (v : BencodeValue)
    → parse_value input ≡ parsed v rest
    → parse_value (to_bytes v ++ rest') ≡ parsed v rest'
to_bytes-parse_value input rest rest' v h =
    let s = parse_value_sound input rest v h in parse_value-to_bytes v rest' s.0 s.1
