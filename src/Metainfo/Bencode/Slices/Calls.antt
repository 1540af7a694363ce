-- ===== src/Metainfo/Bencode/Slices/Calls.antt =====
-- src/metainfo/bencode.rs: one call of the parser, on any fuel and at any smaller depth.
use rustytorrent.Base.{
  ℕ, zero, suc, ◌≤◌, ◌≡◌, refl, ◌⊎◌, inl, inr, Bool, true, false, List, ◌∷◌, Option, none, some,
  arith,
}
use rustytorrent.Metainfo.Bencode.{
  BencodeValue, Items, Fields, no_items, no_fields, Parsed, parsed, refused, starved, ◌>>=◌, wrap,
  bytes, list, dict, item, field, parse_int, parse_bytes, Kind, an_int, a_list, a_dict, a_string,
  unexpected, kind_of, is_end, is_too_deep, follows, parse_value_depth, parse_list, parse_dict,
}

-- The answer, unless the fuel ran out.
abbrev pub Gives : {A : Type 0} → A → List ℕ → Parsed A → Type 0
Gives a tail p = (p ≡ starved) ⊎ (p ≡ parsed a tail)

Gives-wrap :
    {A B : Type 0} (g : A → B) (a : A) (tail : List ℕ) (p : Parsed A)
    → Gives a tail p
    → Gives (g a) tail (wrap g p)
Gives-wrap g a tail p (inl e) = inl (rw e refl)
Gives-wrap g a tail p (inr e) = inr (rw e refl)

Gives-bind :
    {A B : Type 0} (a : A) (mid : List ℕ) (b : B) (tail : List ℕ) (p : Parsed A)
    (k : A → List ℕ → Parsed B)
    → Gives a mid p
    → Gives b tail (k a mid)
    → Gives b tail (p >>= k)
Gives-bind a mid b tail p k (inl e) h = inl (rw e refl)
Gives-bind a mid b tail p k (inr e) h = rw e h

-- At this depth or less, on any fuel.
abbrev pub IsValueOf : ℕ → BencodeValue → List ℕ → List ℕ → Type 0
IsValueOf depth v full tail = (f d : ℕ) → d ≤ depth → Gives v tail (parse_value_depth f full d)

abbrev pub AreItemsOf : ℕ → Items → List ℕ → List ℕ → Type 0
AreItemsOf depth xs full tail = (f d : ℕ) → d ≤ depth → Gives xs tail (parse_list f full d)

abbrev pub AreFieldsOf : ℕ → Option (List ℕ) → Fields → List ℕ → List ℕ → Type 0
AreFieldsOf depth previous fs full tail =
    (f d : ℕ) → d ≤ depth → Gives fs tail (parse_dict f full d previous)

shallower : (depth d : ℕ) → is_too_deep depth ≡ false → d ≤ depth → is_too_deep d ≡ false
unfolding is_too_deep
shallower depth d h le = ground arith

pub of_kind_eq :
    (P : Parsed BencodeValue → Type 0) (deep : Bool) (kind : Kind)
    (number items fields string : Parsed BencodeValue)
    → P refused
    → (deep ≡ false → kind ≡ an_int → P number)
    → (deep ≡ false → kind ≡ a_list → P items)
    → (deep ≡ false → kind ≡ a_dict → P fields)
    → (deep ≡ false → kind ≡ a_string → P string)
    → P (elim deep [
      | true ↦ refused
      | false ↦ elim kind [
        | an_int ↦ number
        | a_list ↦ items
        | a_dict ↦ fields
        | a_string ↦ string
        | unexpected ↦ refused
      ]
    ])
of_kind_eq P true kind n i f s r pn pi pf ps = r
of_kind_eq P false an_int n i f s r pn pi pf ps = pn refl refl
of_kind_eq P false a_list n i f s r pn pi pf ps = pi refl refl
of_kind_eq P false a_dict n i f s r pn pi pf ps = pf refl refl
of_kind_eq P false a_string n i f s r pn pi pf ps = ps refl refl
of_kind_eq P false unexpected n i f s r pn pi pf ps = r

-- One call of the parser, by what its first byte announces.
module _ (depth c : ℕ) (full tail : List ℕ) where
  pub int_value :
      (v : BencodeValue)
      → is_too_deep depth ≡ false
      → kind_of c ≡ an_int
      → parse_int (c ∷ full) ≡ parsed v tail
      → IsValueOf depth v (c ∷ full) tail
  unfolding parse_value_depth
  int_value v s k e zero d le = inl refl
  int_value v s k e (suc f) d le = rw (Gives, parse_value_depth, shallower depth d s le, k) (inr e)

  pub string_value :
      (b : List ℕ)
      → is_too_deep depth ≡ false
      → kind_of c ≡ a_string
      → parse_bytes (c ∷ full) ≡ parsed b tail
      → IsValueOf depth (bytes b) (c ∷ full) tail
  unfolding parse_value_depth
  string_value b s k e zero d le = inl refl
  string_value b s k e (suc f) d le =
      rw (Gives, parse_value_depth, shallower depth d s le, k, e) (inr refl)

  pub list_value :
      (xs : Items)
      → is_too_deep depth ≡ false
      → kind_of c ≡ a_list
      → AreItemsOf depth xs full tail
      → IsValueOf depth (list xs) (c ∷ full) tail
  unfolding parse_value_depth
  list_value xs s k h zero d le = inl refl
  list_value xs s k h (suc f) d le =
      rw (Gives, parse_value_depth, shallower depth d s le, k)
        (Gives-wrap list xs tail (parse_list f full d) (h f d le))

  pub dict_value :
      (fs : Fields)
      → is_too_deep depth ≡ false
      → kind_of c ≡ a_dict
      → AreFieldsOf depth none fs full tail
      → IsValueOf depth (dict fs) (c ∷ full) tail
  unfolding parse_value_depth
  dict_value fs s k h zero d le = inl refl
  dict_value fs s k h (suc f) d le =
      rw (Gives, parse_value_depth, shallower depth d s le, k)
        (Gives-wrap dict fs tail (parse_dict f full d none) (h f d le))

  pub items_end : is_end c ≡ true → full ≡ tail → AreItemsOf depth no_items (c ∷ full) tail
  unfolding parse_value_depth
  items_end e same zero d le = inl refl
  items_end e same (suc f) d le = rw (Gives, parse_list, e, same) (inr refl)

  pub fields_end :
      (previous : Option (List ℕ))
      → is_end c ≡ true
      → full ≡ tail
      → AreFieldsOf depth previous no_fields (c ∷ full) tail
  unfolding parse_value_depth
  fields_end previous e same zero d le = inl refl
  fields_end previous e same (suc f) d le = rw (Gives, parse_dict, e, same) (inr refl)

  pub items_more :
      (v : BencodeValue) (xs : Items) (mid : List ℕ)
      → is_end c ≡ false
      → IsValueOf (suc depth) v (c ∷ full) mid
      → AreItemsOf depth xs mid tail
      → AreItemsOf depth (item v xs) (c ∷ full) tail
  unfolding parse_value_depth
  items_more v xs mid e hv hs zero d le = inl refl
  items_more v xs mid e hv hs (suc f) d le =
      rw (Gives, parse_list, e)
        (Gives-bind v mid (item v xs) tail (parse_value_depth f (c ∷ full) (suc d)) _
          (hv f (suc d) (omega arith))
          (Gives-wrap (item v) xs tail (parse_list f mid d) (hs f d le)))

  pub fields_more :
      (previous : Option (List ℕ)) (key : List ℕ) (v : BencodeValue) (fs : Fields)
      (behind mid : List ℕ)
      → is_end c ≡ false
      → follows previous key ≡ true
      → parse_bytes (c ∷ full) ≡ parsed key behind
      → IsValueOf (suc depth) v behind mid
      → AreFieldsOf depth (some key) fs mid tail
      → AreFieldsOf depth previous (field key v fs) (c ∷ full) tail
  unfolding parse_value_depth
  fields_more previous key v fs behind mid e o k hv hs zero d le = inl refl
  fields_more previous key v fs behind mid e o k hv hs (suc f) d le =
      rw (Gives, parse_dict, e, k, ◌>>=◌, o)
        (Gives-bind v mid (field key v fs) tail (parse_value_depth f behind (suc d)) _
          (hv f (suc d) (omega arith))
          (Gives-wrap (field key v) fs tail (parse_dict f mid d (some key)) (hs f d le)))
