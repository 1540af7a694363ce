-- ===== src/Metainfo/Bencode/Slices/Values.antt =====
-- src/metainfo/bencode.rs: a value is read off its own bytes, at whatever depth they stand.
use rustytorrent.Base.{
  ℕ, zero, suc, ◌+◌, ◌*◌, ◌≡◌, refl, inl, inr, true, false, List, [], ◌∷◌, ◌++◌, Option, none, some,
  arith, length, of_test,
}
use rustytorrent.Metainfo.Bencode.Totality.{Leaves, parse_value_ends}
use rustytorrent.Metainfo.Bencode.{
  BencodeValue, Fields, no_items, no_fields, parsed, refused, ◌>>=◌, wrap, bytes, list, dict, item,
  field, parse_int, parse_bytes, kind_of, is_end, is_too_deep, follows, parse_value_depth,
  parse_list, parse_dict, parse_value,
}
use rustytorrent.Metainfo.Bencode.Slices.{
  Spans, Repeats, RepeatsMore, Repeats-RepeatsMore, Repeats-cons, Repeats-uncons, Repeats-wrap,
  Repeats-cons_wrap, RepeatsMore-wrap, Repeats-bind, Repeats-bind_more,
}
use rustytorrent.Metainfo.Bencode.Slices.Tokens.{parse_int-RepeatsMore, parse_bytes-RepeatsMore}
use rustytorrent.Metainfo.Bencode.Slices.Calls.{
  AreFieldsOf, AreItemsOf, Gives, IsValueOf, dict_value, fields_end, fields_more, int_value,
  items_end, items_more, list_value, of_kind_eq, string_value,
}

-- A list or a dictionary that ends here.
end-RepeatsMore :
    {A : Type 0} (c : ℕ) (rest : List ℕ) (P : A → List ℕ → List ℕ → Type 0) (a : A)
    → ((tail : List ℕ) → P a (c ∷ tail) tail)
    → RepeatsMore (c ∷ rest) P (parsed a rest)
end-RepeatsMore c rest P a h = ([], refl, h)

-- The entry of this key, and those behind it.
entry-Repeats :
    (f c : ℕ) (r : List ℕ) (depth : ℕ) (previous : Option (List ℕ)) (key : List ℕ)
    → is_end c ≡ false
    → Repeats r (IsValueOf (suc depth)) (parse_value_depth f r (suc depth))
    → ((r' : List ℕ) → Repeats r' (AreFieldsOf depth (some key)) (parse_dict f r' depth (some key)))
    → Repeats r
        (λ fs behind tail.
          (full : List ℕ)
          → parse_bytes (c ∷ full) ≡ parsed key behind
          → AreFieldsOf depth previous fs (c ∷ full) tail)
        (elim (follows previous key) [
          | false ↦ refused
          | true ↦ parse_value_depth f r (suc depth) >>= λ v r.
              wrap (field key v) (parse_dict f r depth (some key))
        ])
entry-Repeats f c r depth previous key e value entries =
    let P : Fields → List ℕ → List ℕ → Type 0 = λ fs behind tail.
      (full : List ℕ)
      → parse_bytes (c ∷ full) ≡ parsed key behind
      → AreFieldsOf depth previous fs (c ∷ full) tail in
    of_test (Repeats r P) (follows previous key) _ _
      (λ o.
        Repeats-bind r (IsValueOf (suc depth)) P (parse_value_depth f r (suc depth)) _ value λ v r'.
          Repeats-wrap r' (AreFieldsOf depth (some key))
            (λ fs mid tail.
              (behind : List ℕ) → IsValueOf (suc depth) v behind mid → P fs behind tail)
            (field key v) (parse_dict f r' depth (some key)) (entries r')
            λ fs mid tail hs behind hv full hk.
              fields_more depth c full tail previous key v fs behind mid e o hk hv hs)
      (λ _. tt)

value-Repeats_of :
    (f : ℕ) (input : List ℕ) (depth : ℕ)
    → ((c : ℕ) (rest : List ℕ)
        → RepeatsMore (c ∷ rest) (IsValueOf depth) (parse_value_depth f (c ∷ rest) depth))
    → Repeats input (IsValueOf depth) (parse_value_depth f input depth)
unfolding parse_value_depth
value-Repeats_of zero input depth h = tt
value-Repeats_of (suc f) [] depth h = tt
value-Repeats_of (suc f) (c ∷ rest) depth h =
    Repeats-RepeatsMore (c ∷ rest) (IsValueOf depth) _ (h c rest)

mutual
  unfolding parse_value_depth

  value-RepeatsMore :
      (f c : ℕ) (rest : List ℕ) (depth : ℕ)
      → RepeatsMore (c ∷ rest) (IsValueOf depth) (parse_value_depth f (c ∷ rest) depth)
  value-RepeatsMore zero c rest depth = tt
  value-RepeatsMore (suc f) c rest depth =
      let P = IsValueOf depth in
      of_kind_eq (RepeatsMore (c ∷ rest) P) (is_too_deep depth) (kind_of c) _ _ _ _ tt
        (λ s k.
          Repeats-cons c rest (λ v full tail. parse_int (c ∷ full) ≡ parsed v tail) P
            (parse_int (c ∷ rest))
            (Repeats-uncons c rest (λ v full tail. parse_int full ≡ parsed v tail) _
              (parse_int-RepeatsMore c rest))
            λ v full tail. int_value depth c full tail v s k)
        (λ s k.
          Repeats-cons_wrap c rest (AreItemsOf depth) P list (parse_list f rest depth)
            (list-Repeats f rest depth) λ xs full tail. list_value depth c full tail xs s k)
        (λ s k.
          Repeats-cons_wrap c rest (AreFieldsOf depth none) P dict (parse_dict f rest depth none)
            (dict-Repeats f rest depth none) λ fs full tail. dict_value depth c full tail fs s k)
        (λ s k.
          RepeatsMore-wrap c rest (λ b full tail. parse_bytes full ≡ parsed b tail) P bytes
            (parse_bytes (c ∷ rest)) (parse_bytes-RepeatsMore c rest)
            λ b full tail. string_value depth c full tail b s k)

  list-Repeats :
      (f : ℕ) (input : List ℕ) (depth : ℕ)
      → Repeats input (AreItemsOf depth) (parse_list f input depth)
  list-Repeats zero input depth = tt
  list-Repeats (suc f) [] depth = tt
  list-Repeats (suc f) (c ∷ rest) depth =
      let P = AreItemsOf depth in
      of_test (Repeats (c ∷ rest) P) (is_end c) _ _
        (λ e.
          Repeats-RepeatsMore (c ∷ rest) P (parsed no_items rest)
            (end-RepeatsMore c rest P no_items λ tail. items_end depth c tail tail e refl))
        λ e. Repeats-RepeatsMore (c ∷ rest) P _ (
          Repeats-bind_more c rest (IsValueOf (suc depth)) P
            (parse_value_depth f (c ∷ rest) (suc depth)) _ (value-RepeatsMore f c rest (suc depth))
            λ v r.
              Repeats-wrap r (AreItemsOf depth)
                (λ xs mid tail.
                  (full : List ℕ) → IsValueOf (suc depth) v (c ∷ full) mid → P xs (c ∷ full) tail)
                (item v) (parse_list f r depth) (list-Repeats f r depth)
                λ xs mid tail hs full hv. items_more depth c full tail v xs mid e hv hs)

  dict-Repeats :
      (f : ℕ) (input : List ℕ) (depth : ℕ) (previous : Option (List ℕ))
      → Repeats input (AreFieldsOf depth previous) (parse_dict f input depth previous)
  dict-Repeats zero input depth previous = tt
  dict-Repeats (suc f) [] depth previous = tt
  dict-Repeats (suc f) (c ∷ rest) depth previous =
      let P = AreFieldsOf depth previous in
      of_test (Repeats (c ∷ rest) P) (is_end c) _ _
        (λ e.
          Repeats-RepeatsMore (c ∷ rest) P (parsed no_fields rest) (
            end-RepeatsMore c rest P no_fields
              λ tail. fields_end depth c tail tail previous e refl))
        λ e. Repeats-RepeatsMore (c ∷ rest) P _ (
          Repeats-bind_more c rest (λ b full tail. parse_bytes full ≡ parsed b tail) P
            (parse_bytes (c ∷ rest)) _ (parse_bytes-RepeatsMore c rest)
            λ key r.
              entry-Repeats f c r depth previous key e
                (value-Repeats_of f r (suc depth)
                  λ c' rest'. value-RepeatsMore f c' rest' (suc depth))
                (λ r'. dict-Repeats f r' depth (some key)))

-- What a value is read off, whatever stands around it, and at whatever smaller depth: the parser
-- gives the same value for its own bytes.
pub parse_value_slice :
    (f : ℕ) (input rest : List ℕ) (depth : ℕ) (v : BencodeValue)
    → parse_value_depth f input depth ≡ parsed v rest
    → Spans input rest (λ full tail. parse_value full ≡ parsed v tail)
unfolding parse_value
parse_value_slice f input rest depth v h =
    let all : Repeats input (IsValueOf depth) (parse_value_depth f input depth) =
      value-Repeats_of f input depth λ c xs. value-RepeatsMore f c xs depth in
    let (s, e, own) : Spans input rest (IsValueOf depth v) = rw h at all in
    (s, e, λ tail. ended (s ++ tail) tail (own tail (2 * length (s ++ tail) + 1) 0 (omega arith)))
  where
    ended :
        (full tail : List ℕ)
        → Gives v tail (parse_value_depth (2 * length full + 1) full 0)
        → parse_value full ≡ parsed v tail
    ended full tail (inr e) = e
    ended full tail (inl e) =
        let leaves : Leaves _ (parse_value full) = parse_value_ends full in
        let bad : ⊥ = rw e at leaves in absurd bad
