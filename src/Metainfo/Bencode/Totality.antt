-- ===== src/Metainfo/Bencode/Totality.antt =====
-- src/metainfo/bencode.rs: the parser ends on every input, and what it leaves is shorter.
use rustytorrent.Base.{
  ℕ, zero, suc, ◌+◌, ◌-◌, ◌*◌, ◌<◌, ◌≤◌, ◌≡◌, refl, inl, inr, Bool, true, false, List, [], ◌∷◌,
  Option, none, some, arith, ltb, ◌==◌, Bool-cases, length, length-drop, of_test,
}
use rustytorrent.Metainfo.Bencode.{
  BencodeValue, Parsed, parsed, refused, starved, ◌>>=◌, wrap, pure, until, int, bytes, list, dict,
  item, field, parse_int, int_of, split_at, parse_bytes, Kind, an_int, a_list, a_dict, a_string,
  unexpected, kind_of, is_end, is_too_deep, follows, parse_value_depth, parse_list, parse_dict,
  parse_value,
}

-- An answer that left at most `n` bytes of the input.
abbrev pub Leaves {ℓ} : {A : Type ℓ} → ℕ → Parsed A → Type 0
Leaves n (parsed a rest) = length rest ≤ n
Leaves n refused = Unit
Leaves n starved = ⊥

Leaves-wrap {ℓ κ} :
    {A : Type ℓ} {B : Type κ} (f : A → B) (p : Parsed A) (n : ℕ) → Leaves n p → Leaves n (wrap f p)
Leaves-wrap f (parsed a rest) n h = h
Leaves-wrap f refused n h = tt
Leaves-wrap f starved n h = h

Leaves-bind {ℓ κ} :
    {A : Type ℓ} {B : Type κ} (p : Parsed A) (k : A → List ℕ → Parsed B) (m n : ℕ)
    → Leaves m p
    → ((a : A) (rest : List ℕ) → length rest ≤ m → Leaves n (k a rest))
    → Leaves n (p >>= k)
Leaves-bind (parsed a rest) k m n h next = next a rest h
Leaves-bind refused k m n h next = tt
Leaves-bind starved k m n h next = h

Leaves-pure {ℓ} :
    {A : Type ℓ} (o : Option A) (rest : List ℕ) (n : ℕ) → length rest ≤ n → Leaves n (pure o rest)
Leaves-pure none rest n h = tt
Leaves-pure (some a) rest n h = h

Leaves-more {ℓ} : {A : Type ℓ} {m n : ℕ} (p : Parsed A) → Leaves m p → m ≤ n → Leaves n p
Leaves-more (parsed a rest) h le = omega arith
Leaves-more refused h le = tt
Leaves-more starved h le = h

until-Leaves : (b c : ℕ) (xs : List ℕ) → Leaves (length xs) (until b (c ∷ xs))
unfolding until
until-Leaves b c xs = elim (Bool-cases (c == b)) [
  | inl e ↦ rw (Leaves, e) (omega arith)
  | inr e ↦ rw (Leaves, e) (Leaves-bind (until b xs) _ (length xs) (length xs) (more xs) λ a r h. h)
]
  where
    more : (ys : List ℕ) → Leaves (length ys) (until b ys)
    more [] = tt
    more (y ∷ ys) = elim (Bool-cases (y == b)) [
      | inl e ↦ rw (Leaves, e) (omega arith)
      | inr e ↦
          rw (Leaves, e)
            (Leaves-bind (until b ys) _ (length ys) (suc (length ys)) (more ys)
              λ a r h. omega arith)
    ]

split_at-Leaves : (len : ℕ) (xs : List ℕ) → Leaves (length xs) (split_at len xs)
unfolding split_at
split_at-Leaves len xs = elim (Bool-cases (ltb (length xs) len)) [
  | inl e ↦ rw (Leaves, e) tt
  | inr e ↦ rw (Leaves, e) (omega (arith, length-drop len xs))
]

parse_int-Leaves : (c : ℕ) (xs : List ℕ) → Leaves (length xs) (parse_int (c ∷ xs))
unfolding parse_int
parse_int-Leaves c [] = unfold until in tt
parse_int-Leaves c (x ∷ xs) =
    Leaves-bind (until 101 (x ∷ xs)) _ (length xs) (suc (length xs)) (until-Leaves 101 x xs)
      λ digits r h. Leaves-wrap int _ _ (Leaves-pure (int_of digits) r _ (omega arith))

pub parse_bytes-Leaves : (c : ℕ) (xs : List ℕ) → Leaves (length xs) (parse_bytes (c ∷ xs))
unfolding parse_bytes
parse_bytes-Leaves c xs =
    Leaves-bind (until 58 (c ∷ xs)) _ (length xs) (length xs) (until-Leaves 58 c xs) λ digits r h.
      Leaves-bind (pure _ r) split_at (length r) (length xs) (Leaves-pure _ r _ (omega arith))
        λ len r' h'. Leaves-more _ (split_at-Leaves len r') (omega arith)

-- A property of every answer that a first byte can lead to holds of the one it leads to.
pub of_kind {ℓ} :
    (P : Parsed BencodeValue → Type ℓ) (deep : Bool) (kind : Kind)
    (number items fields string : Parsed BencodeValue)
    → P refused
    → (deep ≡ false → P number)
    → (deep ≡ false → P items)
    → (deep ≡ false → P fields)
    → (deep ≡ false → P string)
    → P (elim deep [
      | true ↦ refused
      | false ↦ elim kind [
        | an_int ↦ number
        | a_list ↦ items
        | a_dict ↦ fields
        | a_string ↦ string
        | unexpected ↦ refused
      ]
    ])
of_kind P true kind n i f s r pn pi pf ps = r
of_kind P false an_int n i f s r pn pi pf ps = pn refl
of_kind P false a_list n i f s r pn pi pf ps = pi refl
of_kind P false a_dict n i f s r pn pi pf ps = pf refl
of_kind P false a_string n i f s r pn pi pf ps = ps refl
of_kind P false unexpected n i f s r pn pi pf ps = r

mutual
  unfolding parse_value_depth

  -- A value takes at least one byte.
  pub value-Leaves :
      (f : ℕ) (input : List ℕ) (m depth : ℕ)
      → 2 * length input < f
      → length input ≤ suc m
      → Leaves m (parse_value_depth f input depth)
  value-Leaves zero input m depth h le = absurd (omega arith)
  value-Leaves (suc f) [] m depth h le = tt
  value-Leaves (suc f) (c ∷ rest) m depth h le =
      of_kind (Leaves m) (is_too_deep depth) (kind_of c) _ _ _ _ tt
        (λ _. Leaves-more _ (parse_int-Leaves c rest) (omega arith))
        (λ _. Leaves-wrap list _ _ (list-Leaves f rest m depth (omega arith) (omega arith)))
        (λ _. Leaves-wrap dict _ _ (dict-Leaves f rest m depth none (omega arith) (omega arith)))
        (λ _. Leaves-wrap bytes _ _ (Leaves-more _ (parse_bytes-Leaves c rest) (omega arith)))

  list-Leaves :
      (f : ℕ) (input : List ℕ) (m depth : ℕ)
      → 2 * length input + 1 < f
      → length input ≤ m
      → Leaves m (parse_list f input depth)
  list-Leaves zero input m depth h le = absurd (omega arith)
  list-Leaves (suc f) [] m depth h le = tt
  list-Leaves (suc f) (c ∷ rest) m depth h le =
      of_test (Leaves m) (is_end c) _ _ (λ _. omega arith)
        λ _.
          Leaves-bind (parse_value_depth f (c ∷ rest) (suc depth)) _ (length rest) m
            (value-Leaves f (c ∷ rest) (length rest) (suc depth) (omega arith) (omega arith))
            λ v r le'.
              Leaves-wrap (item v) _ _ (list-Leaves f r m depth (omega arith) (omega arith))

  dict-Leaves :
      (f : ℕ) (input : List ℕ) (m depth : ℕ) (previous : Option (List ℕ))
      → 2 * length input + 1 < f
      → length input ≤ m
      → Leaves m (parse_dict f input depth previous)
  dict-Leaves zero input m depth previous h le = absurd (omega arith)
  dict-Leaves (suc f) [] m depth previous h le = tt
  dict-Leaves (suc f) (c ∷ rest) m depth previous h le =
      of_test (Leaves m) (is_end c) _ _ (λ _. omega arith)
        λ _.
          Leaves-bind (parse_bytes (c ∷ rest)) _ (length rest) m (parse_bytes-Leaves c rest)
            λ key r le'.
              of_test (Leaves m) (follows previous key) _ _
                (λ _.
                  Leaves-bind (parse_value_depth f r (suc depth)) _ (length r) m
                    (value-Leaves f r (length r) (suc depth) (omega arith) (omega arith))
                    λ v r' le''.
                      Leaves-wrap (field key v) _ _
                        (dict-Leaves f r' m depth (some key) (omega arith) (omega arith)))
                (λ _. tt)

-- Parsing ends on every input, with a value and the rest of the input, which is at least one byte
-- shorter, or with an error: the fuel, twice the length of the input, never runs out.
pub parse_value_ends : (input : List ℕ) → Leaves (length input - 1) (parse_value input)
unfolding parse_value
parse_value_ends input =
    value-Leaves (2 * length input + 1) input (length input - 1) 0 (omega arith) (omega arith)
