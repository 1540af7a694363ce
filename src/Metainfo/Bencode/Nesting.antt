-- ===== src/Metainfo/Bencode/Nesting.antt =====
-- src/metainfo/bencode.rs: input that nests too deep is refused, however long it is.
use rustytorrent.Base.{
  ℕ, zero, suc, ◌+◌, ◌<◌, ◌≤◌, ◌≡◌, refl, ◌⊎◌, inl, inr, true, false, List, [], ◌∷◌, ◌++◌, arith,
  Bool-cases, replicate, subst,
}
use rustytorrent.Metainfo.Bencode.{
  BencodeValue, Parsed, refused, starved, ◌>>=◌, is_end, is_too_deep, kind_of, parse_value_depth,
  parse_list, parse_value,
}
use rustytorrent.Metainfo.Bencode.Totality.{Leaves, parse_value_ends}

abbrev GivesNothing {ℓ} : {A : Type ℓ} → Parsed A → Type ℓ
GivesNothing p = (p ≡ refused) ⊎ (p ≡ starved)

GivesNothing-bind {ℓ κ} :
    {A : Type ℓ} {B : Type κ} (p : Parsed A) (k : A → List ℕ → Parsed B)
    → GivesNothing p
    → GivesNothing (p >>= k)
GivesNothing-bind p k (inl e) = inl (rw e)
GivesNothing-bind p k (inr e) = inr (rw e)

deep_of : (depth : ℕ) → 100 < depth → is_too_deep depth ≡ true
unfolding is_too_deep
deep_of depth h = ground arith

shallow_of : (depth : ℕ) → is_too_deep depth ≡ false → depth ≤ 100
unfolding is_too_deep
shallow_of depth h = ground arith

list-GivesNothing :
    (f n depth : ℕ) (rest : List ℕ)
    → 0 < n
    → ((f' : ℕ) → GivesNothing (parse_value_depth f' (replicate n 108 ++ rest) (suc depth)))
    → GivesNothing (parse_list f (replicate n 108 ++ rest) depth)
unfolding parse_value_depth is_end
list-GivesNothing zero n depth rest p inner = inr refl
list-GivesNothing (suc f) zero depth rest p inner = absurd (omega arith)
list-GivesNothing (suc f) (suc n) depth rest p inner =
    GivesNothing-bind (parse_value_depth f (replicate (suc n) 108 ++ rest) (suc depth)) _ (inner f)

nested-GivesNothing :
    (f n depth : ℕ) (rest : List ℕ)
    → 101 < depth + n
    → GivesNothing (parse_value_depth f (replicate n 108 ++ rest) depth)
unfolding parse_value_depth kind_of is_end
nested-GivesNothing zero n depth rest h = inr refl
nested-GivesNothing (suc f) zero depth [] h = inl refl
nested-GivesNothing (suc f) zero depth (c ∷ rest) h =
    inl (rw (parse_value_depth, deep_of depth (omega arith)))
nested-GivesNothing (suc f) (suc n) depth rest h = elim (Bool-cases (is_too_deep depth)) [
  | inl deep ↦ inl (rw (parse_value_depth, deep))
  | inr fits ↦
      let below = shallow_of depth fits in
      rw (parse_value_depth, fits)
        (GivesNothing-bind (parse_list f (replicate n 108 ++ rest) depth) _ (
          list-GivesNothing f n depth rest (omega arith)
            (λ f'. nested-GivesNothing f' n (suc depth) rest (omega arith))))
]

-- Opening more than 101 lists is refused, whatever stands behind them.
pub parse_value_refuses :
    (n : ℕ) (rest : List ℕ) → 101 < n → parse_value (replicate n 108 ++ rest) ≡ refused
unfolding parse_value
parse_value_refuses n rest h =
    refused_of _ (parse_value_ends (replicate n 108 ++ rest))
      (nested-GivesNothing _ n 0 rest (omega arith))
  where
    refused_of : (m : ℕ) {p : Parsed BencodeValue} → Leaves m p → GivesNothing p → p ≡ refused
    refused_of m l (inl e) = e
    refused_of m l (inr e) = let never : ⊥ = subst (Leaves m) e l in absurd never
