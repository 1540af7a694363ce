-- ===== src/Metainfo/Torrent/Slices.antt =====
-- src/metainfo/torrent.rs: what an answer of the parser was made of.
pub mod Search
use rustytorrent.Base.{
  ℕ, zero, suc, ◌+◌, ◌-◌, ◌*◌, ◌≡◌, refl, sym, ap, ◌∙◌, ◌⊎◌, inl, inr, Bool, true, false, List, [],
  ◌∷◌, ◌++◌, Option, none, some, arith, ◌==◌, if◌then◌else◌, Bool-cases, is_empty, length,
  length-append, take, drop, append_assoc, append-nil, take-length_append, drop-length_append,
}
use rustytorrent.Base.Bytes.{bytes_eq, bytes_eq_comm}
use rustytorrent.Metainfo.Bencode.{
  BencodeValue, Fields, no_fields, field, int, bytes, list, dict, Parsed, parsed, refused, starved,
  ◌>>=◌, wrap, pure, until, int_of, is_end, is_too_deep, kind_of, follows, get, parse_int,
  parse_bytes, parse_value_depth, parse_list, parse_dict, parse_value, parse_all, skip_value,
}
use rustytorrent.Metainfo.Bencode.Totality.{of_kind}
use rustytorrent.Metainfo.Bencode.Slices.Values.{parse_value_slice}
use rustytorrent.Metainfo.Torrent.{info_key}
use rustytorrent.Metainfo.Torrent.File.{parse_bytes_inline, bytes_of, find_from, find_info_slice}

-- What a chain that gives a value went through.
pub bind_parsed :
    {A B : Type 0} (p : Parsed A) (k : A → List ℕ → Parsed B) (b : B) (r : List ℕ)
    → (p >>= k) ≡ parsed b r
    → (a : A) × (rest : List ℕ) × (p ≡ parsed a rest) × (k a rest ≡ parsed b r)
bind_parsed (parsed a rest) k b r h = (a, rest, refl, h)
bind_parsed refused k b r h = cc
bind_parsed starved k b r h = cc

-- The answers of `parse_int` are integers.
parse_int_other :
    (G : Type 0) (xs r : List ℕ) (v : BencodeValue)
    → (¬ ((i : _) × (int i ≡ v)))
    → parse_int xs ≡ parsed v r
    → G
unfolding parse_int
parse_int_other G xs r v other h =
    let (digits, rest, e, h1) =
      bind_parsed (until 101 (drop 1 xs)) (λ digits rest. wrap int (pure (int_of digits) rest)) v r
        h in
    let (i, rest', e', h2) =
      bind_parsed (pure (int_of digits) rest) (λ i rest. parsed (int i) rest) v r h1 in
    absurd (other (i, cc))

wrap_other :
    {A : Type 0} (G : Type 0) (g : A → BencodeValue) (p : Parsed A) (v : BencodeValue) (r : List ℕ)
    → ((a : A) → g a ≡ v → p ≡ parsed a r → G)
    → wrap g p ≡ parsed v r
    → G
wrap_other G g (parsed a rest) v r other h =
    let same : g a ≡ v = cc in let behind : rest ≡ r = cc in other a same (rw behind refl)
wrap_other G g refused v r other h = cc
wrap_other G g starved v r other h = cc

-- A string is read by `parse_bytes`, a dictionary by `parse_dict`.
pub bytes_parsed :
    (f c depth : ℕ) (xs k r : List ℕ)
    → parse_value_depth f (c ∷ xs) depth ≡ parsed (bytes k) r
    → parse_bytes (c ∷ xs) ≡ parsed k r
unfolding parse_value_depth
bytes_parsed zero c depth xs k r h = cc
bytes_parsed (suc f) c depth xs k r h =
    let G = parse_bytes (c ∷ xs) ≡ parsed k r in
    of_kind (λ p. p ≡ parsed (bytes k) r → G) (is_too_deep depth) (kind_of c) _ _ _ _ (λ h. cc)
      (λ _. parse_int_other G (c ∷ xs) r (bytes k) (λ (i, e). cc))
      (λ _. wrap_other G list (parse_list f xs depth) (bytes k) r λ a e. cc)
      (λ _. wrap_other G dict (parse_dict f xs depth none) (bytes k) r λ a e. cc)
      (λ _.
        wrap_other G bytes (parse_bytes (c ∷ xs)) (bytes k) r
          λ a e p. (let same : a ≡ k = cc in rw same at p))
      h

pub dict_parsed :
    (f c depth : ℕ) (xs r : List ℕ) (fs : Fields)
    → parse_value_depth f (c ∷ xs) depth ≡ parsed (dict fs) r
    → (g : ℕ) × (parse_dict g xs depth none ≡ parsed fs r)
unfolding parse_value_depth
dict_parsed zero c depth xs r fs h = cc
dict_parsed (suc f) c depth xs r fs h =
    let G = (g : ℕ) × (parse_dict g xs depth none ≡ parsed fs r) in
    of_kind (λ p. p ≡ parsed (dict fs) r → G) (is_too_deep depth) (kind_of c) _ _ _ _ (λ h. cc)
      (λ _. parse_int_other G (c ∷ xs) r (dict fs) (λ (i, e). cc))
      (λ _. wrap_other G list (parse_list f xs depth) (dict fs) r λ a e. cc)
      (λ _.
        wrap_other G dict (parse_dict f xs depth none) (dict fs) r
          λ a e p. (let same : a ≡ fs = cc in (f, rw same at p)))
      (λ _. wrap_other G bytes (parse_bytes (c ∷ xs)) (dict fs) r λ a e. cc) h

-- The entry at the head of what `parse_dict` reads.
pub entry_parsed :
    (f c depth : ℕ) (xs r0 : List ℕ) (previous : Option (List ℕ)) (fs : Fields)
    → is_end c ≡ false
    → parse_dict (suc f) (c ∷ xs) depth previous ≡ parsed fs r0
    → (key : List ℕ) × (behind : List ℕ) × (v : BencodeValue) × (rest : List ℕ) × (fs' : Fields)
      × (parse_bytes (c ∷ xs) ≡ parsed key behind)
      × (parse_value_depth f behind (suc depth) ≡ parsed v rest)
      × (parse_dict f rest depth (some key) ≡ parsed fs' r0)
      × (fs ≡ field key v fs')
unfolding parse_value_depth
entry_parsed f c depth xs r0 previous fs e h =
    let h0 = rw (parse_dict, e) at h in
    let (key, behind, k, h1) = bind_parsed (parse_bytes (c ∷ xs)) _ fs r0 h0 in
    elim (Bool-cases (follows previous key)) [
      | inr o ↦ let bad = rw o at h1 in cc
      | inl o ↦
          let h2 = rw o at h1 in
          let (v, rest, p, h3) = bind_parsed (parse_value_depth f behind (suc depth)) _ fs r0 h2 in
          let (fs', r, d, last) = bind_parsed (parse_dict f rest depth (some key)) _ fs r0 h3 in
          let same : r ≡ r0 = cc in (key, behind, v, rest, fs', k, p, rw same at d, cc)
    ]

pub parse_all-parsed :
    (xs r : List ℕ) (v : BencodeValue) → parse_all xs ≡ parsed v r → parse_value xs ≡ parsed v []
unfolding parse_all
parse_all-parsed xs r v h =
    let (w, rest, p, last) =
      bind_parsed (parse_value xs) (λ v rest. if is_empty rest then parsed v rest else refused) v r
        h in
    p ∙ of_last w rest last
  where
    of_last :
        (w : BencodeValue) (rest : List ℕ)
        → (if is_empty rest then parsed w rest else refused) ≡ parsed v r
        → parsed w rest ≡ parsed v []
    of_last w [] e = let same : w ≡ v = cc in rw same refl
    of_last w (x ∷ rest) e = cc
