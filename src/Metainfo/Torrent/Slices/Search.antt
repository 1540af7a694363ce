-- ===== src/Metainfo/Torrent/Slices/Search.antt =====
-- src/metainfo/torrent.rs: the search for the info dictionary and the parser read the same entry.
use rustytorrent.Base.{
  ℕ, zero, suc, ◌+◌, ◌-◌, ◌*◌, ◌≡◌, refl, sym, ap, ◌∙◌, inl, inr, Bool, true, false, List, [], ◌∷◌,
  ◌++◌, Option, none, some, arith, ◌==◌, if◌then◌else◌, Bool-cases, is_empty, length, length-append,
  take, drop, append_assoc, append-nil, take-length_append, drop-length_append,
}
use rustytorrent.Base.Bytes.{bytes_eq, bytes_eq_comm}
use rustytorrent.Metainfo.Bencode.{
  BencodeValue, Fields, field, int, bytes, list, dict, Parsed, parsed, refused, ◌>>=◌, is_end, get,
  parse_bytes, parse_value_depth, parse_dict, parse_value, skip_value,
}
use rustytorrent.Metainfo.Bencode.Slices.Values.{parse_value_slice}
use rustytorrent.Metainfo.Torrent.{info_key}
use rustytorrent.Metainfo.Torrent.File.{parse_bytes_inline, bytes_of, find_from, find_info_slice}
use rustytorrent.Metainfo.Torrent.Slices.{bind_parsed, bytes_parsed, dict_parsed, entry_parsed}

cut_at :
    (xs s r : List ℕ) (n : ℕ)
    → xs ≡ s ++ r
    → length xs - length r ≡ n
    → (take n xs ≡ s) × (drop n xs ≡ r)
cut_at xs s r n e count =
    let l = ap length e ∙ length-append s r in
    let same : n ≡ length s = omega (arith, l, count) in
    rw (same, e) (take-length_append s r, drop-length_append s r)

-- What `skip_value` skips is a slice that holds one value.
skip_value-slice :
    (xs r0 : List ℕ) (n : ℕ)
    → skip_value xs ≡ parsed n r0
    → (v : BencodeValue) × (s : List ℕ) × (r : List ℕ) × (parse_value xs ≡ parsed v r)
      × (xs ≡ s ++ r)
      × (take n xs ≡ s)
      × (drop n xs ≡ r)
      × (parse_value s ≡ parsed v [])
unfolding skip_value
skip_value-slice xs r0 n h =
    let (v, r, p, last) = bind_parsed (parse_value xs) _ n r0 h in
    let (s, e, own) = parse_value_slice (2 * length xs + 1) xs r 0 v (unfold parse_value in p) in
    let count : length xs - length r ≡ n = cc in
    let (front, back) = cut_at xs s r n e count in
    let alone = own [] in (v, s, r, p, e, front, back, rw append-nil at alone)

-- The key of an entry, as the loop over the entries reads it.
parse_bytes_inline-parsed :
    (xs k r : List ℕ) → parse_bytes_inline xs ≡ parsed k r → parse_value xs ≡ parsed (bytes k) []
unfolding parse_bytes_inline
parse_bytes_inline-parsed xs k r h =
    let (v, rest, p, last) =
      bind_parsed (parse_value xs) (λ v rest. if is_empty rest then bytes_of v else refused) k r
        h in
    p ∙ of_last v rest last
  where
    of_last :
        (v : BencodeValue) (rest : List ℕ)
        → (if is_empty rest then bytes_of v else refused) ≡ parsed k r
        → parsed v rest ≡ parsed (bytes k) []
    of_last (bytes b) [] e = let same : b ≡ k = cc in rw same refl
    of_last (int i) [] e = cc
    of_last (list xs) [] e = cc
    of_last (dict fs) [] e = cc
    of_last v (x ∷ rest) e = cc

key_slice :
    (c n : ℕ) (xs r0 r1 key key' behind : List ℕ)
    → skip_value (c ∷ xs) ≡ parsed n r0
    → parse_bytes_inline (take n (c ∷ xs)) ≡ parsed key' r1
    → parse_bytes (c ∷ xs) ≡ parsed key behind
    → (front : List ℕ) × (c ∷ xs ≡ front ++ behind) × (drop n (c ∷ xs) ≡ behind) × (key' ≡ key)
key_slice c n xs r0 r1 key key' behind skip inline k =
    let (w, front, r, read, cut, is_front, is_rest, alone) = skip_value-slice (c ∷ xs) r0 n skip in
    let inner = parse_bytes_inline-parsed (take n (c ∷ xs)) key' r1 inline in
    let inner' : parse_value front ≡ parsed (bytes key') [] = rw is_front at inner in
    let is_key : w ≡ bytes key' = cc in
    let whole : parse_value (c ∷ xs) ≡ parsed (bytes key') r = rw is_key at read in
    let outer =
      bytes_parsed (2 * length (c ∷ xs) + 1) c 0 xs key' r (unfold parse_value in whole) in
    let is_behind : r ≡ behind = cc in (front, rw is_behind at cut, rw is_behind at is_rest, cc)

value_slice :
    (f n depth : ℕ) (behind rest r0 : List ℕ) (v : BencodeValue)
    → parse_value_depth f behind depth ≡ parsed v rest
    → skip_value behind ≡ parsed n r0
    → (own : List ℕ) × (behind ≡ own ++ rest)
      × (take n behind ≡ own)
      × (drop n behind ≡ rest)
      × (parse_value own ≡ parsed v [])
value_slice f n depth behind rest r0 v p skip =
    let (s, e, whole) = parse_value_slice f behind rest depth v p in
    let read : parse_value behind ≡ parsed v rest = ap parse_value e ∙ whole rest in
    let (w, own, r, read', cut, is_own, is_rest, alone) = skip_value-slice behind r0 n skip in
    let is_v : w ≡ v = cc in
    let same : r ≡ rest = cc in (own, rw same at cut, is_own, rw same at is_rest, rw is_v at alone)

-- What a round of the search gives from the bytes behind the key, of which it takes `own`.
abbrev pub answer_of : ℕ → List ℕ → List ℕ → List ℕ → Parsed (List ℕ)
answer_of g key own rest = elim (bytes_eq key info_key) [
  | true ↦ parsed own rest
  | false ↦ find_from g rest
]

answer_of_eq :
    (g : ℕ) {k key a own b rest : List ℕ}
    → a ≡ own
    → b ≡ rest
    → k ≡ key
    → answer_of g k a b ≡ answer_of g key own rest
answer_of_eq g ea eb ek = rw (ea, eb, ek) refl

answer_here :
    (g : ℕ) (key own rest slice back : List ℕ)
    → bytes_eq key info_key ≡ true
    → answer_of g key own rest ≡ parsed slice back
    → (own ≡ slice) × (rest ≡ back)
answer_here g key own rest slice back e h = let here = rw (answer_of, e) at h in (cc, cc)

answer_later :
    (g : ℕ) (key own rest slice back : List ℕ)
    → bytes_eq key info_key ≡ false
    → answer_of g key own rest ≡ parsed slice back
    → find_from g rest ≡ parsed slice back
answer_later g key own rest slice back e h = rw (answer_of, e) at h

get-field :
    (key : List ℕ) (v : BencodeValue) (fs : Fields) (b : Bool)
    → bytes_eq key info_key ≡ b
    → get info_key (field key v fs) ≡ (if b then some v else get info_key fs)
unfolding get
get-field key v fs b e =
    let same : bytes_eq info_key key ≡ b = bytes_eq_comm info_key key ∙ e in rw same refl

find_from_end : (g c : ℕ) (xs : List ℕ) → (c == 101) ≡ true → find_from (suc g) (c ∷ xs) ≡ refused
unfolding find_from
find_from_end g c xs e = rw (find_from, e) refl

value_round :
    (f g depth : ℕ) (mid key' key behind rest slice back : List ℕ) (v : BencodeValue)
    → mid ≡ behind
    → key' ≡ key
    → parse_value_depth f behind depth ≡ parsed v rest
    → (skip_value mid >>= λ n _. answer_of g key' (take n mid) (drop n mid)) ≡ parsed slice back
    → (own : List ℕ) × (behind ≡ own ++ rest)
      × (parse_value own ≡ parsed v [])
      × (answer_of g key own rest ≡ parsed slice back)
value_round f g depth mid key' key behind rest slice back v same is_key p h =
    let (n, r0, skip, h1) =
      bind_parsed (skip_value mid) (λ n _. answer_of g key' (take n mid) (drop n mid)) slice back
        h in
    let skip' : skip_value behind ≡ parsed n r0 = ap skip_value (sym same) ∙ skip in
    let (own, cut, is_own, is_rest, alone) = value_slice f n depth behind rest r0 v p skip' in
    let front : take n mid ≡ own = ap (take n) same ∙ is_own in
    let end : drop n mid ≡ rest = ap (drop n) same ∙ is_rest in
    (own, cut, alone, sym (answer_of_eq g front end is_key) ∙ h1)

-- A round of the search over an entry that the parser reads.
find_from-entry :
    (f g c depth : ℕ) (xs key behind rest slice back : List ℕ) (v : BencodeValue)
    → (c == 101) ≡ false
    → parse_bytes (c ∷ xs) ≡ parsed key behind
    → parse_value_depth f behind depth ≡ parsed v rest
    → find_from (suc g) (c ∷ xs) ≡ parsed slice back
    → (front : List ℕ) × (own : List ℕ) × (c ∷ xs ≡ front ++ behind)
      × (behind ≡ own ++ rest)
      × (parse_value own ≡ parsed v [])
      × (answer_of g key own rest ≡ parsed slice back)
unfolding find_from
find_from-entry f g c depth xs key behind rest slice back v e k p h =
    let h0 = rw (find_from, e) at h in
    let (n, r0, skip, h1) = bind_parsed (skip_value (c ∷ xs)) _ slice back h0 in
    let (key', r1, inline, h2) =
      bind_parsed (parse_bytes_inline (take n (c ∷ xs))) _ slice back h1 in
    let (front, cut, is_behind, is_key) = key_slice c n xs r0 r1 key key' behind skip inline k in
    let (own, cut', alone, h3) =
      value_round f g depth (drop n (c ∷ xs)) key' key behind rest slice back v is_behind is_key p
        h2 in
    (front, own, cut, cut', alone, h3)

joined :
    {input behind rest : List ℕ} (front own front' last : List ℕ)
    → input ≡ front ++ behind
    → behind ≡ own ++ rest
    → rest ≡ front' ++ last
    → input ≡ (front ++ (own ++ front')) ++ last
joined front own front' last a b c =
    a
    ∙ ap (λ l. front ++ l) (b ∙ ap (λ l. own ++ l) c ∙ sym (append_assoc own front' last))
    ∙ sym (append_assoc front (own ++ front') last)

-- The search over the entries that the parser reads gives the bytes of the info value, as they
-- stand in the input.
pub find_from-parse_dict :
    (g f depth : ℕ) (input r0 slice back : List ℕ) (previous : Option (List ℕ)) (fs : Fields)
    → parse_dict f input depth previous ≡ parsed fs r0
    → find_from g input ≡ parsed slice back
    → (front : List ℕ) × (v : BencodeValue) × (input ≡ front ++ (slice ++ back))
      × (get info_key fs ≡ some v)
      × (parse_value slice ≡ parsed v [])
find_from-parse_dict zero f depth input r0 slice back previous fs d h = unfold find_from in cc
find_from-parse_dict (suc g) f depth [] r0 slice back previous fs d h = unfold find_from in cc
find_from-parse_dict (suc g) zero depth (c ∷ xs) r0 slice back previous fs d h =
    unfold parse_dict in cc
find_from-parse_dict (suc g) (suc f) depth (c ∷ xs) r0 slice back previous fs d h =
    elim (Bool-cases (c == 101)) [
      | inl e ↦ (let bad = find_from_end g c xs e in cc)
      | inr e ↦
          let (key, behind, v, rest, fs', k, p, more, is_fs) =
            entry_parsed f c depth xs r0 previous fs (unfold is_end in e) d in
          let (front, own, cut, cut', alone, answer) =
            find_from-entry f g c (suc depth) xs key behind rest slice back v e k p h in
          elim (Bool-cases (bytes_eq key info_key)) [
            | inl same ↦
                let (is_slice, is_back) = answer_here g key own rest slice back same answer in
                let inner = rw (is_slice, is_back) at cut' in
                (
                  front,
                  v,
                  cut ∙ ap (λ l. front ++ l) inner,
                  ap (get info_key) is_fs ∙ get-field key v fs' true same,
                  rw is_slice at alone,
                )
            | inr other ↦
                let later = answer_later g key own rest slice back other answer in
                let (front', w, inner, has, found) =
                  find_from-parse_dict g f depth rest r0 slice back (some key) fs' more later in
                (
                  front ++ (own ++ front'),
                  w,
                  joined front own front' (slice ++ back) cut cut' inner,
                  ap (get info_key) is_fs ∙ get-field key v fs' false other ∙ has,
                  found,
                )
          ]
    ]

-- The same for the whole input.
pub find_info_slice-parse_value :
    (input slice back : List ℕ) (fs : Fields)
    → parse_value input ≡ parsed (dict fs) []
    → find_info_slice input ≡ parsed slice back
    → (front : List ℕ) × (v : BencodeValue) × (input ≡ front ++ (slice ++ back))
      × (get info_key fs ≡ some v)
      × (parse_value slice ≡ parsed v [])
unfolding find_info_slice
find_info_slice-parse_value [] slice back fs p h = cc
find_info_slice-parse_value (c ∷ xs) slice back fs p h = elim (Bool-cases (c == 100)) [
  | inr e ↦ let bad = rw e at h in cc
  | inl e ↦
      let found = rw e at h in
      let (g, read) =
        dict_parsed (2 * length (c ∷ xs) + 1) c 0 xs [] fs (unfold parse_value in p) in
      let (front, v, cut, has, alone) =
        find_from-parse_dict (suc (length xs)) g 0 xs [] slice back none fs read found in
      (c ∷ front, v, ap (λ l. c ∷ l) cut, has, alone)
]
