-- ===== src/Metainfo/Torrent/Hashing.antt =====
-- src/metainfo/torrent.rs: a torrent file as a whole, and the info dictionary that a magnet brings.
use rustytorrent.Base.{
  ℕ, suc, ◌≤◌, ◌≡◌, refl, sym, ap, ◌∙◌, inl, inr, not, List, [], ◌∷◌, ◌++◌, Option, none, some,
  arith, if◌then◌else◌, Bool-cases, is_empty, of_if,
}
use rustytorrent.Base.Bytes.{bytes_eq, bytes_eq_refl}
use rustytorrent.Base.Outcome.{Result, ok, err, Holds, Holds-bind, Holds-after, Holds-self}
use rustytorrent.Metainfo.Bencode.{
  BencodeValue, Fields, no_fields, field, int, bytes, list, dict, parsed, refused, as_dict, get,
  found, to_bytes, parse_value, parse_all,
}
use rustytorrent.Storage.Layout.{Info}
use rustytorrent.Metainfo.Bencode.Totality.{parse_value_ends}
use rustytorrent.Metainfo.Bencode.Validity.{height, fields_height, IsValid, FieldsAreValid}
use rustytorrent.Metainfo.Bencode.RoundTrip.{parse_all-to_bytes}
use rustytorrent.Metainfo.Torrent.Slices.{bind_parsed, parse_all-parsed}
use rustytorrent.Metainfo.Torrent.Slices.Search.{find_info_slice-parse_value}
use rustytorrent.Metainfo.Torrent.{info_key, from_value}
use rustytorrent.Metainfo.Torrent.Location.{
  HasEnded, HasEnded-bind, Leaves-HasEnded, find_info_slice_ends, find_info_slice-to_bytes,
}
use rustytorrent.Metainfo.Torrent.File.{
  TorrentFile, announce_from, announce_list_from, file_from_value, of_result, from_info,
  find_info_slice, compute_info_hash, from_bytes, from_info_dict_bytes,
}

get-IsValid :
    (key : List ℕ) (fs : Fields) (previous : Option (List ℕ)) (v : BencodeValue)
    → get key fs ≡ some v
    → FieldsAreValid fs previous
    → IsValid v × (suc (height v) ≤ fields_height fs)
unfolding get IsValid height
get-IsValid key no_fields previous v has valid = cc
get-IsValid key (field k w fs) previous v has valid = elim (Bool-cases (bytes_eq key k)) [
  | inl e ↦
      let here = rw e at has in
      let is_v : w ≡ v = cc in let mine = valid.2 in (rw is_v at mine, rw (sym is_v) (omega arith))
  | inr e ↦
      let ih = get-IsValid key fs (some k) v (rw e at has) valid.3 in
      let deep = ih.1 in (ih.0, omega arith)
]

-- What the file says of itself.
abbrev Reads : Fields → List ℕ → TorrentFile → Type 0
Reads fs hash t =
    (t.info_hash ≡ hash)
    × ((v : BencodeValue) × (found (get info_key fs) ≡ ok v) × (from_value v ≡ ok t.info))

file_from_value-Reads :
    (fs : Fields) (hash : List ℕ) → Holds (Reads fs hash) (file_from_value (dict fs) hash)
unfolding file_from_value as_dict
file_from_value-Reads fs hash = Holds-after (Reads fs hash) (announce_from fs) _ λ announce.
    Holds-after (Reads fs hash) (announce_list_from fs) _ λ tiers.
      Holds-bind (λ v. found (get info_key fs) ≡ ok v) (Reads fs hash) (found (get info_key fs)) _
        (Holds-self (found (get info_key fs)))
        λ v has.
          Holds-bind (λ t. from_value v ≡ ok t) (Reads fs hash) (from_value v) _
            (Holds-self (from_value v)) λ t e. (refl, (v, has, e))

parse_all-HasEnded : (input : List ℕ) → HasEnded (parse_all input)
unfolding parse_all
parse_all-HasEnded input =
    HasEnded-bind (parse_value input) (λ v rest. if is_empty rest then parsed v rest else refused)
      (Leaves-HasEnded _ (parse_value input) (parse_value_ends input))
      λ v rest e. of_if HasEnded (is_empty rest) (parsed v rest) refused (λ _. tt) (λ _. tt)

of_result-HasEnded {ℓ} : {A : Type ℓ} (r : Result A) → HasEnded (of_result r)
of_result-HasEnded (ok a) = tt
of_result-HasEnded (err e) = tt

file_from_value_dict :
    (root : BencodeValue) (hash : List ℕ) (t : TorrentFile) (r : List ℕ)
    → of_result (file_from_value root hash) ≡ parsed t r
    → (fs : Fields) × (root ≡ dict fs)
unfolding file_from_value as_dict
file_from_value_dict (dict fs) hash t r h = (fs, refl)
file_from_value_dict (int i) hash t r h = cc
file_from_value_dict (bytes b) hash t r h = cc
file_from_value_dict (list xs) hash t r h = cc

-- An accepted file's info is that of the value under `info`.
file_from_value-info :
    (fs : Fields) (hash : List ℕ) (t : TorrentFile) (r : List ℕ) (v : BencodeValue)
    → of_result (file_from_value (dict fs) hash) ≡ parsed t r
    → get info_key fs ≡ some v
    → (t.info_hash ≡ hash) × (from_value v ≡ ok t.info)
unfolding found
file_from_value-info fs hash t r v answers has =
    let (is_hash, (w, found_w, checked)) =
      of_answer (file_from_value (dict fs) hash) answers (file_from_value-Reads fs hash) in
    let is_w : w ≡ v = (let e = rw has at found_w in cc) in (is_hash, rw is_w at checked)
  where
    of_answer :
        (p : Result TorrentFile)
        → of_result p ≡ parsed t r
        → Holds (Reads fs hash) p
        → Reads fs hash t
    of_answer (ok a) e h = let same : a ≡ t = cc in rw same at h
    of_answer (err e) bad h = cc

module _ (sha1 : List ℕ → List ℕ) where
  -- Reading a file, or the info dictionary of a magnet, ends on every input.
  pub from_bytes_ends :
      (input hash : List ℕ) (urls : List (List ℕ))
      → HasEnded (from_bytes sha1 input) × HasEnded (from_info_dict_bytes sha1 input hash urls)
  unfolding from_bytes from_info_dict_bytes compute_info_hash
  from_bytes_ends input hash urls = (
    HasEnded-bind (parse_all input) _ (parse_all-HasEnded input) λ root r e.
        HasEnded-bind (compute_info_hash sha1 input) _
          (HasEnded-bind (find_info_slice input) _ (find_info_slice_ends input) λ slice r' e'. tt)
          λ h r' e'. of_result-HasEnded (file_from_value root h),
    of_if HasEnded (not (bytes_eq (sha1 input) hash)) _ _ (λ _. tt)
        λ _.
          HasEnded-bind (parse_all input) _ (parse_all-HasEnded input)
            λ v r e. of_result-HasEnded (from_info hash urls v),
  )

  pub from_bytes-to_bytes :
      (fs : Fields) (v : BencodeValue)
      → get info_key fs ≡ some v
      → IsValid (dict fs)
      → height (dict fs) ≤ 100
      → from_bytes sha1 (to_bytes (dict fs))
        ≡ of_result (file_from_value (dict fs) (sha1 (to_bytes v)))
  unfolding from_bytes compute_info_hash
  from_bytes-to_bytes fs v has valid deep =
      let (rest, slice) = find_info_slice-to_bytes fs v has valid deep in
      let whole = (parse_all-to_bytes (dict fs) [] valid deep).0 in rw (whole, slice) refl

  from_info_dict_bytes_accepts :
      (slice hash : List ℕ) (urls : List (List ℕ)) (v : BencodeValue) (info : Info)
      → parse_value slice ≡ parsed v []
      → hash ≡ sha1 slice
      → from_value v ≡ ok info
      → from_info_dict_bytes sha1 slice hash urls
        ≡ parsed
            (record {
              info_hash = hash;
              announce = none;
              announce_list = if is_empty urls then [] else urls ∷ [];
              info = info;
            })
            []
  unfolding from_info_dict_bytes parse_all from_info
  from_info_dict_bytes_accepts slice hash urls v info alone same checked =
      rw (same, bytes_eq_refl (sha1 slice), alone, checked) refl

  -- Take any bytes that are accepted as a torrent file, in whatever spelling of its lengths and
  -- integers. They are a dictionary that has a value under `info`, and a slice of them, as it
  -- stands in the input, parses to that value and nothing more; the info hash of the file is that
  -- of this slice, not of a printing of the value. And the slice, fetched through a magnet for that
  -- hash with any list of trackers, is accepted and gives the same info.
  pub from_info_dict_bytes-from_bytes :
      (input r : List ℕ) (t : TorrentFile) (urls : List (List ℕ))
      → from_bytes sha1 input ≡ parsed t r
      → (fs : Fields) × (v : BencodeValue) × (front : List ℕ) × (slice : List ℕ) × (back : List ℕ)
        × (parse_value input ≡ parsed (dict fs) [])
        × (get info_key fs ≡ some v)
        × (input ≡ front ++ (slice ++ back))
        × (parse_value slice ≡ parsed v [])
        × (t.info_hash ≡ sha1 slice)
        × (from_info_dict_bytes sha1 slice t.info_hash urls
            ≡ parsed
                (record {
                  info_hash = t.info_hash;
                  announce = none;
                  announce_list = if is_empty urls then [] else urls ∷ [];
                  info = t.info;
                })
                [])
  unfolding from_bytes compute_info_hash
  from_info_dict_bytes-from_bytes input r t urls h =
      let (root, r1, whole, h1) = bind_parsed (parse_all input) _ t r h in
      let (hash, r2, hashed, h2) = bind_parsed (compute_info_hash sha1 input) _ t r h1 in
      let (slice, back, found, last) =
        bind_parsed (find_info_slice input) (λ slice rest. parsed (sha1 slice) rest) hash r2
          hashed in
      let is_hash : sha1 slice ≡ hash = cc in
      let (fs, is_dict) = file_from_value_dict root hash t r h2 in
      let read = parse_all-parsed input r1 root whole in
      let read' : parse_value input ≡ parsed (dict fs) [] = rw is_dict at read in
      let (front, v, cut, has, alone) =
        find_info_slice-parse_value input slice back fs read' found in
      let (is_h, info) =
        file_from_value-info fs hash t r v
          (ap (λ w. of_result (file_from_value w hash)) (sym is_dict) ∙ h2) has in
      let own_hash : t.info_hash ≡ sha1 slice = is_h ∙ sym is_hash in
      (
        fs,
        v,
        front,
        slice,
        back,
        read',
        has,
        cut,
        alone,
        own_hash,
        from_info_dict_bytes_accepts slice t.info_hash urls v t.info alone own_hash info,
      )
