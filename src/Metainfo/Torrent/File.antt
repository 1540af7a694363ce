-- ===== src/Metainfo/Torrent/File.antt =====
-- src/metainfo/torrent.rs: a torrent file from its bytes, with the hash of its info dictionary.
use rustytorrent.Base.{
  ℕ, zero, suc, true, false, not, List, [], ◌∷◌, ◌++◌, Option, none, some, ◌==◌, if◌then◌else◌,
  length, is_empty, take, drop,
}
use rustytorrent.Base.Bytes.{bytes_eq}
use rustytorrent.Base.Outcome
use rustytorrent.Base.Outcome.{Error, Result, ok, err}
use rustytorrent.Storage.Paths.{contains}
use rustytorrent.Storage.Layout
use rustytorrent.Storage.Layout.{Info}
use rustytorrent.Metainfo.Bencode.{
  BencodeValue, Items, Fields, no_items, item, int, bytes, list, dict, Parsed, parsed, refused,
  starved, ◌>>=◌, as_list, as_dict, get, found, parse_value, parse_all, skip_value,
}
use rustytorrent.Metainfo.Bencode.Text.{as_str}
use rustytorrent.Metainfo.Torrent.{announce_key, announce_list_key, info_key, from_value}

pub record TorrentFile : Type 0 where
  pub info_hash : List ℕ
  pub announce : Option (List ℕ)
  pub announce_list : List (List (List ℕ))
  pub info : Info

-- `TorrentFile::total_length` and `num_pieces`.
unfoldable pub total_length : TorrentFile → Result ℕ
unfolding Layout.total_length
total_length t = Layout.total_length t.info.files

unfoldable pub num_pieces : TorrentFile → ℕ
num_pieces t = length t.info.piece_hashes

unfoldable pub announce_from : Fields → Result (Option (List ℕ))
unfolding get as_str
announce_from d = elim (get announce_key d) [
  | none ↦ ok none
  | some v ↦ Outcome.◌>>=◌ (as_str v) λ s. ok (some s)
]

-- The loops over the tiers and over the addresses of a tier.
unfoldable pub urls_from : Items → Result (List (List ℕ))
unfolding as_str
urls_from no_items = ok []
urls_from (item u us) =
    Outcome.◌>>=◌ (as_str u) λ s. Outcome.◌>>=◌ (urls_from us) λ rest. ok (s ∷ rest)

unfoldable pub tiers_from : Items → Result (List (List (List ℕ)))
unfolding as_list urls_from
tiers_from no_items = ok []
tiers_from (item tier tiers) = Outcome.◌>>=◌ (as_list tier) λ urls.
    Outcome.◌>>=◌ (urls_from urls) λ row. Outcome.◌>>=◌ (tiers_from tiers) λ rest. ok (row ∷ rest)

unfoldable pub announce_list_from : Fields → Result (List (List (List ℕ)))
unfolding get as_list tiers_from
announce_list_from d = elim (get announce_list_key d) [
  | none ↦ ok []
  | some v ↦ Outcome.◌>>=◌ (as_list v) tiers_from
]

-- `TorrentFile::from_value`.
unfoldable pub file_from_value : BencodeValue → List ℕ → Result TorrentFile
unfolding as_dict announce_from announce_list_from get found from_value
file_from_value root info_hash = Outcome.◌>>=◌ (as_dict root) λ d.
    Outcome.◌>>=◌ (announce_from d) λ announce.
      Outcome.◌>>=◌ (announce_list_from d) λ announce_list.
        Outcome.◌>>=◌ (found (get info_key d)) λ info_v. Outcome.◌>>=◌ (from_value info_v) λ info.
          ok (record {
            info_hash = info_hash;
            announce = announce;
            announce_list = announce_list;
            info = info;
          })

-- A result as the answer of a parser that has read its input; a refusal does not tell an error
-- from a panic.
abbrev pub of_result {ℓ} : {A : Type ℓ} → Result A → Parsed A
of_result (ok a) = parsed a []
of_result (err e) = refused

abbrev pub bytes_of : BencodeValue → Parsed (List ℕ)
bytes_of (bytes b) = parsed b []
bytes_of (int i) = refused
bytes_of (list xs) = refused
bytes_of (dict fs) = refused

unfoldable pub parse_bytes_inline : List ℕ → Parsed (List ℕ)
unfolding parse_value
parse_bytes_inline input =
    parse_value input >>= λ v rest. if is_empty rest then bytes_of v else refused

-- The loop over the entries, where `input` stands behind the cursor. Each round consumes bytes, so
-- the input's length is fuel enough.
unfoldable pub find_from : ℕ → List ℕ → Parsed (List ℕ)
unfolding skip_value parse_bytes_inline bytes_eq
find_from zero input = starved
find_from (suc f) [] = refused
find_from (suc f) (c ∷ input) = elim (c == 101) [
  | true ↦ refused
  | false ↦ skip_value (c ∷ input) >>= λ key_len _.
      parse_bytes_inline (take key_len (c ∷ input)) >>= λ key _.
      let rest = drop key_len (c ∷ input) in
      skip_value rest >>= λ value_len _. elim (bytes_eq key info_key) [
        | true ↦ parsed (take value_len rest) (drop value_len rest)
        | false ↦ find_from f (drop value_len rest)
      ]
]

unfoldable pub find_info_slice : List ℕ → Parsed (List ℕ)
unfolding find_from
find_info_slice [] = refused
find_info_slice (c ∷ input) = if c == 100 then find_from (suc (length input)) input else refused

-- The addresses of a tier that are new, in order, behind those that are known.
unfoldable pub add_urls : List (List ℕ) → List (List ℕ) → List (List ℕ)
unfolding contains
add_urls out [] = out
add_urls out (u ∷ us) = add_urls (if contains out u then out else out ++ u ∷ []) us

unfoldable pub add_tiers : List (List ℕ) → List (List (List ℕ)) → List (List ℕ)
unfolding add_urls
add_tiers out [] = out
add_tiers out (tier ∷ tiers) = add_tiers (add_urls out tier) tiers

-- The source's test on `announce` is the one of the loops.
unfoldable pub trackers : TorrentFile → List (List ℕ)
unfolding add_urls add_tiers
trackers t =
    let out = add_tiers [] t.announce_list in
    elim t.announce [ none ↦ out | some a ↦ add_urls out (a ∷ []) ]

unfoldable pub from_info : List ℕ → List (List ℕ) → BencodeValue → Result TorrentFile
unfolding from_value
from_info info_hash urls v = Outcome.◌>>=◌ (from_value v) λ info. ok (record {
  info_hash = info_hash;
  announce = none;
  announce_list = if is_empty urls then [] else urls ∷ [];
  info = info;
})

module _ (sha1 : List ℕ → List ℕ) where
  unfoldable pub compute_info_hash : List ℕ → Parsed (List ℕ)
  unfolding find_info_slice
  compute_info_hash input = find_info_slice input >>= λ slice rest. parsed (sha1 slice) rest

  unfoldable pub from_bytes : List ℕ → Parsed TorrentFile
  unfolding parse_all compute_info_hash file_from_value
  from_bytes input = parse_all input >>= λ root _.
      compute_info_hash input >>= λ hash _. of_result (file_from_value root hash)

  unfoldable pub from_info_dict_bytes : List ℕ → List ℕ → List (List ℕ) → Parsed TorrentFile
  unfolding bytes_eq parse_all from_info
  from_info_dict_bytes info_bytes info_hash urls =
      if not (bytes_eq (sha1 info_bytes) info_hash)
      then refused
      else (parse_all info_bytes >>= λ v _. of_result (from_info info_hash urls v))
