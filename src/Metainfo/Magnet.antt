-- ===== src/Metainfo/Magnet.antt =====
-- src/magnet.rs: magnet links. A URI is the list of its bytes.
pub mod Limits
use rustytorrent.Base.{
  ℕ, suc, ◌+◌, ◌-◌, ◌*◌, ◌/◌, ◌%◌, ◌^◌, Bool, true, false, ◌&&◌, List, [], ◌∷◌, ◌++◌, Option, none,
  some, leb, ◌==◌, if◌then◌else◌, length, is_empty, take, bit_or,
}
use rustytorrent.Base.Bytes.{bytes_eq}
use rustytorrent.Base.Text.{is_utf8}
use rustytorrent.Base.Outcome.{Error, Result, ok, err, ◌>>=◌}
use rustytorrent.Storage.Paths.{contains}

pub record MagnetLink : Type 0 where
  pub info_hash : List ℕ
  pub display_name : Option (List ℕ)
  pub trackers : List (List ℕ)

abbrev pub max_trackers : ℕ
max_trackers = 64

-- "magnet:?", "urn:btih:", "xt", "dn" and "tr".
abbrev pub magnet_prefix : List ℕ
magnet_prefix = 109 ∷ 97 ∷ 103 ∷ 110 ∷ 101 ∷ 116 ∷ 58 ∷ 63 ∷ []

abbrev pub btih_prefix : List ℕ
btih_prefix = 117 ∷ 114 ∷ 110 ∷ 58 ∷ 98 ∷ 116 ∷ 105 ∷ 104 ∷ 58 ∷ []

abbrev pub xt_key : List ℕ
xt_key = 120 ∷ 116 ∷ []

abbrev pub dn_key : List ℕ
dn_key = 100 ∷ 110 ∷ []

abbrev pub tr_key : List ℕ
tr_key = 116 ∷ 114 ∷ []

-- `strip_prefix`.
unfoldable pub strip_prefix : List ℕ → List ℕ → Result (List ℕ)
strip_prefix [] s = ok s
strip_prefix (p ∷ ps) [] = err Error.bencode
strip_prefix (p ∷ ps) (c ∷ s) =
    let rest = strip_prefix ps s in if c == p then rest else err Error.bencode

abbrev prepend : ℕ → List (List ℕ) → List (List ℕ)
prepend c [] = (c ∷ []) ∷ []
prepend c (s ∷ ss) = (c ∷ s) ∷ ss

-- `split('&')`.
unfoldable pub split : List ℕ → List (List ℕ)
split [] = [] ∷ []
split (c ∷ s) = let rest = split s in if c == 38 then [] ∷ rest else prepend c rest

-- `split_once('=')`.
unfoldable pub split_once : List ℕ → Result (List ℕ × List ℕ)
split_once [] = err Error.bencode
split_once (c ∷ s) =
    let rest = split_once s >>= λ (k, v). ok (c ∷ k, v) in if c == 61 then ok ([], s) else rest

unfoldable pub hex_nibble : ℕ → Result ℕ
hex_nibble c =
    if leb 48 c && leb c 57
    then ok (c - 48)
    else if leb 97 c && leb c 102
    then ok (10 + c - 97)
    else if leb 65 c && leb c 70
    then ok (10 + c - 65)
    else err Error.bencode

-- `(hi << 4) | lo`.
unfoldable pub hex_byte : ℕ → ℕ → Result ℕ
unfolding hex_nibble
hex_byte a b = hex_nibble a >>= λ hi. hex_nibble b >>= λ lo. ok (bit_or (hi * 16 % 256) lo)

-- The loop over the pairs of digits, of which there are 20.
unfoldable pub parse_hex_20 : List ℕ → Result (List ℕ)
unfolding hex_byte
parse_hex_20 (a ∷ b ∷ s) = hex_byte a b >>= λ x. parse_hex_20 s >>= λ xs. ok (x ∷ xs)
parse_hex_20 _ = ok []

unfoldable pub base32_digit : ℕ → Result ℕ
base32_digit c =
    if leb 65 c && leb c 90
    then ok (c - 65)
    else if leb 97 c && leb c 122
    then ok (c - 97)
    else if leb 50 c && leb c 55
    then ok (26 + (c - 50))
    else err Error.bencode

-- The loop, with the bits that have not left yet. A shift of a `u32` drops what leaves it.
unfoldable pub base32_from : ℕ → ℕ → List ℕ → Result (List ℕ)
unfolding base32_digit
base32_from bit_buf bits [] = ok []
base32_from bit_buf bits (c ∷ s) = base32_digit c >>= λ v.
    let next_buf = bit_or (bit_buf * 32 % 2 ^ 32) v in
    elim (leb 8 (bits + 5)) [
      | true ↦ base32_from next_buf (bits + 5 - 8) s >>= λ xs.
          ok (next_buf / 2 ^ (bits + 5 - 8) % 256 ∷ xs)
      | false ↦ base32_from next_buf (bits + 5) s
    ]

unfoldable pub parse_base32_20 : List ℕ → Result (List ℕ)
unfolding base32_from
parse_base32_20 s =
    base32_from 0 0 s >>= λ out. if length out == 20 then ok out else err Error.bencode

unfoldable pub parse_info_hash : List ℕ → Result (List ℕ)
unfolding parse_hex_20 parse_base32_20
parse_info_hash s =
    if length s == 40
    then parse_hex_20 s
    else if length s == 32
    then parse_base32_20 s
    else err Error.bencode

unfoldable pub percent_decode : List ℕ → Result (List ℕ)
unfolding hex_byte
percent_decode [] = ok []
percent_decode (b ∷ []) = if b == 37 then err Error.bencode else ok (b ∷ [])
percent_decode (b ∷ x ∷ []) = elim (b == 37) [
  | true ↦ err Error.bencode
  | false ↦ percent_decode (x ∷ []) >>= λ xs. ok (b ∷ xs)
]
percent_decode (b ∷ x ∷ y ∷ s) = elim (b == 37) [
  | true ↦ hex_byte x y >>= λ c. percent_decode s >>= λ xs. ok (c ∷ xs)
  | false ↦ percent_decode (x ∷ y ∷ s) >>= λ xs. ok (b ∷ xs)
]

unfoldable pub text : List ℕ → Result (List ℕ)
unfolding is_utf8
text b = if is_utf8 b then ok b else err Error.bencode

-- The variables of the loop over the parameters.
pub record Params : Type 0 where
  pub info_hash : Option (List ℕ)
  pub display_name : Option (List ℕ)
  pub trackers : List (List ℕ)

unfoldable pub set_hash : Params → List ℕ → Result Params
unfolding text strip_prefix parse_info_hash
set_hash p decoded = text decoded >>= λ s. strip_prefix btih_prefix s >>= λ h.
    parse_info_hash h >>= λ hash.
    ok (record { info_hash = some hash; display_name = p.display_name; trackers = p.trackers })

unfoldable pub set_name : Params → List ℕ → Result Params
unfolding text
set_name p decoded = text decoded >>= λ s.
    ok (record { info_hash = p.info_hash; display_name = some s; trackers = p.trackers })

unfoldable pub add_tracker : Params → List ℕ → Result Params
unfolding text
add_tracker p decoded = text decoded >>= λ s. ok (record {
  info_hash = p.info_hash;
  display_name = p.display_name;
  trackers = p.trackers ++ s ∷ [];
})

unfoldable pub set_param : Params → List ℕ → List ℕ → Result Params
unfolding bytes_eq set_hash set_name add_tracker
set_param p k decoded =
    if bytes_eq k xt_key
    then set_hash p decoded
    else if bytes_eq k dn_key
    then set_name p decoded
    else if bytes_eq k tr_key
    then add_tracker p decoded
    else ok p

-- The body of the loop.
unfoldable pub read_pair : Params → List ℕ → Result Params
unfolding split_once percent_decode set_param
read_pair p pair = elim (is_empty pair) [
  | true ↦ ok p
  | false ↦ split_once pair >>= λ (k, v). percent_decode v >>= λ decoded. set_param p k decoded
]

unfoldable pub read_pairs : Params → List (List ℕ) → Result Params
unfolding read_pair
read_pairs p [] = ok p
read_pairs p (pair ∷ pairs) = read_pair p pair >>= λ q. read_pairs q pairs

-- `retain` with the set of what was seen.
unfoldable pub retain_new : List (List ℕ) → List (List ℕ) → List (List ℕ)
unfolding contains
retain_new seen [] = []
retain_new seen (t ∷ ts) = elim (contains seen t) [
  | true ↦ retain_new seen ts
  | false ↦ t ∷ retain_new (t ∷ seen) ts
]

unfoldable pub link_of : Params → Result MagnetLink
unfolding retain_new
link_of p = elim p.info_hash [
  | none ↦ err Error.bencode
  | some hash ↦ ok (record {
    info_hash = hash;
    display_name = p.display_name;
    trackers = take max_trackers (retain_new [] p.trackers);
  })
]

unfoldable pub parse : List ℕ → Result MagnetLink
unfolding strip_prefix split read_pairs link_of
parse uri = strip_prefix magnet_prefix uri >>= λ query.
    read_pairs (record { info_hash = none; display_name = none; trackers = [] }) (split query)
    >>= link_of
