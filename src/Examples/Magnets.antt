-- ===== src/Examples/Magnets.antt =====
-- src/magnet.rs: the theorem at a small link.
use rustytorrent.Base.{ℕ, ◌≡◌, refl, List, [], ◌∷◌, ◌++◌, none, replicate}
use rustytorrent.Base.Bytes.{bytes_eq}
use rustytorrent.Base.Text.{is_utf8, utf8_from, followers}
use rustytorrent.Base.Outcome.{ok}
use rustytorrent.Storage.Paths.{contains}
use rustytorrent.Metainfo.Magnet.{
  MagnetLink, magnet_prefix, btih_prefix, parse, strip_prefix, split, read_pairs, read_pair,
  split_once, percent_decode, hex_byte, hex_nibble, set_param, set_hash, add_tracker, text,
  parse_info_hash, parse_hex_20, link_of, retain_new,
}
use rustytorrent.Metainfo.Magnet.Limits.{IsLimited, parse-IsLimited}

-- "magnet:?xt=urn:btih:" with forty digits "a", and the tracker "%74" twice.
abbrev uri : List ℕ
uri =
    magnet_prefix
    ++ 120 ∷ 116 ∷ 61 ∷ btih_prefix
    ++ replicate 40 97
    ++ 38 ∷ 116 ∷ 114 ∷ 61 ∷ 37 ∷ 55 ∷ 52 ∷ 38 ∷ 116 ∷ 114 ∷ 61 ∷ 116 ∷ []

abbrev link : MagnetLink
link = record { info_hash = replicate 20 170; display_name = none; trackers = (116 ∷ []) ∷ [] }

uri_accepted : parse uri ≡ ok link
unfolding parse strip_prefix split read_pairs read_pair split_once percent_decode hex_byte
    hex_nibble set_param set_hash add_tracker text parse_info_hash parse_hex_20 link_of retain_new
    bytes_eq contains is_utf8 utf8_from followers
uri_accepted = refl

parse-IsLimited_example : IsLimited link
parse-IsLimited_example = parse-IsLimited uri link uri_accepted
