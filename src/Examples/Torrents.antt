-- ===== src/Examples/Torrents.antt =====
-- src/metainfo/torrent.rs: the theorems at a small torrent.
use rustytorrent.Base.{
  ℕ, ◌≤◌, ◌≡◌, refl, ap, ◌∙◌, false, List, [], ◌∷◌, ◌++◌, none, some, arith, take, replicate,
}
use rustytorrent.Base.Text.{is_utf8, utf8_from, followers}
use rustytorrent.Base.Bytes.{bytes_eq}
use rustytorrent.Base.Decimal.{pos, parse_usize, parse_i64}
use rustytorrent.Base.Outcome.{ok}
use rustytorrent.Storage.Paths.{
  normal, contains, is_windows_reserved, to_ascii_lowercase, trim_end, stem,
}
use rustytorrent.Storage.Split.{components, components_from, named, segments, contains_byte}
use rustytorrent.Storage.Layout.{Info, single, total_length, Layout, from_torrent}
use rustytorrent.Metainfo.Bencode.{
  BencodeValue, Fields, int, bytes, dict, no_fields, field, parsed, to_bytes, get, found, as_int,
  as_bytes, as_dict, follows, bytes_lt, parse_value, is_too_deep, kind_of, is_end, parse_bytes,
  parse_int,
}
use rustytorrent.Base.Text.{codes}
use rustytorrent.Metainfo.Bencode.Text.{as_str}
use rustytorrent.Metainfo.Bencode.Validity.{height, IsValid}
use rustytorrent.Metainfo.Torrent.{
  announce_key, info_key, name_key, length_key, piece_length_key, pieces_key, from_value, name_from,
  is_unsafe_path_component, ensure, to_u64, length_field, chunks, files_from, private_from,
  piece_length_from, hashes_from, div_ceil,
}
use rustytorrent.Metainfo.Torrent.Checks.{IsSound, from_value-IsSound}
use rustytorrent.Metainfo.Torrent.File.{
  TorrentFile, of_result, announce_from, announce_list_from, file_from_value, from_bytes,
  from_info_dict_bytes,
}
use rustytorrent.Metainfo.Torrent.Hashing.{
  from_bytes-to_bytes, from_bytes_ends, from_info_dict_bytes-from_bytes,
}
use rustytorrent.Metainfo.Torrent.Layouts.{from_value-from_torrent}
use rustytorrent.Metainfo.Torrent.Location.{HasEnded}

abbrev piece_hash : List ℕ
piece_hash = replicate 20 7

-- {"length": 3, "name": "a", "piece length": 4, "pieces": one hash}
abbrev info_value : BencodeValue
info_value = dict (
    field length_key (int (pos 3)) (
      field name_key (bytes (97 ∷ []))
        (field piece_length_key (int (pos 4)) (field pieces_key (bytes piece_hash) no_fields))))

abbrev info : Info
info = record {
  name = normal (97 ∷ []) ∷ [];
  piece_length = 4;
  piece_hashes = piece_hash ∷ [];
  files = single 3;
  private = false;
}

info_accepted : from_value info_value ≡ ok info
unfolding from_value as_dict name_from get bytes_eq found as_str as_bytes is_utf8 utf8_from
    followers is_unsafe_path_component contains_byte ensure piece_length_from length_field as_int
    to_u64 hashes_from chunks files_from private_from total_length div_ceil components
    components_from segments named
info_accepted = refl

from_value-IsSound_example : IsSound info
from_value-IsSound_example = from_value-IsSound info_value info info_accepted

no_device : is_windows_reserved (97 ∷ []) ≡ false
unfolding is_windows_reserved contains bytes_eq stem trim_end to_ascii_lowercase
no_device = refl

from_value-from_torrent_example : (l : Layout) × (from_torrent [] info ≡ ok l)
from_value-from_torrent_example =
    from_value-from_torrent info_value info [] info_accepted (no_device, tt) tt

-- {"announce": "t", "info": the value above}
abbrev root_fields : Fields
root_fields = field announce_key (bytes (116 ∷ [])) (field info_key info_value no_fields)

root_has : get info_key root_fields ≡ some info_value
unfolding get bytes_eq
root_has = refl

root-IsValid : IsValid (dict root_fields)
unfolding IsValid follows bytes_lt
root-IsValid = (
  omega arith,
  refl,
  omega arith,
  (
    omega arith,
    refl,
    (
      omega arith,
      refl,
      omega arith,
      (
        omega arith,
        refl,
        omega arith,
        (omega arith, refl, omega arith, (omega arith, refl, omega arith, tt)),
      ),
    ),
    tt,
  ),
)

root_shallow : height (dict root_fields) ≤ 100
unfolding height
root_shallow = omega arith

-- A digest for the examples: the first 20 bytes.
abbrev digest : List ℕ → List ℕ
digest bs = take 20 (bs ++ replicate 20 0)

abbrev torrent : TorrentFile
torrent = record {
  info_hash = digest (to_bytes info_value);
  announce = some (116 ∷ []);
  announce_list = [];
  info = info;
}

torrent_read : file_from_value (dict root_fields) torrent.info_hash ≡ ok torrent
unfolding file_from_value announce_from announce_list_from from_value as_dict name_from get bytes_eq
    found as_str as_bytes is_utf8 utf8_from followers is_unsafe_path_component contains_byte ensure
    piece_length_from length_field as_int to_u64 hashes_from chunks files_from private_from
    total_length div_ceil components components_from segments named
torrent_read = refl

torrent_accepted : from_bytes digest (to_bytes (dict root_fields)) ≡ parsed torrent []
torrent_accepted =
    from_bytes-to_bytes digest root_fields info_value root_has root-IsValid root_shallow
    ∙ ap of_result torrent_read

-- A file whose length has a sign and the length of whose name has a zero in front, so that a
-- printing of its info value is not what stands in the file.
abbrev spelled : List ℕ
spelled =
    codes "d4:infod6:lengthi+3e4:name01:a12:piece lengthi4e6:pieces20:"
    ++ (piece_hash ++ codes "ee")

abbrev spelled_info : List ℕ
spelled_info =
    codes "d6:lengthi+3e4:name01:a12:piece lengthi4e6:pieces20:" ++ (piece_hash ++ codes "e")

abbrev spelled_torrent : TorrentFile
spelled_torrent = record {
  info_hash = digest spelled_info;
  announce = none;
  announce_list = [];
  info = info;
}

spelled_accepted : from_bytes digest spelled ≡ parsed spelled_torrent []
unfolding from_bytes file_from_value announce_from announce_list_from from_value as_dict name_from
    get bytes_eq found as_str as_bytes is_utf8 utf8_from followers is_unsafe_path_component
    contains_byte ensure piece_length_from length_field as_int to_u64 hashes_from chunks files_from
    private_from total_length div_ceil components components_from segments named is_too_deep kind_of
    is_end parse_bytes parse_usize follows parse_int parse_i64
spelled_accepted = refl

from_info_dict_bytes-from_bytes_example :
    (fs : Fields) × (v : BencodeValue) × (front : List ℕ) × (slice : List ℕ) × (back : List ℕ)
    × (parse_value spelled ≡ parsed (dict fs) [])
    × (get info_key fs ≡ some v)
    × (spelled ≡ front ++ (slice ++ back))
    × (parse_value slice ≡ parsed v [])
    × (spelled_torrent.info_hash ≡ digest slice)
    × (from_info_dict_bytes digest slice spelled_torrent.info_hash []
        ≡ parsed
            (record {
              info_hash = spelled_torrent.info_hash;
              announce = none;
              announce_list = [];
              info = info;
            })
            [])
from_info_dict_bytes-from_bytes_example =
    from_info_dict_bytes-from_bytes digest spelled [] spelled_torrent [] spelled_accepted

from_bytes_ends_example :
    HasEnded (from_bytes digest (100 ∷ []))
    × HasEnded (from_info_dict_bytes digest (100 ∷ []) (digest []) [])
from_bytes_ends_example = from_bytes_ends digest (100 ∷ []) (digest []) []
