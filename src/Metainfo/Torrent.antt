-- ===== src/Metainfo/Torrent.antt =====
-- src/metainfo/torrent.rs: the typed view of a torrent file.
--
-- Each error is `Error::Bencode`; `Parsed` carries it where the parser runs. SHA-1, of the crate
-- `sha1`, is the parameter of what hashes. The types of the files are those of the layout.
pub mod Checks
pub mod File
pub mod Layouts
pub mod Hashing
pub mod Location
pub mod Slices
pub mod Trackers
use rustytorrent.Base.{
  ℕ, zero, suc, ◌+◌, ◌-◌, ◌*◌, ◌/◌, ◌%◌, ◌^◌, Bool, true, false, not, ◌&&◌, ◌||◌, List, [], ◌∷◌,
  ◌++◌, Option, none, some, leb, ◌==◌, if◌then◌else◌, length, is_empty, take, drop,
}
use rustytorrent.Base.Bytes.{bytes_eq}
use rustytorrent.Base.Decimal.{ℤ, pos, negsuc}
use rustytorrent.Base.Outcome.{Error, Result, ok, err, ◌>>=◌, ◌>>◌}
use rustytorrent.Storage.Paths.{PathBuf, join, contains}
use rustytorrent.Storage.Split.{contains_byte, components}
use rustytorrent.Storage.Layout.{FileEntry, TorrentFiles, single, multi, Info, total_length}
use rustytorrent.Metainfo.Bencode
use rustytorrent.Metainfo.Bencode.{
  BencodeValue, Items, Fields, no_items, item, bytes, Parsed, parsed, refused, starved, as_int,
  as_bytes, as_list, as_dict, get, found, parse_value, parse_all, skip_value,
}
use rustytorrent.Metainfo.Bencode.Text.{as_str}

-- The keys of the source: "announce", "announce-list", "info", "name" and so on.
abbrev pub announce_key : List ℕ
announce_key = 97 ∷ 110 ∷ 110 ∷ 111 ∷ 117 ∷ 110 ∷ 99 ∷ 101 ∷ []

abbrev pub announce_list_key : List ℕ
announce_list_key = announce_key ++ 45 ∷ 108 ∷ 105 ∷ 115 ∷ 116 ∷ []

abbrev pub info_key : List ℕ
info_key = 105 ∷ 110 ∷ 102 ∷ 111 ∷ []

abbrev pub name_key : List ℕ
name_key = 110 ∷ 97 ∷ 109 ∷ 101 ∷ []

abbrev pub pieces_key : List ℕ
pieces_key = 112 ∷ 105 ∷ 101 ∷ 99 ∷ 101 ∷ 115 ∷ []

abbrev pub length_key : List ℕ
length_key = 108 ∷ 101 ∷ 110 ∷ 103 ∷ 116 ∷ 104 ∷ []

abbrev pub piece_length_key : List ℕ
piece_length_key = 112 ∷ 105 ∷ 101 ∷ 99 ∷ 101 ∷ 32 ∷ length_key

abbrev pub private_key : List ℕ
private_key = 112 ∷ 114 ∷ 105 ∷ 118 ∷ 97 ∷ 116 ∷ 101 ∷ []

abbrev pub files_key : List ℕ
files_key = 102 ∷ 105 ∷ 108 ∷ 101 ∷ 115 ∷ []

abbrev pub path_key : List ℕ
path_key = 112 ∷ 97 ∷ 116 ∷ 104 ∷ []

abbrev pub max_piece_length : ℕ
max_piece_length = 2 ^ 30

unfoldable pub is_unsafe_path_component : List ℕ → Bool
unfolding bytes_eq contains_byte
is_unsafe_path_component s =
    is_empty s
    || (bytes_eq s (46 ∷ [])
        || (bytes_eq s (46 ∷ 46 ∷ []) || (contains_byte 47 s || contains_byte 92 s)))

-- `?` on a test that must hold.
unfoldable pub ensure : Bool → Result (Unit {0})
ensure true = ok tt
ensure false = err Error.bencode

-- `u64::try_from` on an `i64`.
unfoldable pub to_u64 : ℤ → Result ℕ
to_u64 (pos n) = ok n
to_u64 (negsuc n) = err Error.bencode

unfoldable pub length_field : List ℕ → Fields → Result ℕ
unfolding get found as_int to_u64
length_field key d = found (get key d) >>= λ v. as_int v >>= to_u64

-- `as_chunks::<20>().0`, the whole chunks in front.
unfoldable pub chunks : ℕ → List ℕ → List (List ℕ)
chunks zero xs = []
chunks (suc n) xs = take 20 xs ∷ chunks n (drop 20 xs)

-- The loop over the segments of a path.
unfoldable pub path_from : PathBuf → Items → Result PathBuf
unfolding as_str is_unsafe_path_component join components ensure
path_from p no_items = ok p
path_from p (item seg segs) = as_str seg >>= λ s.
    ensure (not (is_unsafe_path_component s)) >> path_from (join p (components s)) segs

unfoldable pub file_entry : BencodeValue → Result FileEntry
unfolding as_dict length_field get found as_list path_from
file_entry fv = as_dict fv >>= λ fd. length_field length_key fd >>= λ length.
    found (get path_key fd) >>= λ v.
    as_list v >>= λ segs. path_from [] segs >>= λ path. ok (record { length = length; path = path })

-- The loop over the entries.
unfoldable pub file_entries : Items → Result (List FileEntry)
unfolding file_entry
file_entries no_items = ok []
file_entries (item fv rest) = file_entry fv >>= λ e. file_entries rest >>= λ es. ok (e ∷ es)

unfoldable pub files_from : Fields → Result TorrentFiles
unfolding get as_list file_entries length_field
files_from d = elim (get files_key d) [
  | some v ↦ as_list v >>= λ xs. file_entries xs >>= λ es. ok (multi es)
  | none ↦ length_field length_key d >>= λ n. ok (single n)
]

unfoldable pub is_zero : ℤ → Bool
is_zero (pos n) = n == 0
is_zero (negsuc n) = false

unfoldable pub is_set : Result ℤ → Bool
unfolding is_zero
is_set (ok n) = not (is_zero n)
is_set (err e) = false

unfoldable pub private_from : Fields → Bool
unfolding get as_int is_set
private_from d = elim (get private_key d) [ some v ↦ is_set (as_int v) | none ↦ false ]

unfoldable pub name_from : Fields → Result (List ℕ)
unfolding get found as_str is_unsafe_path_component ensure
name_from d = found (get name_key d) >>= λ v.
    as_str v >>= λ name. ensure (not (is_unsafe_path_component name)) >> ok name

unfoldable pub piece_length_from : Fields → Result ℕ
unfolding length_field ensure
piece_length_from d = length_field piece_length_key d >>= λ n.
    ensure (not ((n == 0) || not (leb n max_piece_length))) >> ok n

unfoldable pub hashes_from : Fields → Result (List (List ℕ))
unfolding get found as_bytes ensure chunks
hashes_from d = found (get pieces_key d) >>= λ v.
    as_bytes v >>= λ raw. ensure (length raw % 20 == 0) >> ok (chunks (length raw / 20) raw)

-- `div_ceil` by a number that is not zero.
unfoldable pub div_ceil : ℕ → ℕ → ℕ
div_ceil a b = a / b + (if a % b == 0 then 0 else 1)

-- `Info::from_value`.
unfoldable pub from_value : BencodeValue → Result Info
unfolding as_dict name_from piece_length_from hashes_from private_from files_from total_length
    div_ceil ensure components
from_value v = as_dict v >>= λ d. name_from d >>= λ name. piece_length_from d >>= λ piece_length.
    hashes_from d >>= λ piece_hashes. files_from d >>= λ files. total_length files >>= λ total.
    ensure (not (total == 0))
    >> (ensure (length piece_hashes == div_ceil total piece_length)
        >> ok (record {
          name = components name;
          piece_length = piece_length;
          piece_hashes = piece_hashes;
          files = files;
          private = private_from d;
        }))
