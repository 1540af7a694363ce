-- ===== src/Storage/Layout/Acceptance.antt =====
-- src/storage/layout.rs: torrents with plain names are laid out.
use rustytorrent.Base.Bytes.{bytes_eq_refl}
use rustytorrent.Base.{
  ℕ, ◌+◌, ◌^◌, ◌<◌, ◌≡◌, ◌≢◌, refl, true, false, List, [], ◌∷◌, ◌++◌, arith, All, length,
}
use rustytorrent.Base.Outcome.{ok}
use rustytorrent.Storage.Paths.{
  Component, PathBuf, prefix, root_dir, cur_dir, parent_dir, normal, component_eq, join,
  starts_with, joined_under_root, ensure_safe_leaf_name, check_components,
  ensure_safe_relative_path, is_windows_reserved,
}
use rustytorrent.Storage.Layout.{
  FileSpan, FileEntry, Info, TorrentFiles, single, multi, Layout, sum_lengths, total_length,
  entry_spans, spans_of, from_torrent,
}
use rustytorrent.Storage.Layout.Contiguity.{IsPlain, checked_ok, checked_lt}

component_eq_refl : (c : Component) → component_eq c c ≡ true
unfolding component_eq
component_eq_refl (prefix a) = bytes_eq_refl a
component_eq_refl root_dir = refl
component_eq_refl cur_dir = refl
component_eq_refl parent_dir = refl
component_eq_refl (normal a) = bytes_eq_refl a

starts_with-append : (base rel : PathBuf) → starts_with (base ++ rel) base ≡ true
unfolding starts_with
starts_with-append [] rel = refl
starts_with-append (c ∷ base) rel = rw (component_eq_refl c) (starts_with-append base rel)

joined_under_root_plain :
    (base rel : PathBuf) → All IsPlain rel → joined_under_root base rel ≡ ok (base ++ rel)
unfolding joined_under_root join
joined_under_root_plain base [] h = rw (starts_with-append base []) refl
joined_under_root_plain base (normal part ∷ rel) h =
    rw (starts_with-append base (normal part ∷ rel)) refl
joined_under_root_plain base (prefix p ∷ rel) h = absurd h.0
joined_under_root_plain base (root_dir ∷ rel) h = absurd h.0
joined_under_root_plain base (cur_dir ∷ rel) h = absurd h.0
joined_under_root_plain base (parent_dir ∷ rel) h = absurd h.0

check_components_plain : (path : PathBuf) → All IsPlain path → check_components path ≡ ok tt
unfolding check_components
check_components_plain [] h = refl
check_components_plain (normal part ∷ path) h = rw h.0 (check_components_plain path h.1)
check_components_plain (prefix p ∷ path) h = absurd h.0
check_components_plain (root_dir ∷ path) h = absurd h.0
check_components_plain (cur_dir ∷ path) h = absurd h.0
check_components_plain (parent_dir ∷ path) h = absurd h.0

-- An entry with a path of plain names, at least one.
abbrev pub IsSafeEntry : FileEntry → Type 0
IsSafeEntry e = All IsPlain e.path × (e.path ≢ [])

abbrev pub AreSafe : TorrentFiles → Type 0
AreSafe (single n) = Unit
AreSafe (multi es) = All IsSafeEntry es

relative_path_safe :
    (path : PathBuf) → All IsPlain path → path ≢ [] → ensure_safe_relative_path path ≡ ok tt
unfolding ensure_safe_relative_path
relative_path_safe [] h n = absurd (n refl)
relative_path_safe (c ∷ path) h n = rw (check_components_plain (c ∷ path) h) refl

entry_spans_safe :
    (base : PathBuf) (offset : ℕ) (es : List FileEntry)
    → offset + sum_lengths es < 2 ^ 64
    → All IsSafeEntry es
    → (fs : List FileSpan) × (entry_spans base offset es ≡ ok fs)
unfolding entry_spans sum_lengths
entry_spans_safe base offset [] fits h = ([], refl)
entry_spans_safe base offset (e ∷ es) fits h =
    let (fs, rest) = entry_spans_safe base (offset + e.length) es (omega arith) h.1 in
    let next = checked_ok (offset + e.length) (omega arith) in
    (
      record { path = base ++ e.path; start = offset; length = e.length } ∷ fs,
      rw
          (
            relative_path_safe e.path h.0.0 h.0.1,
            joined_under_root_plain base e.path h.0.0,
            next,
            rest,
          )
          refl,
    )

spans_of_safe :
    (root : PathBuf) (part : List ℕ) (files : TorrentFiles) (total : ℕ)
    → is_windows_reserved part ≡ false
    → total_length files ≡ ok total
    → AreSafe files
    → (fs : List FileSpan) × (spans_of root (normal part ∷ []) files ≡ ok fs)
unfolding spans_of total_length
spans_of_safe root part (single n) total fine sum h = (
  record { path = root ++ normal part ∷ []; start = 0; length = n } ∷ [],
  rw (joined_under_root_plain root (normal part ∷ []) (fine, tt)) refl,
)
spans_of_safe root part (multi es) total fine sum h =
    let fits = (checked_lt (sum_lengths es) total sum).1 in
    entry_spans_safe (join root (normal part ∷ [])) 0 es (omega arith) h

-- A torrent with a plain name and plain paths whose lengths have a sum of 64 bits is accepted: the
-- check behind the joins never refuses what the checks of the names let through.
pub from_torrent_accepts :
    (root : PathBuf) (t : Info) (part : List ℕ) (total : ℕ)
    → t.name ≡ normal part ∷ []
    → is_windows_reserved part ≡ false
    → total_length t.files ≡ ok total
    → AreSafe t.files
    → (l : Layout) × (from_torrent root t ≡ ok l)
unfolding from_torrent ensure_safe_leaf_name
from_torrent_accepts root t part total is_name fine sum safe =
    let (fs, spans) = spans_of_safe root part t.files total fine sum safe in
    (
      record {
        root = root;
        files = fs;
        piece_length = t.piece_length;
        total_length = total;
        num_pieces = length t.piece_hashes;
      },
      rw (is_name, fine, spans, sum) refl,
    )
