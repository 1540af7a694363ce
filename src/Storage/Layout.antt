-- ===== src/Storage/Layout.antt =====
-- src/storage/layout.rs: which bytes of which file hold a range of the torrent.
-- A `u64` sum of lengths that a torrent file brings is `checked`: the builds of the source panic
-- where it overflows.
pub mod Ranges
pub mod Contiguity
pub mod Acceptance
pub mod Selection
pub mod Wanted
use rustytorrent.Base.{
  ℕ, zero, suc, ◌+◌, ◌*◌, ◌-◌, ◌%◌, ◌^◌, Bool, true, false, ◌&&◌, ◌||◌, List, [], ◌∷◌, ◌++◌, ltb,
  leb, ◌==◌, if◌then◌else◌, min, max, length, is_empty, replicate, set, get_or,
}
use rustytorrent.Base.Outcome.{Error, Result, ok, err, ◌>>=◌, ◌>>◌}
use rustytorrent.Storage.Paths.{
  PathBuf, prefix, root_dir, cur_dir, parent_dir, normal, join, joined_under_root,
  ensure_safe_leaf_name, ensure_safe_relative_path,
}

pub record FileSpan : Type 0 where
  pub path : PathBuf
  pub start : ℕ
  pub length : ℕ

-- `FileSpan::end`.
abbrev pub end_of : FileSpan → ℕ
end_of f = f.start + f.length

-- `metainfo::FileEntry`, `TorrentFiles` and `Info`; a name is its path's components.
pub record FileEntry : Type 0 where
  pub length : ℕ
  pub path : PathBuf

pub data TorrentFiles : Type 0 where
  single : ℕ → TorrentFiles
  multi : List FileEntry → TorrentFiles

pub record Info : Type 0 where
  pub name : PathBuf
  pub piece_length : ℕ
  pub piece_hashes : List (List ℕ)
  pub files : TorrentFiles
  pub private : Bool

unfoldable pub sum_lengths : List FileEntry → ℕ
sum_lengths [] = 0
sum_lengths (e ∷ es) = e.length + sum_lengths es

-- A sum of 64 bits, or the panic.
unfoldable pub checked : ℕ → Result ℕ
checked n = if ltb n (2 ^ 64) then ok n else err Error.panicked

-- `TorrentFile::total_length`. A partial sum overflows only if the whole sum does.
unfoldable pub total_length : TorrentFiles → Result ℕ
unfolding sum_lengths checked
total_length (single n) = ok n
total_length (multi es) = checked (sum_lengths es)

pub record Layout : Type 0 where
  pub root : PathBuf
  pub files : List FileSpan
  pub piece_length : ℕ
  pub total_length : ℕ
  pub num_pieces : ℕ

-- The loop of `from_torrent` over the entries, from the offset on.
unfoldable pub entry_spans : PathBuf → ℕ → List FileEntry → Result (List FileSpan)
unfolding checked
entry_spans base offset [] = ok []
entry_spans base offset (e ∷ es) =
    ensure_safe_relative_path e.path
    >> (joined_under_root base e.path >>= λ full. checked (offset + e.length) >>= λ next.
        entry_spans base next es >>= λ spans.
        ok (record { path = full; start = offset; length = e.length } ∷ spans))

unfoldable pub spans_of : PathBuf → PathBuf → TorrentFiles → Result (List FileSpan)
unfolding entry_spans
spans_of root name (single n) =
    joined_under_root root name >>= λ full. ok (record { path = full; start = 0; length = n } ∷ [])
spans_of root name (multi es) = entry_spans (join root name) 0 es

unfoldable pub from_torrent : PathBuf → Info → Result Layout
unfolding spans_of total_length
from_torrent root t =
    ensure_safe_leaf_name t.name
    >> (spans_of root t.name t.files >>= λ files. total_length t.files >>= λ total. ok (record {
      root = root;
      files = files;
      piece_length = t.piece_length;
      total_length = total;
      num_pieces = length t.piece_hashes;
    }))

-- The loop of `slices` over the files from number i on, for the range from `start` to `end`.
unfoldable pub slices_from : ℕ → List FileSpan → ℕ → ℕ → List (ℕ × ℕ × ℕ)
slices_from i [] start end = []
slices_from i (f ∷ fs) start end =
    let rest = slices_from (i + 1) fs start end in
    let slice_start = max start f.start in
    let slice_end = min end (end_of f) in
    if leb (end_of f) start
    then rest
    else if leb end f.start
    then []
    else if leb slice_end slice_start
    then rest
    else (i, slice_start - f.start, slice_end - slice_start) ∷ rest

-- The end of the range is a `u64` in the source, where a sum of 2^64 or more panics; here it has no
-- bound.
unfoldable pub slices : Layout → ℕ → ℕ → List (ℕ × ℕ × ℕ)
unfolding slices_from
slices l global_start length = slices_from 0 l.files global_start (global_start + length)

-- Nor has the start of a piece.
unfoldable pub slices_for_piece : Layout → ℕ → ℕ → List (ℕ × ℕ × ℕ)
unfolding slices
slices_for_piece l piece_index piece_size = slices l (piece_index * l.piece_length) piece_size

-- `Layout::piece_size`.
unfoldable pub piece_size : Layout → ℕ → ℕ
piece_size l index =
    if index + 1 == l.num_pieces
    then (let r = l.total_length % l.piece_length in if r == 0 then l.piece_length else r)
    else l.piece_length

-- `Path::to_string_lossy` of a relative path or one below the root: the names with slashes.
unfoldable pub path_text : PathBuf → List ℕ
path_text [] = []
path_text (normal a ∷ []) = a
path_text (normal a ∷ path) = a ++ 47 ∷ path_text path
path_text (root_dir ∷ path) = 47 ∷ path_text path
path_text (cur_dir ∷ path) = 46 ∷ 47 ∷ path_text path
path_text (parent_dir ∷ path) = 46 ∷ 46 ∷ 47 ∷ path_text path
path_text (prefix p ∷ path) = p ++ path_text path

unfoldable pub is_prefix : List ℕ → List ℕ → Bool
is_prefix [] text = true
is_prefix (a ∷ s) [] = false
is_prefix (a ∷ s) (b ∷ text) = a == b && is_prefix s text

-- `str::contains`.
unfoldable pub contains_text : List ℕ → List ℕ → Bool
unfolding is_prefix
contains_text [] s = is_prefix s []
contains_text (b ∷ text) s = is_prefix s (b ∷ text) || contains_text text s

unfoldable pub any_selector : List (List ℕ) → List ℕ → Bool
unfolding contains_text
any_selector [] text = false
any_selector (s ∷ ss) text = contains_text text s || any_selector ss text

unfoldable pub is_selected : List (List ℕ) → FileSpan → Bool
unfolding any_selector path_text
is_selected selectors f = any_selector selectors (path_text f.path)

unfoldable pub filter_files : (FileSpan → Bool) → List FileSpan → List FileSpan
filter_files p [] = []
filter_files p (f ∷ fs) = let rest = filter_files p fs in if p f then f ∷ rest else rest

unfoldable pub paths_of : List FileSpan → List PathBuf
paths_of [] = []
paths_of (f ∷ fs) = f.path ∷ paths_of fs

unfoldable pub selected_paths : Layout → List (List ℕ) → List PathBuf
unfolding filter_files paths_of is_selected
selected_paths l selectors =
    paths_of (filter_files (λ f. is_empty selectors || is_selected selectors f) l.files)

-- `selected.iter().any(...)`: some file overlaps the range from `from` to `to`.
unfoldable pub any_overlap : List FileSpan → ℕ → ℕ → Bool
any_overlap [] from to = false
any_overlap (f ∷ fs) from to = (ltb f.start to && ltb from (end_of f)) || any_overlap fs from to

unfoldable pub piece_overlaps : Layout → List FileSpan → ℕ → Bool
unfolding any_overlap
piece_overlaps l selected index =
    let piece_start = index * l.piece_length in
    any_overlap selected piece_start (min (piece_start + l.piece_length) l.total_length)

-- The loop of `wanted_pieces`, for the pieces from number i on.
unfoldable pub wanted_from : Layout → List FileSpan → ℕ → ℕ → List Bool
unfolding piece_overlaps
wanted_from l selected zero i = []
wanted_from l selected (suc left) i =
    piece_overlaps l selected i ∷ wanted_from l selected left (i + 1)

unfoldable pub wanted_pieces : Layout → List (List ℕ) → List Bool
unfolding wanted_from filter_files
wanted_pieces l selectors =
    if is_empty selectors
    then replicate l.num_pieces true
    else wanted_from l (filter_files (is_selected selectors) l.files) l.num_pieces 0

-- `wanted_files[file_idx] = true` for each slice.
unfoldable pub mark_files : List (ℕ × ℕ × ℕ) → List Bool → List Bool
mark_files [] files = files
mark_files ((i, off, n) ∷ ss) files = mark_files ss (set files i true)

-- The loop of `wanted_files`, for the pieces from number i on.
unfoldable pub mark_pieces : Layout → List Bool → ℕ → List Bool → List Bool
unfolding mark_files slices_for_piece piece_size
mark_pieces l [] i files = files
mark_pieces l (w ∷ ws) i files =
    mark_pieces l ws (i + 1)
      (if w then mark_files (slices_for_piece l i (piece_size l i)) files else files)

unfoldable pub wanted_files : Layout → List (List ℕ) → List Bool
unfolding mark_pieces
wanted_files l selectors =
    if is_empty selectors
    then replicate (length l.files) true
    else mark_pieces l (wanted_pieces l selectors) 0 (replicate (length l.files) false)
