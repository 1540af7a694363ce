-- ===== src/Examples/Files.antt =====
-- src/storage/layout.rs: the theorems on layouts, at a torrent of two files.
use rustytorrent.Base.Bytes.{bytes_eq}
use rustytorrent.Base.{ℕ, ◌+◌, ◌≡◌, refl, false, List, [], ◌∷◌, ◌++◌, take, drop, replicate, All}
use rustytorrent.Base.Outcome.{ok}
use rustytorrent.Storage.Paths.{
  PathBuf, root_dir, normal, is_windows_reserved, to_ascii_lowercase, trim_end, stem, contains,
  join, starts_with, component_eq, joined_under_root, ensure_safe_leaf_name, check_components,
  ensure_safe_relative_path,
}
use rustytorrent.Storage.Layout.{
  FileSpan, FileEntry, Info, multi, Layout, from_torrent, entry_spans, spans_of, slices,
  sum_lengths, total_length, checked,
}
use rustytorrent.Storage.Layout.Ranges.{stream, read_slices, slices_lem}
use rustytorrent.Storage.Layout.Contiguity.{IsBelow, IsContiguous, sum_spans, from_torrent-IsBelow}

abbrev downloads : PathBuf
downloads = root_dir ∷ normal (100 ∷ []) ∷ []

abbrev file_a : FileEntry
file_a = record { length = 3; path = normal (97 ∷ []) ∷ [] }

abbrev file_b : FileEntry
file_b = record { length = 4; path = normal (115 ∷ []) ∷ normal (98 ∷ []) ∷ [] }

abbrev two_files : Info
two_files = record {
  name = normal (116 ∷ []) ∷ [];
  piece_length = 4;
  piece_hashes = [] ∷ [] ∷ [];
  private = false;
  files = multi (file_a ∷ file_b ∷ []);
}

abbrev span_a : FileSpan
span_a = record {
  path = downloads ++ normal (116 ∷ []) ∷ normal (97 ∷ []) ∷ [];
  start = 0;
  length = 3;
}

abbrev span_b : FileSpan
span_b = record {
  path = downloads ++ normal (116 ∷ []) ∷ normal (115 ∷ []) ∷ normal (98 ∷ []) ∷ [];
  start = 3;
  length = 4;
}

abbrev two_layout : Layout
two_layout = record {
  root = downloads;
  files = span_a ∷ span_b ∷ [];
  piece_length = 4;
  total_length = 7;
  num_pieces = 2;
}

two_files_lay_out : from_torrent downloads two_files ≡ ok two_layout
unfolding from_torrent ensure_safe_leaf_name is_windows_reserved to_ascii_lowercase trim_end stem
    contains bytes_eq spans_of entry_spans join joined_under_root starts_with component_eq
    ensure_safe_relative_path check_components total_length sum_lengths checked
two_files_lay_out = refl

from_torrent-IsBelow_example :
    All (λ f. IsBelow downloads f.path) two_layout.files
    × IsContiguous 0 two_layout.files
    × (sum_spans two_layout.files ≡ two_layout.total_length)
from_torrent-IsBelow_example = from_torrent-IsBelow downloads two_files two_layout two_files_lay_out

abbrev contents : ℕ → List ℕ
contents i = replicate (i + 3) i

slices_lem_example :
    read_slices contents (slices two_layout 2 3)
    ≡ take 3 (drop 2 (stream contents 0 two_layout.files))
slices_lem_example = slices_lem contents two_layout 2 3 ((refl, refl, (refl, refl, tt)))
