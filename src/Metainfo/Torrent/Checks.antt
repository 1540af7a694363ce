-- ===== src/Metainfo/Torrent/Checks.antt =====
-- src/metainfo/torrent.rs: what a torrent that is accepted guarantees.
use native.Mathlib.Nat.{mod-lt, mod-add-div'}
use rustytorrent.Base.{
  ℕ, zero, suc, ◌+◌, ◌*◌, ◌/◌, ◌%◌, ◌<◌, ◌≤◌, ◌≡◌, refl, inl, inr, Bool, true, false, not, ◌||◌,
  List, [], ◌∷◌, arith, leb, ◌==◌, Bool-cases, length, is_empty, take, drop, length-take,
  length-drop, All, All-append, of_option,
}
use rustytorrent.Base.Bytes.{bytes_eq}
use rustytorrent.Base.Outcome.{Result, ok, ◌>>◌, Holds, Holds-bind, Holds-after, Holds-self}
use rustytorrent.Storage.Paths.{Component, PathBuf, normal, join}
use rustytorrent.Storage.Split.{contains_byte, components, components_name}
use rustytorrent.Storage.Layout.{FileEntry, TorrentFiles, single, multi, Info, total_length}
use rustytorrent.Metainfo.Bencode.{
  BencodeValue, Items, Fields, no_items, item, as_dict, as_list, as_bytes, get, found,
}
use rustytorrent.Metainfo.Bencode.Text.{as_str}
use rustytorrent.Metainfo.Torrent.{
  max_piece_length, files_key, length_key, path_key, name_key, piece_length_key, pieces_key,
  is_unsafe_path_component, ensure, chunks, length_field, path_from, file_entry, file_entries,
  files_from, name_from, piece_length_from, hashes_from, div_ceil, from_value,
}

pub Holds-ensure {κ μ} :
    {B : Type κ} (P : B → Type μ) (test : Bool) (r : Result B)
    → (test ≡ true → Holds P r)
    → Holds P (ensure test >> r)
unfolding ensure
Holds-ensure P true r next = next refl
Holds-ensure P false r next = tt

-- A component that is a plain name, without separators.
abbrev pub IsSafeName : List ℕ → Type 0
IsSafeName s =
    (bytes_eq s [] ≡ false)
    × (bytes_eq s (46 ∷ []) ≡ false)
    × (bytes_eq s (46 ∷ 46 ∷ []) ≡ false)
    × (contains_byte 47 s ≡ false)
    × (contains_byte 92 s ≡ false)

or_false : (x y : Bool) → (x || y) ≡ false → (x ≡ false) × (y ≡ false)
or_false true y h = absurd (let bad : true ≡ false = h in cc)
or_false false y h = (refl, h)

not-true : (x : Bool) → not x ≡ true → x ≡ false
not-true true h = absurd (let bad : false ≡ true = h in cc)
not-true false h = refl

is_empty-bytes_eq : (s : List ℕ) → is_empty s ≡ false → bytes_eq s [] ≡ false
unfolding bytes_eq
is_empty-bytes_eq [] h = absurd (let bad : true ≡ false = h in cc)
is_empty-bytes_eq (b ∷ bs) h = refl

safe_name : (s : List ℕ) → not (is_unsafe_path_component s) ≡ true → IsSafeName s
unfolding is_unsafe_path_component
safe_name s h =
    let a = or_false _ _ (not-true _ h) in
    let b = or_false _ _ a.1 in
    let c = or_false _ _ b.1 in
    let d = or_false _ _ c.1 in (is_empty-bytes_eq s a.0, b.0, c.0, d.0, d.1)

-- A path of plain names.
abbrev pub IsSafePart : Component → Type 0
IsSafePart (normal s) = IsSafeName s
IsSafePart _ = ⊥

path_from-IsSafePart :
    (p : PathBuf) (segs : Items) → All IsSafePart p → Holds (All IsSafePart) (path_from p segs)
unfolding path_from
path_from-IsSafePart p no_items h = h
path_from-IsSafePart p (item seg segs) h = Holds-after (All IsSafePart) (as_str seg) _ λ s.
    Holds-ensure (All IsSafePart) (not (is_unsafe_path_component s)) _ λ e.
      let safe = safe_name s e in
      let one = components_name s safe.3 safe.0 safe.1 safe.2 in
      path_from-IsSafePart (join p (components s)) segs
        (rw one (unfold join in All-append IsSafePart p (normal s ∷ []) h (safe, tt)))

-- The path of an entry.
abbrev pub IsSafeFile : FileEntry → Type 0
IsSafeFile e = All IsSafePart e.path

abbrev pub HasSafeFiles : TorrentFiles → Type 0
HasSafeFiles (single n) = Unit
HasSafeFiles (multi es) = All IsSafeFile es

file_entry-IsSafeFile : (v : BencodeValue) → Holds IsSafeFile (file_entry v)
unfolding file_entry
file_entry-IsSafeFile v = Holds-after IsSafeFile (as_dict v) _ λ fd.
    Holds-after IsSafeFile (length_field length_key fd) _ λ n.
      Holds-after IsSafeFile (found (get path_key fd)) _ λ w.
        Holds-after IsSafeFile (as_list w) _ λ segs.
          Holds-bind (All IsSafePart) IsSafeFile (path_from [] segs)
            (λ path. ok (record { length = n; path = path })) (path_from-IsSafePart [] segs tt)
            λ path h. h

file_entries-IsSafeFile : (xs : Items) → Holds (All IsSafeFile) (file_entries xs)
unfolding file_entries
file_entries-IsSafeFile no_items = tt
file_entries-IsSafeFile (item v xs) =
    Holds-bind IsSafeFile (All IsSafeFile) (file_entry v) _ (file_entry-IsSafeFile v) λ e h.
      Holds-bind (All IsSafeFile) (All IsSafeFile) (file_entries xs) _ (file_entries-IsSafeFile xs)
        λ es hs. (h, hs)

files_from-HasSafeFiles : (d : Fields) → Holds HasSafeFiles (files_from d)
unfolding files_from
files_from-HasSafeFiles d =
    of_option (Holds HasSafeFiles) (get files_key d) _ _
      (λ _. Holds-after HasSafeFiles (length_field length_key d) (λ n. ok (single n)) λ n. tt)
      λ v _. Holds-after HasSafeFiles (as_list v) _ λ xs.
        Holds-bind (All IsSafeFile) HasSafeFiles (file_entries xs) _ (file_entries-IsSafeFile xs)
          λ es h. h

name_from-IsSafeName : (d : Fields) → Holds IsSafeName (name_from d)
unfolding name_from
name_from-IsSafeName d = Holds-after IsSafeName (found (get name_key d)) _ λ v.
    Holds-after IsSafeName (as_str v) _ λ name.
      Holds-ensure IsSafeName (not (is_unsafe_path_component name)) (ok name) λ e. safe_name name e

-- Between one byte and a gibibyte.
abbrev pub IsPlausible : ℕ → Type 0
IsPlausible n = (0 < n) × (n ≤ max_piece_length)

piece_length_from-IsPlausible : (d : Fields) → Holds IsPlausible (piece_length_from d)
unfolding piece_length_from
piece_length_from-IsPlausible d = Holds-after IsPlausible (length_field piece_length_key d) _ λ n.
    Holds-ensure IsPlausible (not ((n == 0) || not (leb n max_piece_length))) _ λ e. ground arith

abbrev pub AreHashes : List (List ℕ) → Type 0
AreHashes = All (λ h. length h ≡ 20)

chunks-AreHashes : (n : ℕ) (xs : List ℕ) → 20 * n ≤ length xs → AreHashes (chunks n xs)
unfolding chunks
chunks-AreHashes zero xs h = tt
chunks-AreHashes (suc n) xs h =
    let e : length (take 20 xs) ≡ 20 = omega (arith, length-take 20 xs) in
    (e, chunks-AreHashes n (drop 20 xs) (omega (arith, length-drop 20 xs)))

hashes_from-AreHashes : (d : Fields) → Holds AreHashes (hashes_from d)
unfolding hashes_from
hashes_from-AreHashes d = Holds-after AreHashes (found (get pieces_key d)) _ λ v.
    Holds-after AreHashes (as_bytes v) _ λ raw.
      Holds-ensure AreHashes (length raw % 20 == 0) _
        λ e. chunks-AreHashes (length raw / 20) raw (omega arith)

div_ceil_lem : (a b : ℕ) → 0 < b → (a ≤ div_ceil a b * b) × (div_ceil a b * b < a + b)
unfolding div_ceil
div_ceil_lem a b h =
    let split = mod-add-div' a b in
    let below = mod-lt a h in
    elim (Bool-cases (a % b == 0)) [ inl e ↦ rw e (ground arith) | inr e ↦ rw e (ground arith) ]

-- The name is one plain component, and so is each component of a file's path; the piece length is
-- plausible; each hash has 20 bytes, and there are as many as the content has pieces.
abbrev pub IsSound : Info → Type 0
IsSound t =
    ((part : List ℕ) × (t.name ≡ normal part ∷ []) × IsSafeName part)
    × HasSafeFiles t.files
    × IsPlausible t.piece_length
    × AreHashes t.piece_hashes
    × ((total : ℕ) × (total_length t.files ≡ ok total)
        × (0 < total)
        × (total ≤ length t.piece_hashes * t.piece_length)
        × (length t.piece_hashes * t.piece_length < total + t.piece_length))

from_value-Holds : (v : BencodeValue) → Holds IsSound (from_value v)
unfolding from_value
from_value-Holds v = Holds-after IsSound (as_dict v) _ λ d.
    Holds-bind IsSafeName IsSound (name_from d) _ (name_from-IsSafeName d) λ name safe.
      Holds-bind IsPlausible IsSound (piece_length_from d) _ (piece_length_from-IsPlausible d)
        λ n plausible.
          Holds-bind AreHashes IsSound (hashes_from d) _ (hashes_from-AreHashes d) λ hashes all.
            Holds-bind HasSafeFiles IsSound (files_from d) _ (files_from-HasSafeFiles d)
              λ files fine.
                Holds-bind (λ total. total_length files ≡ ok total) IsSound (total_length files) _
                  (Holds-self (total_length files))
                  λ total sum. Holds-ensure IsSound (not (total == 0)) _ λ some_bytes.
                    Holds-ensure IsSound (length hashes == div_ceil total n) _ λ count.
                      let ceil = div_ceil_lem total n plausible.0 in
                      let e : length hashes ≡ div_ceil total n = ground arith in
                      (
                        (name, components_name name safe.3 safe.0 safe.1 safe.2, safe),
                        fine,
                        plausible,
                        all,
                        (total, sum, ground arith, rw e ceil.0, rw e ceil.1),
                      )

-- A torrent's info that is accepted is sound: its name and the components of its paths are plain
-- names without separators, its piece length lies between one byte and a gibibyte, its content is
-- not empty, and it has a hash of 20 bytes for each piece and no more.
pub from_value-IsSound : (v : BencodeValue) (t : Info) → from_value v ≡ ok t → IsSound t
from_value-IsSound v t h = let holds = from_value-Holds v in rw h at holds
