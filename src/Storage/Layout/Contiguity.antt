-- ===== src/Storage/Layout/Contiguity.antt =====
-- src/storage/layout.rs: the layout of an accepted torrent.
use rustytorrent.Base.{
  ℕ, ◌+◌, ◌^◌, ◌<◌, ◌≡◌, ◌≢◌, refl, ap, ◌∙◌, inl, inr, Bool-cases, true, false, List, [], ◌∷◌, ◌++◌,
  arith, All, append_assoc, ltb,
}
use rustytorrent.Base.Outcome.{ok, Result-cases}
use rustytorrent.Storage.Paths.{
  Component, PathBuf, prefix, root_dir, cur_dir, parent_dir, normal, join, joined_under_root,
  ensure_safe_leaf_name, check_components, ensure_safe_relative_path, is_windows_reserved,
}
use rustytorrent.Storage.Layout.{
  FileSpan, FileEntry, Info, TorrentFiles, single, multi, Layout, sum_lengths, total_length,
  entry_spans, spans_of, checked, from_torrent,
}

-- A plain component is a name, and not a reserved one.
abbrev pub IsPlain : Component → Type 0
IsPlain (normal part) = is_windows_reserved part ≡ false
IsPlain _ = ⊥

-- The path is below the root: the root's components, then plain ones, at least one.
abbrev pub IsBelow : PathBuf → PathBuf → Type 0
IsBelow root path = (rel : PathBuf) × (path ≡ root ++ rel) × (rel ≢ []) × All IsPlain rel

-- The files lie one behind the other from the offset on.
abbrev pub IsContiguous : ℕ → List FileSpan → Type 0
IsContiguous offset [] = Unit
IsContiguous offset (f ∷ fs) = (f.start ≡ offset) × IsContiguous (offset + f.length) fs

check_components-IsPlain : (path : PathBuf) → check_components path ≡ ok tt → All IsPlain path
unfolding check_components
check_components-IsPlain [] e = tt
check_components-IsPlain (normal part ∷ path) e = elim (Bool-cases (is_windows_reserved part)) [
  | inl bad ↦ let no = rw bad at e in cc
  | inr fine ↦ (fine, check_components-IsPlain path (rw fine at e))
]
check_components-IsPlain (prefix p ∷ path) e = cc
check_components-IsPlain (root_dir ∷ path) e = cc
check_components-IsPlain (cur_dir ∷ path) e = cc
check_components-IsPlain (parent_dir ∷ path) e = cc

joined_below :
    (base rel full : PathBuf)
    → All IsPlain rel
    → joined_under_root base rel ≡ ok full
    → full ≡ base ++ rel
unfolding joined_under_root join
joined_below base [] full h e = ground arith
joined_below base (normal part ∷ rel) full h e = ground arith
joined_below base (prefix p ∷ rel) full h e = absurd h.0
joined_below base (root_dir ∷ rel) full h e = absurd h.0
joined_below base (cur_dir ∷ rel) full h e = absurd h.0
joined_below base (parent_dir ∷ rel) full h e = absurd h.0

relative_path_inversion :
    (path : PathBuf) {u : Unit {0}}
    → ensure_safe_relative_path path ≡ ok u
    → All IsPlain path × (path ≢ [])
unfolding ensure_safe_relative_path
relative_path_inversion path {u} e = elim (Result-cases (check_components path)) [
  | inl (v, c) ↦ (check_components-IsPlain path c, λ empty. let no = rw (c, empty) at e in cc)
  | inr (x, c) ↦ let no = rw c at e in cc
]

leaf_name_inversion :
    (name : PathBuf) {u : Unit {0}}
    → ensure_safe_leaf_name name ≡ ok u
    → (part : List ℕ) × (name ≡ normal part ∷ []) × (is_windows_reserved part ≡ false)
unfolding ensure_safe_leaf_name
leaf_name_inversion (normal part ∷ []) e = elim (Bool-cases (is_windows_reserved part)) [
  | inl bad ↦ let no = rw bad at e in cc
  | inr fine ↦ (part, refl, fine)
]
leaf_name_inversion (normal part ∷ a ∷ path) e = cc
leaf_name_inversion [] e = cc
leaf_name_inversion (prefix p ∷ path) e = cc
leaf_name_inversion (root_dir ∷ path) e = cc
leaf_name_inversion (cur_dir ∷ path) e = cc
leaf_name_inversion (parent_dir ∷ path) e = cc

abbrev pub sum_spans : List FileSpan → ℕ
sum_spans [] = 0
sum_spans (f ∷ fs) = f.length + sum_spans fs

-- What the files of an accepted torrent are, from the offset on.
abbrev AreLaidOut : PathBuf → ℕ → ℕ → List FileSpan → Type 0
AreLaidOut root offset total fs =
    All (λ f. IsBelow root f.path) fs × IsContiguous offset fs × (sum_spans fs ≡ total)

IsBelow-name :
    (root rel full : PathBuf) (part : List ℕ)
    → is_windows_reserved part ≡ false
    → All IsPlain rel
    → full ≡ (root ++ normal part ∷ []) ++ rel
    → IsBelow root full
IsBelow-name root rel full part fine h e =
    (normal part ∷ rel, e ∙ append_assoc root (normal part ∷ []) rel, λ x. cc, (fine, h))

pub checked_ok : (n : ℕ) → n < 2 ^ 64 → checked n ≡ ok n
unfolding checked
checked_ok n h = let fits : ltb n (2 ^ 64) ≡ true = ground arith in rw fits refl

pub checked_lt : (n m : ℕ) → checked n ≡ ok m → (n ≡ m) × (n < 2 ^ 64)
unfolding checked
checked_lt n m h = elim (Bool-cases (ltb n (2 ^ 64))) [
  | inl e ↦ let kept = rw e at h in (cc, ground arith)
  | inr e ↦ let no = rw e at h in cc
]

entry_spans_inversion :
    (root : PathBuf) (part : List ℕ) (offset : ℕ) (es : List FileEntry) (fs : List FileSpan)
    → is_windows_reserved part ≡ false
    → offset + sum_lengths es < 2 ^ 64
    → entry_spans (root ++ normal part ∷ []) offset es ≡ ok fs
    → AreLaidOut root offset (sum_lengths es) fs
unfolding entry_spans sum_lengths
entry_spans_inversion root part offset [] fs fine h e =
    let none_left : fs ≡ [] = cc in rw none_left (tt, tt, refl)
entry_spans_inversion root part offset (x ∷ es) fs fine h e =
    let base = root ++ normal part ∷ [] in
    let next = checked_ok (offset + x.length) (omega arith) in
    elim (Result-cases (ensure_safe_relative_path x.path)) [
      | inl (u, safe) ↦ elim (Result-cases (joined_under_root base x.path)) [
        | inl (full, joined) ↦ elim (Result-cases (entry_spans base (offset + x.length) es)) [
          | inl (spans, rest) ↦
              let plain = relative_path_inversion x.path safe in
              let below =
                IsBelow-name root x.path full part fine plain.0
                  (joined_below base x.path full plain.0 joined) in
              let laid =
                entry_spans_inversion root part (offset + x.length) es spans fine (omega arith)
                  rest in
              let made = rw (safe, joined, next, rest) at e in
              let is_fs : record { path = full; start = offset; length = x.length } ∷ spans ≡ fs =
                cc in
              rw (← is_fs) ((below, laid.0), (refl, laid.1), ap (λ k. x.length + k) laid.2)
          | inr (y, rest) ↦ let no = rw (safe, joined, next, rest) at e in cc
        ]
        | inr (y, joined) ↦ let no = rw (safe, joined) at e in cc
      ]
      | inr (y, safe) ↦ let no = rw safe at e in cc
    ]

spans_of_inversion :
    (root : PathBuf) (part : List ℕ) (files : TorrentFiles) (fs : List FileSpan) (total : ℕ)
    → is_windows_reserved part ≡ false
    → total_length files ≡ ok total
    → spans_of root (normal part ∷ []) files ≡ ok fs
    → AreLaidOut root 0 total fs
unfolding spans_of join total_length
spans_of_inversion root part (single n) fs total fine h e =
    elim (Result-cases (joined_under_root root (normal part ∷ []))) [
      | inl (full, joined) ↦
          let made = rw joined at e in
          let is_fs : record { path = full; start = 0; length = n } ∷ [] ≡ fs = cc in
          let is_total : n ≡ total = cc in
          let at_ = joined_below root (normal part ∷ []) full (fine, tt) joined in
          rw (← is_fs, ← is_total)
            (((normal part ∷ [], at_, (λ x. cc), (fine, tt)), tt), (refl, tt), omega arith)
      | inr (y, joined) ↦ let no = rw joined at e in cc
    ]
spans_of_inversion root part (multi es) fs total fine h e =
    let exact = checked_lt (sum_lengths es) total h in
    rw (← exact.0)
      (let fits = exact.1 in entry_spans_inversion root part 0 es fs fine (omega arith) e)

-- Whatever a torrent file brings, each file of a layout made from it is below the download root, by
-- plain and not reserved names only, and the files lie one behind the other and fill the torrent's
-- length.
pub from_torrent-IsBelow :
    (root : PathBuf) (t : Info) (l : Layout)
    → from_torrent root t ≡ ok l
    → All (λ f. IsBelow root f.path) l.files
      × IsContiguous 0 l.files
      × (sum_spans l.files ≡ l.total_length)
unfolding from_torrent
from_torrent-IsBelow root t l e = elim (Result-cases (ensure_safe_leaf_name t.name)) [
  | inl (u, safe) ↦ elim (Result-cases (spans_of root t.name t.files)) [
    | inl (fs, spans) ↦ elim (Result-cases (total_length t.files)) [
      | inl (total, sum) ↦
          let (part, is_name, fine) = leaf_name_inversion t.name safe in
          let laid = spans_of_inversion root part t.files fs total fine sum (rw is_name at spans) in
          let made = rw (safe, spans, sum) at e in
          let files : l.files ≡ fs = cc in
          let length : l.total_length ≡ total = cc in rw (files, length) laid
      | inr (y, sum) ↦ let no = rw (safe, spans, sum) at e in cc
    ]
    | inr (y, spans) ↦ let no = rw (safe, spans) at e in cc
  ]
  | inr (y, safe) ↦ let no = rw safe at e in cc
]
