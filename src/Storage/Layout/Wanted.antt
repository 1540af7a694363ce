-- ===== src/Storage/Layout/Wanted.antt =====
-- src/storage/layout.rs: a selective download fetches every byte of the selected files.
use native.Mathlib.Nat.{div-mul-le_self, lt-div-mul-add}
use rustytorrent.Base.{
  ℕ, zero, suc, ◌+◌, ◌*◌, ◌/◌, ◌<◌, ◌≤◌, ◌≡◌, ◌⊎◌, refl, ap, subst, ◌∙◌, inl, inr, Bool-cases, Bool,
  true, false, ◌&&◌, List, [], ◌∷◌, arith, ltb, min, is_empty, get_or,
}
use rustytorrent.Storage.Layout.{
  FileSpan, Layout, end_of, is_selected, filter_files, any_overlap, piece_overlaps, wanted_from,
  wanted_pieces,
}

-- The file is one of the list.
abbrev pub IsOneOf : FileSpan → List FileSpan → Type 0
IsOneOf f [] = ⊥
IsOneOf f (g ∷ fs) = (f ≡ g) ⊎ IsOneOf f fs

filter_files-IsOneOf :
    (p : FileSpan → Bool) (f : FileSpan) (fs : List FileSpan)
    → p f ≡ true
    → IsOneOf f fs
    → IsOneOf f (filter_files p fs)
unfolding filter_files
filter_files-IsOneOf p f [] e i = i
filter_files-IsOneOf p f (g ∷ fs) e (inl same) = rw (subst (λ h. p h ≡ true) same e) (inl same)
filter_files-IsOneOf p f (g ∷ fs) e (inr i) = elim (Bool-cases (p g)) [
  | inl chosen ↦ rw chosen (inr (filter_files-IsOneOf p f fs e i))
  | inr passed ↦ rw passed (filter_files-IsOneOf p f fs e i)
]

any_overlap-IsOneOf :
    (f : FileSpan) (fs : List FileSpan) (from to : ℕ)
    → f.start < to
    → from < end_of f
    → IsOneOf f fs
    → any_overlap fs from to ≡ true
unfolding any_overlap
any_overlap-IsOneOf f [] from to h k i = absurd i
any_overlap-IsOneOf f (g ∷ fs) from to h k (inl same) =
    let starts : g.start < to = subst (λ x. x.start < to) same h in
    let ends : from < end_of g = subst (λ x. from < end_of x) same k in
    let first : ltb g.start to ≡ true = ground arith in
    let second : ltb from (end_of g) ≡ true = ground arith in rw (first, second) refl
any_overlap-IsOneOf f (g ∷ fs) from to h k (inr i) =
    let rest = any_overlap-IsOneOf f fs from to h k i in
    elim (Bool-cases (ltb g.start to && ltb from (end_of g))) [
      | inl here ↦ rw here refl
      | inr not_here ↦ rw not_here rest
    ]

wanted_from-overlaps :
    (l : Layout) (selected : List FileSpan) (left i j p : ℕ)
    → j < left
    → p ≡ i + j
    → get_or (wanted_from l selected left i) j false ≡ piece_overlaps l selected p
unfolding wanted_from
wanted_from-overlaps l selected zero i j p h e = absurd (omega arith)
wanted_from-overlaps l selected (suc left) i zero p h e =
    ap (piece_overlaps l selected) (let same : i ≡ p = omega arith in same)
wanted_from-overlaps l selected (suc left) i (suc j) p h e =
    wanted_from-overlaps l selected left (i + 1) j p (omega arith) (omega arith)

-- With selectors, each byte of a selected file that the torrent's length and number of pieces reach
-- is in a wanted piece.
pub wanted_pieces_lem :
    (l : Layout) (selectors : List (List ℕ)) (f : FileSpan) (byte : ℕ)
    → is_empty selectors ≡ false
    → IsOneOf f l.files
    → is_selected selectors f ≡ true
    → f.start ≤ byte
    → byte < end_of f
    → byte < l.total_length
    → 0 < l.piece_length
    → byte / l.piece_length < l.num_pieces
    → get_or (wanted_pieces l selectors) (byte / l.piece_length) false ≡ true
unfolding wanted_pieces piece_overlaps
wanted_pieces_lem l selectors f byte e one chosen lo hi inside pos piece_in =
    let index = byte / l.piece_length in
    let below : index * l.piece_length ≤ byte = div-mul-le_self byte l.piece_length in
    let above : byte < index * l.piece_length + l.piece_length = lt-div-mul-add pos in
    let selected = filter_files (is_selected selectors) l.files in
    rw e (
      wanted_from-overlaps l selected l.num_pieces 0 index index piece_in (omega arith)
      ∙ any_overlap-IsOneOf f selected (index * l.piece_length)
          (min (index * l.piece_length + l.piece_length) l.total_length) (omega arith) (omega arith)
          (filter_files-IsOneOf (is_selected selectors) f l.files chosen one))
