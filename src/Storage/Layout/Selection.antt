-- ===== src/Storage/Layout/Selection.antt =====
-- src/storage/layout.rs: the pieces and files of a selective download.
use rustytorrent.Base.{
  ℕ, zero, suc, ◌+◌, ◌*◌, ◌<◌, ◌≡◌, ◌⊎◌, ◌↔◌, refl, ap, subst, ◌∙◌, inl, inr, Bool-cases, Bool,
  true, false, List, [], ◌∷◌, arith, leb, min, max, length, length-set, length-replicate, is_empty,
  replicate, set, get_or,
}
use rustytorrent.Piece.Row.Bits.{bit-set_self, bit-replicate}
use rustytorrent.Storage.Layout.{
  FileSpan, Layout, end_of, slices_from, slices, slices_for_piece, piece_size, wanted_pieces,
  mark_files, mark_pieces, wanted_files,
}

-- Some slice lies in file number i.
abbrev pub Touches : ℕ → List (ℕ × ℕ × ℕ) → Type 0
Touches i [] = ⊥
Touches i ((j, off, n) ∷ ss) = (i ≡ j) ⊎ Touches i ss

abbrev bit : List Bool → ℕ → Bool
bit bits i = get_or bits i false

slices_from-Touches :
    (j i : ℕ) (fs : List FileSpan) (start end : ℕ)
    → Touches j (slices_from i fs start end)
    → j < i + length fs
unfolding slices_from
slices_from-Touches j i [] start end t = absurd t
slices_from-Touches j i (f ∷ fs) start end t =
    let later : Touches j (slices_from (i + 1) fs start end) → j < i + length (f ∷ fs) =
      λ there. (let below = slices_from-Touches j (i + 1) fs start end there in omega arith) in
    elim (Bool-cases (leb (end_of f) start)) [
      | inl before ↦ later (rw before at t)
      | inr reaches ↦ elim (Bool-cases (leb end f.start)) [
        | inl behind ↦ absurd (rw (reaches, behind) at t)
        | inr begins ↦ elim (Bool-cases (leb (min end (end_of f)) (max start f.start))) [
          | inl empty ↦ later (rw (reaches, begins, empty) at t)
          | inr some_bytes ↦ elim (rw (reaches, begins, some_bytes) at t) [
            | inl here ↦ omega arith
            | inr there ↦ later there
          ]
        ]
      ]
    ]

length-mark_files :
    (ss : List (ℕ × ℕ × ℕ)) (files : List Bool) → length (mark_files ss files) ≡ length files
unfolding mark_files
length-mark_files [] files = refl
length-mark_files ((i, off, n) ∷ ss) files =
    length-mark_files ss (set files i true) ∙ length-set files i true

set_keeps : (files : List Bool) (i k : ℕ) → bit files k ≡ true → bit (set files i true) k ≡ true
set_keeps [] i k e = e
set_keeps (b ∷ files) zero zero e = refl
set_keeps (b ∷ files) zero (suc k) e = e
set_keeps (b ∷ files) (suc i) zero e = e
set_keeps (b ∷ files) (suc i) (suc k) e = set_keeps files i k e

set_marks_one :
    (files : List Bool) (i k : ℕ) → bit (set files i true) k ≡ true → (bit files k ≡ true) ⊎ (k ≡ i)
set_marks_one [] i k e = inl e
set_marks_one (b ∷ files) zero zero e = inr refl
set_marks_one (b ∷ files) zero (suc k) e = inl e
set_marks_one (b ∷ files) (suc i) zero e = inl e
set_marks_one (b ∷ files) (suc i) (suc k) e = elim (set_marks_one files i k e) [
  | inl old ↦ inl old
  | inr same ↦ inr (ap suc same)
]

mark_files_keeps :
    (ss : List (ℕ × ℕ × ℕ)) (files : List Bool) (k : ℕ)
    → bit files k ≡ true
    → bit (mark_files ss files) k ≡ true
unfolding mark_files
mark_files_keeps [] files k e = e
mark_files_keeps ((i, off, n) ∷ ss) files k e =
    mark_files_keeps ss (set files i true) k (set_keeps files i k e)

mark_files-Touches :
    (ss : List (ℕ × ℕ × ℕ)) (files : List Bool) (k : ℕ)
    → k < length files
    → Touches k ss
    → bit (mark_files ss files) k ≡ true
unfolding mark_files
mark_files-Touches [] files k h t = absurd t
mark_files-Touches ((i, off, n) ∷ ss) files k h (inl same) =
    mark_files_keeps ss (set files i true) k
      (subst (λ x. bit (set files x true) k ≡ true) same (bit-set_self files k true h))
mark_files-Touches ((i, off, n) ∷ ss) files k h (inr t) =
    mark_files-Touches ss (set files i true) k (omega (arith, length-set files i true)) t

mark_files_only :
    (ss : List (ℕ × ℕ × ℕ)) (files : List Bool) (k : ℕ)
    → bit (mark_files ss files) k ≡ true
    → (bit files k ≡ true) ⊎ Touches k ss
unfolding mark_files
mark_files_only [] files k e = inl e
mark_files_only ((i, off, n) ∷ ss) files k e = elim (mark_files_only ss (set files i true) k e) [
  | inl marked ↦ elim (set_marks_one files i k marked) [
    | inl old ↦ inl old
    | inr same ↦ inr (inl same)
  ]
  | inr t ↦ inr (inr t)
]

-- A slice of piece p lies in file k.
abbrev pub NeedsFile : Layout → ℕ → ℕ → Type 0
NeedsFile l p k = Touches k (slices_for_piece l p (piece_size l p))

-- Some wanted one of the pieces from number i on has a slice in file k.
abbrev NeededFrom : Layout → List Bool → ℕ → ℕ → Type 0
NeededFrom l ws i k = (j : ℕ) × (p : ℕ) × (p ≡ i + j) × (bit ws j ≡ true) × NeedsFile l p k

module _ (l : Layout) (k : ℕ) where
  mark_piece : ℕ → List Bool → List Bool
  mark_piece i files = mark_files (slices_for_piece l i (piece_size l i)) files

  mark_pieces_keeps :
      (ws : List Bool) (i : ℕ) (files : List Bool)
      → bit files k ≡ true
      → bit (mark_pieces l ws i files) k ≡ true
  unfolding mark_pieces mark_piece
  mark_pieces_keeps [] i files e = e
  mark_pieces_keeps (true ∷ ws) i files e =
      mark_pieces_keeps ws (i + 1) (mark_piece i files)
        (mark_files_keeps (slices_for_piece l i (piece_size l i)) files k e)
  mark_pieces_keeps (false ∷ ws) i files e = mark_pieces_keeps ws (i + 1) files e

  mark_pieces_only :
      (ws : List Bool) (i : ℕ) (files : List Bool)
      → bit (mark_pieces l ws i files) k ≡ true
      → (bit files k ≡ true) ⊎ NeededFrom l ws i k
  unfolding mark_pieces mark_piece
  mark_pieces_only [] i files e = inl e
  mark_pieces_only (true ∷ ws) i files e =
      elim (mark_pieces_only ws (i + 1) (mark_piece i files) e) [
        | inl marked ↦
            elim (mark_files_only (slices_for_piece l i (piece_size l i)) files k marked) [
              | inl old ↦ inl old
              | inr t ↦ inr (zero, i, omega arith, refl, t)
            ]
        | inr (j, p, at_, w, t) ↦ inr (suc j, p, omega arith, w, t)
      ]
  mark_pieces_only (false ∷ ws) i files e = elim (mark_pieces_only ws (i + 1) files e) [
    | inl old ↦ inl old
    | inr (j, p, at_, w, t) ↦ inr (suc j, p, omega arith, w, t)
  ]

  mark_pieces_all :
      (ws : List Bool) (i j p : ℕ) (files : List Bool)
      → k < length files
      → p ≡ i + j
      → bit ws j ≡ true
      → NeedsFile l p k
      → bit (mark_pieces l ws i files) k ≡ true
  unfolding mark_pieces mark_piece
  mark_pieces_all [] i j p files h at_ w t = cc
  mark_pieces_all (true ∷ ws) i zero p files h at_ w t =
      let same : p ≡ i = omega arith in
      mark_pieces_keeps ws (i + 1) (mark_piece i files) (
        mark_files-Touches (slices_for_piece l i (piece_size l i)) files k h
          (subst (λ q. NeedsFile l q k) same t))
  mark_pieces_all (false ∷ ws) i zero p files h at_ w t = cc
  mark_pieces_all (true ∷ ws) i (suc j) p files h at_ w t =
      mark_pieces_all ws (i + 1) j p (mark_piece i files)
        (omega (arith, length-mark_files (slices_for_piece l i (piece_size l i)) files))
        (omega arith) w t
  mark_pieces_all (false ∷ ws) i (suc j) p files h at_ w t =
      mark_pieces_all ws (i + 1) j p files h (omega arith) w t

-- With selectors, a file is allocated exactly if some wanted piece has a slice in it: every write
-- of a wanted piece goes to an allocated file, and no other file is allocated.
pub wanted_files_iff :
    (l : Layout) (selectors : List (List ℕ)) (k : ℕ)
    → is_empty selectors ≡ false
    → (get_or (wanted_files l selectors) k false ≡ true)
      ↔ ((p : ℕ) × (get_or (wanted_pieces l selectors) p false ≡ true) × NeedsFile l p k)
unfolding wanted_files
wanted_files_iff l selectors k e = rw e (
  λ marked. elim (mark_pieces_only l k (wanted_pieces l selectors) 0 none_marked marked) [
    | inl old ↦ let clear = bit-replicate (length l.files) k in cc
    | inr (j, p, at_, w, t) ↦
        (j, w, subst (λ q. NeedsFile l q k) (let same : p ≡ j = omega arith in same) t)
  ],
  λ (p, w, t).
      mark_pieces_all l k (wanted_pieces l selectors) 0 p p none_marked
        (omega (arith, length-replicate (length l.files) false, in_files p t)) (omega arith) w t,
)
  where
    none_marked : List Bool
    none_marked = replicate (length l.files) false

    in_files : (p : ℕ) → NeedsFile l p k → k < 0 + length l.files
    in_files p t =
        slices_from-Touches k 0 l.files (p * l.piece_length) (p * l.piece_length + piece_size l p)
          (unfold slices_for_piece slices in t)
