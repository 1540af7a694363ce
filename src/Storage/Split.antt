-- ===== src/Storage/Split.antt =====
-- `Path::components` of the standard library, as it is on Unix.
use rustytorrent.Base.{
  ℕ, ◌≡◌, refl, inl, inr, Bool, true, false, ◌||◌, List, [], ◌∷◌, ◌==◌, if◌then◌else◌, Bool-cases,
}
use rustytorrent.Base.Bytes.{bytes_eq}
use rustytorrent.Storage.Paths.{PathBuf, root_dir, cur_dir, parent_dir, normal}

unfoldable pub contains_byte : ℕ → List ℕ → Bool
contains_byte b [] = false
contains_byte b (c ∷ cs) = (c == b) || contains_byte b cs

abbrev prepend : ℕ → List (List ℕ) → List (List ℕ)
prepend b [] = (b ∷ []) ∷ []
prepend b (s ∷ ss) = (b ∷ s) ∷ ss

-- `split('/')`.
unfoldable pub segments : List ℕ → List (List ℕ)
segments [] = [] ∷ []
segments (b ∷ bs) = let rest = segments bs in if b == 47 then [] ∷ rest else prepend b rest

-- Empty segments and dots are left out.
unfoldable pub named : List (List ℕ) → PathBuf
unfolding bytes_eq
named [] = []
named (s ∷ ss) =
    let rest = named ss in
    if bytes_eq s []
    then rest
    else if bytes_eq s (46 ∷ [])
    then rest
    else if bytes_eq s (46 ∷ 46 ∷ [])
    then parent_dir ∷ rest
    else normal s ∷ rest

-- A leading slash is the root, a leading dot the current directory.
unfoldable pub components_from : List (List ℕ) → PathBuf
unfolding named bytes_eq
components_from [] = []
components_from ([] ∷ s ∷ ss) = root_dir ∷ named (s ∷ ss)
components_from (s ∷ ss) =
    let rest = named (s ∷ ss) in if bytes_eq s (46 ∷ []) then cur_dir ∷ rest else rest

unfoldable pub components : List ℕ → PathBuf
unfolding segments components_from
components s = components_from (segments s)

segments_whole : (s : List ℕ) → contains_byte 47 s ≡ false → segments s ≡ s ∷ []
unfolding segments contains_byte
segments_whole [] h = refl
segments_whole (b ∷ bs) h = elim (Bool-cases (b == 47)) [
  | inl e ↦ let bad = rw e at h in cc
  | inr e ↦ rw (e, segments_whole bs (rw e at h)) refl
]

one_segment :
    (s : List ℕ)
    → bytes_eq s [] ≡ false
    → bytes_eq s (46 ∷ []) ≡ false
    → bytes_eq s (46 ∷ 46 ∷ []) ≡ false
    → components_from (s ∷ []) ≡ normal s ∷ []
unfolding components_from named
one_segment [] empty dot dots = let bad : true ≡ false = unfold bytes_eq in empty in cc
one_segment (b ∷ bs) empty dot dots = rw (dot, dots) refl

-- A name without a slash that is no dot is one component.
pub components_name :
    (s : List ℕ)
    → contains_byte 47 s ≡ false
    → bytes_eq s [] ≡ false
    → bytes_eq s (46 ∷ []) ≡ false
    → bytes_eq s (46 ∷ 46 ∷ []) ≡ false
    → components s ≡ normal s ∷ []
unfolding components
components_name s slash empty dot dots = rw (segments_whole s slash) (one_segment s empty dot dots)
