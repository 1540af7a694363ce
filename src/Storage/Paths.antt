-- ===== src/Storage/Paths.antt =====
-- src/storage/layout.rs: the checks of the paths that a torrent file brings.
-- A path is the list of components that `Path::components` yields, and a name in it is the list of
-- its bytes.

use rustytorrent.Base.Bytes.{bytes_eq}
use rustytorrent.Base.{
  ℕ, ◌+◌, Bool, true, false, ◌&&◌, ◌||◌, List, [], ◌∷◌, ◌++◌, leb, ◌==◌, if◌then◌else◌, is_empty,
}
use rustytorrent.Base.Outcome.{Error, Result, ok, err, ◌>>◌}

-- `std::path::Component`; `prefix` is a drive or share of Windows.
pub data Component : Type 0 where
  prefix : List ℕ → Component
  root_dir cur_dir parent_dir : Component
  normal : List ℕ → Component

abbrev pub PathBuf : Type 0
PathBuf = List Component

unfoldable pub component_eq : Component → Component → Bool
unfolding bytes_eq
component_eq (prefix a) (prefix b) = bytes_eq a b
component_eq root_dir root_dir = true
component_eq cur_dir cur_dir = true
component_eq parent_dir parent_dir = true
component_eq (normal a) (normal b) = bytes_eq a b
component_eq _ _ = false

-- `str::to_ascii_lowercase`.
unfoldable pub to_ascii_lowercase : List ℕ → List ℕ
to_ascii_lowercase [] = []
to_ascii_lowercase (b ∷ bs) = (if leb 65 b && leb b 90 then b + 32 else b) ∷ to_ascii_lowercase bs

-- `trim_end_matches([' ', '.'])`.
unfoldable pub trim_end : List ℕ → List ℕ
trim_end [] = []
trim_end (b ∷ bs) =
    let rest = trim_end bs in if is_empty rest && (b == 32 || b == 46) then [] else b ∷ rest

-- `split('.').next()`: what stands before the first dot.
unfoldable pub stem : List ℕ → List ℕ
stem [] = []
stem (b ∷ bs) = let rest = stem bs in if b == 46 then [] else b ∷ rest

unfoldable pub contains : List (List ℕ) → List ℕ → Bool
unfolding bytes_eq
contains [] name = false
contains (n ∷ ns) name = bytes_eq n name || contains ns name

-- The digits 1 to 9 behind a stem: `com1` to `com9`.
abbrev numbered : ℕ → ℕ → ℕ → List (List ℕ)
numbered a b c =
    (a ∷ b ∷ c ∷ 49 ∷ [])
    ∷ (a ∷ b ∷ c ∷ 50 ∷ [])
    ∷ (a ∷ b ∷ c ∷ 51 ∷ [])
    ∷ (a ∷ b ∷ c ∷ 52 ∷ [])
    ∷ (a ∷ b ∷ c ∷ 53 ∷ [])
    ∷ (a ∷ b ∷ c ∷ 54 ∷ [])
    ∷ (a ∷ b ∷ c ∷ 55 ∷ [])
    ∷ (a ∷ b ∷ c ∷ 56 ∷ [])
    ∷ (a ∷ b ∷ c ∷ 57 ∷ [])
    ∷ []

-- `con`, `prn`, `aux`, `nul`, `com1` to `com9` and `lpt1` to `lpt9`.
abbrev pub windows_reserved : List (List ℕ)
windows_reserved =
    (99 ∷ 111 ∷ 110 ∷ [])
    ∷ (112 ∷ 114 ∷ 110 ∷ [])
    ∷ (97 ∷ 117 ∷ 120 ∷ [])
    ∷ (110 ∷ 117 ∷ 108 ∷ [])
    ∷ (numbered 99 111 109 ++ numbered 108 112 116)

unfoldable pub is_windows_reserved : List ℕ → Bool
unfolding to_ascii_lowercase trim_end stem contains
is_windows_reserved name = contains windows_reserved (stem (trim_end (to_ascii_lowercase name)))

-- `Path::join`: an absolute path replaces the base.
unfoldable pub join : PathBuf → PathBuf → PathBuf
join base (root_dir ∷ rel) = root_dir ∷ rel
join base (prefix p ∷ rel) = prefix p ∷ rel
join base rel = base ++ rel

-- `Path::starts_with`, component by component.
unfoldable pub starts_with : PathBuf → PathBuf → Bool
unfolding component_eq
starts_with path [] = true
starts_with [] (b ∷ base) = false
starts_with (a ∷ path) (b ∷ base) = component_eq a b && starts_with path base

unfoldable pub joined_under_root : PathBuf → PathBuf → Result PathBuf
unfolding join starts_with
joined_under_root base rel =
    let full = join base rel in if starts_with full base then ok full else err Error.bencode

unfoldable pub ensure_safe_leaf_name : PathBuf → Result (Unit {0})
unfolding is_windows_reserved
ensure_safe_leaf_name (normal part ∷ []) =
    if is_windows_reserved part then err Error.bencode else ok tt
ensure_safe_leaf_name _ = err Error.bencode

-- The loop of `ensure_safe_relative_path`.
unfoldable pub check_components : PathBuf → Result (Unit {0})
unfolding is_windows_reserved
check_components [] = ok tt
check_components (normal part ∷ path) =
    let rest = check_components path in if is_windows_reserved part then err Error.bencode else rest
check_components (_ ∷ path) = err Error.bencode

unfoldable pub ensure_safe_relative_path : PathBuf → Result (Unit {0})
unfolding check_components
ensure_safe_relative_path path =
    check_components path >> (if is_empty path then err Error.bencode else ok tt)
