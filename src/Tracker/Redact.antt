-- ===== src/Tracker/Redact.antt =====
-- src/tracker/mod.rs: the form of a tracker's URL that may stand in logs. A text is the list of its
-- characters, each as its code point.
pub mod Secrets
use rustytorrent.Base.{
  ℕ, Bool, true, false, not, ◌&&◌, ◌||◌, Option, none, some, List, [], ◌∷◌, ◌++◌, ltb, leb, ◌==◌,
  if◌then◌else◌, length, take, drop,
}
use rustytorrent.Base.Text.{codes}
use rustytorrent.Storage.Layout.{is_prefix}

abbrev pub max_chars : ℕ
max_chars = 512

-- `char::is_control`.
abbrev pub is_control : ℕ → Bool
is_control c = ltb c 0x20 || (leb 0x7f c && leb c 0x9f)

abbrev pub starts_query : ℕ → Bool
starts_query c = (c == 63) || (c == 35)

-- `split(['?', '#']).next()`.
unfoldable pub until_query : List ℕ → List ℕ
until_query [] = []
until_query (c ∷ s) = let rest = until_query s in if starts_query c then [] else c ∷ rest

abbrev pub put : ℕ → Option (List ℕ × List ℕ) → Option (List ℕ × List ℕ)
put c none = none
put c (some (front, rest)) = some (c ∷ front, rest)

-- `split_once("://")`.
unfoldable pub split_scheme : List ℕ → Option (List ℕ × List ℕ)
unfolding is_prefix
split_scheme [] = none
split_scheme (c ∷ s) =
    let more = split_scheme s in
    if is_prefix (codes "://") (c ∷ s) then some ([], drop 2 s) else put c more

-- `split_once('/')`.
unfoldable pub split_slash : List ℕ → Option (List ℕ × List ℕ)
split_slash [] = none
split_slash (c ∷ s) = let more = split_slash s in if c == 47 then some ([], s) else put c more

abbrev pub has_at : List ℕ → Bool
has_at [] = false
has_at (c ∷ s) = (c == 64) || has_at s

-- What stands behind the last `@`, or all of it: `rsplit_once('@')`.
unfoldable pub without_userinfo : List ℕ → List ℕ
without_userinfo [] = []
without_userinfo (c ∷ s) =
    let rest = without_userinfo s in if has_at s then rest else if c == 64 then s else c ∷ s

unfoldable pub with_tail : List ℕ → List ℕ → Option (List ℕ × List ℕ) → List ℕ
unfolding without_userinfo
with_tail scheme rest none = scheme ++ (codes "://" ++ without_userinfo rest)
with_tail scheme rest (some (authority, tail)) =
    scheme ++ (codes "://" ++ (without_userinfo authority ++ 47 ∷ tail))

unfoldable pub base_of : List ℕ → Option (List ℕ × List ℕ) → List ℕ
unfolding with_tail split_slash
base_of base none = base
base_of base (some (scheme, rest)) = with_tail scheme rest (split_slash rest)

unfoldable pub without_controls : List ℕ → List ℕ
without_controls [] = []
without_controls (c ∷ s) = let rest = without_controls s in if is_control c then rest else c ∷ rest

unfoldable pub bounded : List ℕ → List ℕ
unfolding without_controls
bounded base =
    let filtered = without_controls base in
    if ltb max_chars (length filtered) then take max_chars filtered ++ codes ".." else filtered

unfoldable pub redact_url_query : List ℕ → List ℕ
unfolding until_query base_of split_scheme bounded
redact_url_query url = let base = until_query url in bounded (base_of base (split_scheme base))
