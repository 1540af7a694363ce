-- ===== src/Tracker/Redact/Secrets.antt =====
-- src/tracker/mod.rs: what a log can tell of a tracker's URL.
use rustytorrent.Base.{
  ℕ, ◌≡◌, ◌≤◌, refl, ap, sym, ◌∙◌, true, false, Option, none, some, inl, inr, Bool-cases, List, [],
  ◌∷◌, ◌++◌, arith, ltb, ◌==◌, append_assoc, append-nil, length, length-append, length-take, take,
  take-All, All, All-append, of_if,
}
use rustytorrent.Base.Text.{codes}
use rustytorrent.Storage.Layout.{is_prefix}
use rustytorrent.Tracker.Redact.{
  is_control, starts_query, until_query, split_scheme, split_slash, has_at, without_userinfo,
  with_tail, base_of, without_controls, bounded, redact_url_query,
}

-- None of the characters is this one.
abbrev pub Lacks : ℕ → List ℕ → Type 0
Lacks b = All (λ c. (c == b) ≡ false)

abbrev pub HasNoQuery : List ℕ → Type 0
HasNoQuery = All (λ c. starts_query c ≡ false)

-- The path of a URL with its slash, and the query or the fragment with its mark, if it has them.
abbrev pub path_of : Option (List ℕ) → List ℕ
path_of none = []
path_of (some path) = 47 ∷ path

abbrev pub query_of : Option (ℕ × List ℕ) → List ℕ
query_of none = []
query_of (some (mark, query)) = mark ∷ query

-- A URL with credentials, up to its query.
abbrev pub url_of : List ℕ → List ℕ → List ℕ → Option (List ℕ) → List ℕ
url_of scheme user host path = scheme ++ (codes "://" ++ (user ++ (64 ∷ (host ++ path_of path))))

-- The same without the credentials.
abbrev pub plain_url_of : List ℕ → List ℕ → Option (List ℕ) → List ℕ
plain_url_of scheme host path = scheme ++ (codes "://" ++ (host ++ path_of path))

-- A query begins with one of its marks.
abbrev pub IsQuery : Option (ℕ × List ℕ) → Type 0
IsQuery none = Unit
IsQuery (some (mark, query)) = starts_query mark ≡ true

until_query-append :
    (s : List ℕ) (query : Option (ℕ × List ℕ))
    → HasNoQuery s
    → IsQuery query
    → until_query (s ++ query_of query) ≡ s
unfolding until_query
until_query-append [] none h k = refl
until_query-append [] (some (mark, query)) h k = rw k refl
until_query-append (c ∷ s) query h k = rw (h.0, until_query-append s query h.1 k) refl

split_scheme-append :
    (scheme rest : List ℕ)
    → Lacks 58 scheme
    → split_scheme (scheme ++ (codes "://" ++ rest)) ≡ some (scheme, rest)
unfolding split_scheme is_prefix
split_scheme-append [] rest h = refl
split_scheme-append (c ∷ scheme) rest h =
    let other : (58 == c) ≡ false = ground arith in
    rw (other, split_scheme-append scheme rest h.1) refl

split_slash-append : (s rest : List ℕ) → Lacks 47 s → split_slash (s ++ 47 ∷ rest) ≡ some (s, rest)
unfolding split_slash
split_slash-append [] rest h = refl
split_slash-append (c ∷ s) rest h = rw (h.0, split_slash-append s rest h.1) refl

split_slash-none : (s : List ℕ) → Lacks 47 s → split_slash s ≡ none
unfolding split_slash
split_slash-none [] h = refl
split_slash-none (c ∷ s) h = rw (h.0, split_slash-none s h.1) refl

has_at-append : (user host : List ℕ) → has_at (user ++ 64 ∷ host) ≡ true
has_at-append [] host = refl
has_at-append (c ∷ user) host = rw (has_at-append user host) (ground arith)

has_at-Lacks : (s : List ℕ) → Lacks 64 s → has_at s ≡ false
has_at-Lacks [] h = refl
has_at-Lacks (c ∷ s) h = rw (h.0, has_at-Lacks s h.1) refl

without_userinfo-append :
    (user host : List ℕ) → Lacks 64 host → without_userinfo (user ++ 64 ∷ host) ≡ host
unfolding without_userinfo
without_userinfo-append [] host h = rw (has_at-Lacks host h) refl
without_userinfo-append (c ∷ user) host h =
    rw (has_at-append user host) (without_userinfo-append user host h)

-- A scheme, credentials, a host and a path, none of which has a character that ends it early. The
-- credentials may have more signs `@`.
pub record IsUrl (scheme user host : List ℕ) (path : Option (List ℕ)) : Type 0 where
  pub scheme_lacks : Lacks 58 scheme
  pub user_lacks : Lacks 47 user
  pub host_lacks : Lacks 47 host
  pub host_lacks_at : Lacks 64 host
  pub scheme_plain : HasNoQuery scheme
  pub user_plain : HasNoQuery user
  pub host_plain : HasNoQuery host
  pub path_plain : HasNoQuery (path_of path)

url_of-HasNoQuery :
    (scheme user host : List ℕ) (path : Option (List ℕ))
    → IsUrl scheme user host path
    → HasNoQuery (url_of scheme user host path)
url_of-HasNoQuery scheme user host path h =
    let host' =
      All-append (λ c. starts_query c ≡ false) host (path_of path) h.host_plain h.path_plain in
    let user' =
      All-append (λ c. starts_query c ≡ false) user (64 ∷ (host ++ path_of path)) h.user_plain
        (refl, host') in
    All-append (λ c. starts_query c ≡ false) scheme _ h.scheme_plain (refl, (refl, (refl, user')))

authority-Lacks :
    (user host : List ℕ) → Lacks 47 user → Lacks 47 host → Lacks 47 (user ++ 64 ∷ host)
authority-Lacks user host h k = All-append (λ c. (c == 47) ≡ false) user (64 ∷ host) h (refl, k)

without_user :
    (scheme user host : List ℕ) (path : Option (List ℕ))
    → IsUrl scheme user host path
    → let rest = user ++ (64 ∷ (host ++ path_of path)) in
      with_tail scheme rest (split_slash rest) ≡ plain_url_of scheme host path
unfolding with_tail
without_user scheme user host none h =
    let bare : user ++ (64 ∷ (host ++ [])) ≡ user ++ 64 ∷ host =
      ap (λ l. user ++ 64 ∷ l) (append-nil host) in
    rw
      (
        bare,
        split_slash-none (user ++ 64 ∷ host) (authority-Lacks user host h.user_lacks h.host_lacks),
        without_userinfo-append user host h.host_lacks_at,
        append-nil host,
      )
      refl
without_user scheme user host (some path) h =
    let rest = user ++ (64 ∷ (host ++ 47 ∷ path)) in
    let split =
      split_slash-append (user ++ 64 ∷ host) path
        (authority-Lacks user host h.user_lacks h.host_lacks) in
    let parts : split_slash rest ≡ some (user ++ 64 ∷ host, path) =
      ap split_slash (sym (append_assoc user (64 ∷ host) (47 ∷ path))) ∙ split in
    rw (parts, without_userinfo-append user host h.host_lacks_at) refl

base_of-url_of :
    (scheme user host : List ℕ) (path : Option (List ℕ))
    → IsUrl scheme user host path
    → let base = url_of scheme user host path in
      base_of base (split_scheme base) ≡ plain_url_of scheme host path
unfolding base_of
base_of-url_of scheme user host path h =
    rw (split_scheme-append scheme (user ++ (64 ∷ (host ++ path_of path))) h.scheme_lacks)
      (without_user scheme user host path h)

-- A text for one line of a log.
abbrev pub IsLoggable : List ℕ → Type 0
IsLoggable text = All (λ c. is_control c ≡ false) text × (length text ≤ 514)

without_controls-All : (s : List ℕ) → All (λ c. is_control c ≡ false) (without_controls s)
unfolding without_controls
without_controls-All [] = tt
without_controls-All (c ∷ s) =
    of_if (All (λ c. is_control c ≡ false)) (is_control c) _ _ (λ _. without_controls-All s)
      (λ e. (e, without_controls-All s))

bounded-IsLoggable : (base : List ℕ) → IsLoggable (bounded base)
unfolding bounded
bounded-IsLoggable base =
    let filtered = without_controls base in
    let clean = without_controls-All base in
    of_if IsLoggable (ltb 512 (length filtered)) _ _
      (λ long. (
        All-append (λ c. is_control c ≡ false) (take 512 filtered) (codes "..")
            (take-All (λ c. is_control c ≡ false) 512 filtered clean) (refl, (refl, tt)),
        omega (arith, length-append (take 512 filtered) (codes ".."), length-take 512 filtered),
      ))
      (λ short. (clean, ground arith))

-- Take a URL made of a scheme without a colon, credentials without a slash, a host without a slash
-- or `@`, perhaps a path, and perhaps a query or a fragment behind its mark, where no part in front
-- of that mark has such a mark. Its form for logs tells neither the credentials nor the query: it is
-- that of the scheme, the host and the path, without control characters and cut off behind 512
-- characters. (Of URLs of another shape, also of one whose `://` has a control character in it, this
-- says nothing.)
pub redact_url_query_lem :
    (scheme user host : List ℕ) (path : Option (List ℕ)) (query : Option (ℕ × List ℕ))
    → IsUrl scheme user host path
    → IsQuery query
    → let text = redact_url_query (url_of scheme user host path ++ query_of query) in
      (text ≡ bounded (plain_url_of scheme host path)) × IsLoggable text
unfolding redact_url_query
redact_url_query_lem scheme user host path query h k =
    let plain = url_of-HasNoQuery scheme user host path h in
    let url = url_of scheme user host path in
    rw (until_query-append url query plain k) (
      ap bounded (base_of-url_of scheme user host path h),
      bounded-IsLoggable (base_of url (split_scheme url)),
    )

until_query_idem : (s : List ℕ) → until_query (until_query s) ≡ until_query s
unfolding until_query
until_query_idem [] = refl
until_query_idem (c ∷ s) = elim (Bool-cases (starts_query c)) [
  | inl mark ↦ rw mark refl
  | inr plain ↦ rw (plain, plain, until_query_idem s) refl
]

-- For every URL, of whatever shape, the form for logs has no control character and 514 characters at
-- most, and what stands behind the first mark of a query does not matter.
pub redact_url_query-IsLoggable :
    (url : List ℕ)
    → IsLoggable (redact_url_query url)
      × (redact_url_query url ≡ redact_url_query (until_query url))
unfolding redact_url_query
redact_url_query-IsLoggable url = (
  bounded-IsLoggable (base_of (until_query url) (split_scheme (until_query url))),
  ap (λ base. bounded (base_of base (split_scheme base))) (sym (until_query_idem url)),
)
