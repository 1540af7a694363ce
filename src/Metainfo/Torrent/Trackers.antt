-- ===== src/Metainfo/Torrent/Trackers.antt =====
-- src/metainfo/torrent.rs: the list of trackers.
use rustytorrent.Base.{
  ℕ, ◌≡◌, refl, ap, ◌∙◌, inl, inr, Bool, true, false, ◌||◌, List, [], ◌∷◌, ◌++◌, Option, none, some,
  arith, Bool-cases,
}
use rustytorrent.Base.Bytes.{bytes_eq, bytes_eq_comm, bytes_eq→eq}
use rustytorrent.Storage.Paths.{contains}
use rustytorrent.Metainfo.Torrent.File.{TorrentFile, add_urls, add_tiers, trackers}

-- No address stands twice.
abbrev pub HasNoRepeats : List (List ℕ) → Type 0
HasNoRepeats [] = Unit
HasNoRepeats (u ∷ us) = (contains us u ≡ false) × HasNoRepeats us

-- An address of one of the tiers.
abbrev pub any_contains : List (List (List ℕ)) → List ℕ → Bool
any_contains [] u = false
any_contains (tier ∷ tiers) u = contains tier u || any_contains tiers u

-- The single tracker of the file.
abbrev pub is_announce : Option (List ℕ) → List ℕ → Bool
is_announce none u = false
is_announce (some a) u = bytes_eq a u

contains-append :
    (xs ys : List (List ℕ)) (u : List ℕ) → contains (xs ++ ys) u ≡ (contains xs u || contains ys u)
unfolding contains
contains-append [] ys u = refl
contains-append (x ∷ xs) ys u = ground (arith, contains-append xs ys u)

append-HasNoRepeats :
    (xs : List (List ℕ)) (u : List ℕ)
    → HasNoRepeats xs
    → contains xs u ≡ false
    → HasNoRepeats (xs ++ u ∷ [])
unfolding contains
append-HasNoRepeats [] u h new = (refl, tt)
append-HasNoRepeats (x ∷ xs) u h new =
    let e = contains-append xs (u ∷ []) x in
    let c = bytes_eq_comm x u in
    let here : bytes_eq x u ≡ false = ground arith in
    let later : contains xs u ≡ false = ground arith in
    let fresh : contains (xs ++ u ∷ []) x ≡ false = ground arith in
    (fresh, append-HasNoRepeats xs u h.1 later)

add_urls-HasNoRepeats : (out us : List (List ℕ)) → HasNoRepeats out → HasNoRepeats (add_urls out us)
unfolding add_urls
add_urls-HasNoRepeats out [] h = h
add_urls-HasNoRepeats out (u ∷ us) h = elim (Bool-cases (contains out u)) [
  | inl e ↦ rw e (add_urls-HasNoRepeats out us h)
  | inr e ↦ rw e (add_urls-HasNoRepeats (out ++ u ∷ []) us (append-HasNoRepeats out u h e))
]

contains_of_eq :
    (xs : List (List ℕ)) (u v : List ℕ)
    → contains xs u ≡ true
    → bytes_eq u v ≡ true
    → contains xs v ≡ true
contains_of_eq xs u v h e = let same = bytes_eq→eq u v e in rw same at h

add_urls-contains :
    (out us : List (List ℕ)) (v : List ℕ)
    → contains (add_urls out us) v ≡ (contains out v || contains us v)
unfolding add_urls contains
add_urls-contains out [] v = ground arith
add_urls-contains out (u ∷ us) v = elim (Bool-cases (contains out u)) [
  | inl e ↦
      let ih = add_urls-contains out us v in
      let old = contains_of_eq out u v e in rw e (ground arith)
  | inr e ↦
      let ih = add_urls-contains (out ++ u ∷ []) us v in
      let split = contains-append out (u ∷ []) v in rw e (ground arith)
]

add_tiers-HasNoRepeats :
    (out : List (List ℕ)) (tiers : List (List (List ℕ)))
    → HasNoRepeats out
    → HasNoRepeats (add_tiers out tiers)
unfolding add_tiers
add_tiers-HasNoRepeats out [] h = h
add_tiers-HasNoRepeats out (tier ∷ tiers) h =
    add_tiers-HasNoRepeats (add_urls out tier) tiers (add_urls-HasNoRepeats out tier h)

add_tiers-contains :
    (out : List (List ℕ)) (tiers : List (List (List ℕ))) (u : List ℕ)
    → contains (add_tiers out tiers) u ≡ (contains out u || any_contains tiers u)
unfolding add_tiers
add_tiers-contains out [] u = ground arith
add_tiers-contains out (tier ∷ tiers) u =
    let ih = add_tiers-contains (add_urls out tier) tiers u in
    let step = add_urls-contains out tier u in ground arith

with_announce :
    (out : List (List ℕ)) (o : Option (List ℕ)) (u : List ℕ)
    → HasNoRepeats out
    → HasNoRepeats (elim o [ none ↦ out | some a ↦ add_urls out (a ∷ []) ])
      × (contains (elim o [ none ↦ out | some a ↦ add_urls out (a ∷ []) ]) u
          ≡ (contains out u || is_announce o u))
with_announce out none u h = (h, ground arith)
with_announce out (some a) u h =
    let e = add_urls-contains out (a ∷ []) u in
    (add_urls-HasNoRepeats out (a ∷ []) h, unfold contains in ground arith)

-- The list of trackers names no address twice, and it names exactly the addresses of the tiers and
-- the single tracker.
pub trackers_lem :
    (t : TorrentFile) (u : List ℕ)
    → HasNoRepeats (trackers t)
      × (contains (trackers t) u ≡ (any_contains t.announce_list u || is_announce t.announce u))
unfolding trackers contains
trackers_lem t u =
    let tiers = add_tiers-contains [] t.announce_list u in
    let fresh = add_tiers-HasNoRepeats [] t.announce_list tt in
    let last = with_announce (add_tiers [] t.announce_list) t.announce u fresh in
    (last.0, last.1 ∙ ap (λ b. b || is_announce t.announce u) tiers)
