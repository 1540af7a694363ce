-- ===== src/Metainfo/Magnet/Limits.antt =====
-- src/magnet.rs: what a link that is accepted guarantees.
use rustytorrent.Base.{
  ℕ, zero, suc, ◌*◌, ◌≤◌, ◌≡◌, refl, ap, inl, inr, true, false, List, [], ◌∷◌, Option, none, some,
  arith, ◌==◌, Bool-cases, length, is_empty, take, length-take, of_if, of_test,
}
use rustytorrent.Base.Bytes.{bytes_eq, bytes_eq_refl, bytes_eq→eq}
use rustytorrent.Base.Outcome.{Error, ok, err, Holds, Holds-bind, Holds-after}
use rustytorrent.Storage.Paths.{contains}
use rustytorrent.Metainfo.Torrent.Trackers.{HasNoRepeats}
use rustytorrent.Metainfo.Magnet.{
  MagnetLink, Params, max_trackers, hex_byte, parse_hex_20, base32_from, parse_base32_20,
  parse_info_hash, set_hash, set_name, add_tracker, set_param, read_pair, read_pairs, retain_new,
  link_of, text, strip_prefix, btih_prefix, magnet_prefix, xt_key, dn_key, tr_key, split_once,
  percent_decode, split, parse,
}

-- Each pair of digits is a byte.
parse_hex_20-length :
    (n : ℕ) (s : List ℕ) → length s ≡ 2 * n → Holds (λ h. length h ≡ n) (parse_hex_20 s)
unfolding parse_hex_20
parse_hex_20-length n [] h = omega arith
parse_hex_20-length n (a ∷ []) h = absurd (omega arith)
parse_hex_20-length zero (a ∷ b ∷ s) h = absurd (omega arith)
parse_hex_20-length (suc n) (a ∷ b ∷ s) h =
    Holds-after (λ h. length h ≡ suc n) (hex_byte a b) _
      λ x.
        Holds-bind (λ h. length h ≡ n) (λ h. length h ≡ suc n) (parse_hex_20 s) _
          (parse_hex_20-length n s (omega arith)) λ xs e. ap suc e

abbrev Is20 : List ℕ → Type 0
Is20 h = length h ≡ 20

parse_info_hash-Is20 : (s : List ℕ) → Holds Is20 (parse_info_hash s)
unfolding parse_info_hash parse_base32_20
parse_info_hash-Is20 s =
    of_if (Holds Is20) (length s == 40) _ _ (λ e. parse_hex_20-length 20 s (ground arith))
      λ _.
        of_if (Holds Is20) (length s == 32) _ _
          (λ _. Holds-after Is20 (base32_from 0 0 s) _ λ out.
            of_if (Holds Is20) (length out == 20) (ok out) (err Error.bencode) (λ e. ground arith)
              (λ _. tt))
          (λ _. tt)

-- A hash that has been read has 20 bytes.
abbrev FitsHash : Option (List ℕ) → Type 0
FitsHash none = Unit
FitsHash (some h) = Is20 h

abbrev Fits : Params → Type 0
Fits p = FitsHash p.info_hash

set_param-Fits : (p : Params) (k decoded : List ℕ) → Fits p → Holds Fits (set_param p k decoded)
unfolding set_param set_hash set_name add_tracker
set_param-Fits p k decoded h =
    of_if (Holds Fits) (bytes_eq k xt_key) _ _
      (λ _. Holds-after Fits (text decoded) _ λ s.
        Holds-after Fits (strip_prefix btih_prefix s) _
          λ t. Holds-bind Is20 Fits (parse_info_hash t) _ (parse_info_hash-Is20 t) λ hash e. e)
      λ _.
        of_if (Holds Fits) (bytes_eq k dn_key) _ _ (λ _. Holds-after Fits (text decoded) _ λ s. h)
          λ _.
            of_if (Holds Fits) (bytes_eq k tr_key) _ _
              (λ _. Holds-after Fits (text decoded) _ λ s. h) (λ _. h)

read_pairs-Fits : (p : Params) (pairs : List (List ℕ)) → Fits p → Holds Fits (read_pairs p pairs)
unfolding read_pairs read_pair
read_pairs-Fits p [] h = h
read_pairs-Fits p (pair ∷ pairs) h =
    Holds-bind Fits Fits (read_pair p pair) _ one λ q fits. read_pairs-Fits q pairs fits
  where
    one : Holds Fits (read_pair p pair)
    one =
        of_test (Holds Fits) (is_empty pair) _ _ (λ _. h)
          λ _. Holds-after Fits (split_once pair) _ λ kv.
            Holds-after Fits (percent_decode kv.1) _ λ decoded. set_param-Fits p kv.0 decoded h

contains-seen :
    (seen ts : List (List ℕ)) (u : List ℕ)
    → contains seen u ≡ true
    → contains (retain_new seen ts) u ≡ false
unfolding retain_new contains
contains-seen seen [] u h = refl
contains-seen seen (t ∷ ts) u h =
    of_test (λ xs. contains xs u ≡ false) (contains seen t) _ _ (λ _. contains-seen seen ts u h)
      λ new.
        let later : contains (t ∷ seen) u ≡ true = ground arith in
        let ih = contains-seen (t ∷ seen) ts u later in
        elim (Bool-cases (bytes_eq t u)) [
          | inl e ↦
              let same = bytes_eq→eq t u e in
              let bad = rw same at new in absurd (let no : true ≡ false = cc in cc)
          | inr e ↦ rw e ih
        ]

retain_new-HasNoRepeats : (seen ts : List (List ℕ)) → HasNoRepeats (retain_new seen ts)
unfolding retain_new
retain_new-HasNoRepeats seen [] = tt
retain_new-HasNoRepeats seen (t ∷ ts) =
    of_test HasNoRepeats (contains seen t) _ _ (λ _. retain_new-HasNoRepeats seen ts)
      λ _. (
        contains-seen (t ∷ seen) ts t (unfold contains in rw (bytes_eq_refl t) refl),
        retain_new-HasNoRepeats (t ∷ seen) ts,
      )

contains-take :
    (n : ℕ) (xs : List (List ℕ)) (u : List ℕ)
    → contains xs u ≡ false
    → contains (take n xs) u ≡ false
unfolding contains
contains-take zero xs u h = refl
contains-take (suc n) [] u h = refl
contains-take (suc n) (x ∷ xs) u h =
    let here : bytes_eq x u ≡ false = ground arith in
    let later : contains xs u ≡ false = ground arith in rw here (contains-take n xs u later)

take-HasNoRepeats : (n : ℕ) (xs : List (List ℕ)) → HasNoRepeats xs → HasNoRepeats (take n xs)
take-HasNoRepeats zero xs h = tt
take-HasNoRepeats (suc n) [] h = tt
take-HasNoRepeats (suc n) (x ∷ xs) h = (contains-take n xs x h.0, take-HasNoRepeats n xs h.1)

abbrev pub IsLimited : MagnetLink → Type 0
IsLimited m =
    (length m.info_hash ≡ 20) × HasNoRepeats m.trackers × (length m.trackers ≤ max_trackers)

link_of-IsLimited : (p : Params) → Fits p → Holds IsLimited (link_of p)
unfolding link_of
link_of-IsLimited p h = of_hash p.info_hash h
  where
    of_hash :
        (o : Option (List ℕ))
        → FitsHash o
        → Holds IsLimited (elim o [
          | none ↦ err Error.bencode
          | some hash ↦ ok (record {
            info_hash = hash;
            display_name = p.display_name;
            trackers = take max_trackers (retain_new [] p.trackers);
          })
        ])
    of_hash none fits = tt
    of_hash (some hash) fits = (
      fits,
      take-HasNoRepeats max_trackers (retain_new [] p.trackers)
          (retain_new-HasNoRepeats [] p.trackers),
      omega (arith, length-take max_trackers (retain_new [] p.trackers)),
    )

parse-Holds : (uri : List ℕ) → Holds IsLimited (parse uri)
unfolding parse
parse-Holds uri = Holds-after IsLimited (strip_prefix magnet_prefix uri) _ λ query.
    Holds-bind Fits IsLimited
      (read_pairs (record { info_hash = none; display_name = none; trackers = [] }) (split query))
      link_of
      (read_pairs-Fits (record { info_hash = none; display_name = none; trackers = [] })
        (split query) tt)
      link_of-IsLimited

-- A magnet link that is accepted has an info hash of 20 bytes, and at most 64 trackers, none of
-- them twice.
pub parse-IsLimited : (uri : List ℕ) (m : MagnetLink) → parse uri ≡ ok m → IsLimited m
parse-IsLimited uri m h = let holds = parse-Holds uri in rw h at holds
