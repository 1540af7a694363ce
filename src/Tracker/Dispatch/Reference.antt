-- ===== src/Tracker/Dispatch/Reference.antt =====
-- src/tracker/mod.rs: the walk over the tiers asks one URL after the other until one answers.
use rustytorrent.Base.{
  ℕ, suc, ◌≡◌, refl, ap, ◌∙◌, inl, inr, not, Option, none, some, List, [], ◌∷◌, ◌++◌, append_assoc,
  append-nil, Bool-cases, if◌then◌else◌,
}
use rustytorrent.Base.Outcome.{Error, Result, ok, err}
use rustytorrent.Tracker.Udp.{AnnounceRequest, AnnounceResponse}
use rustytorrent.Tracker.Dispatch.{
  Network, Session, Contact, Attempt, refused, strict_of, tracker_url_dialable,
  announce_with_proxy_anon, Walk, looking, found, tried, try_url, walk_tier, walk_all,
  walk_fallback, last_or, conclude, walk_tiers,
}

-- The announce to one URL, with the screen in front.
abbrev pub screened : Network → Session → AnnounceRequest → ℕ → List ℕ → Attempt
screened net s req n url =
    if not (tracker_url_dialable net url (strict_of s))
    then refused
    else announce_with_proxy_anon net s req n url

-- A result in front of what follows a failure.
abbrev pub or_next :
    List ℕ
    → List Contact
    → Result AnnounceResponse
    → (Error → Result (List ℕ × AnnounceResponse) × List Contact)
    → Result (List ℕ × AnnounceResponse) × List Contact
or_next url contacts (ok r) rest = (ok (url, r), contacts)
or_next url contacts (err e) rest = ((rest e).0, contacts ++ (rest e).1)

-- The URLs are asked in turn, up to the first that answers; else the last error is the result.
abbrev pub first_answer :
    Network
    → Session
    → AnnounceRequest
    → ℕ
    → Error
    → List (List ℕ)
    → Result (List ℕ × AnnounceResponse) × List Contact
first_answer net s req n last [] = (err last, [])
first_answer net s req n last (url ∷ urls) =
    let attempt = screened net s req n url in
    or_next url attempt.contacts attempt.result λ e. first_answer net s req (suc n) e urls

abbrev pub all_urls : List (List (List ℕ)) → Option (List ℕ) → List (List ℕ)
all_urls [] none = []
all_urls [] (some url) = url ∷ []
all_urls (tier ∷ tiers) fallback_single = tier ++ all_urls tiers fallback_single

walk_tier-append :
    (net : Network) (s : Session) (req : AnnounceRequest) (w : Walk) (a b : List (List ℕ))
    → walk_tier net s req (walk_tier net s req w a) b ≡ walk_tier net s req w (a ++ b)
unfolding walk_tier
walk_tier-append net s req w [] b = refl
walk_tier-append net s req (found url r contacts) (_ ∷ a) [] = refl
walk_tier-append net s req (found url r contacts) (_ ∷ a) (_ ∷ b) = refl
walk_tier-append net s req (looking last n contacts) (url ∷ a) b =
    walk_tier-append net s req (try_url net s req n contacts url) a b

walk_fallback-walk_tier :
    (net : Network) (s : Session) (req : AnnounceRequest) (w : Walk) (fallback : Option (List ℕ))
    → walk_fallback net s req w fallback ≡ walk_tier net s req w (all_urls [] fallback)
unfolding walk_fallback walk_tier
walk_fallback-walk_tier net s req w none = refl
walk_fallback-walk_tier net s req (found url r contacts) (some _) = refl
walk_fallback-walk_tier net s req (looking last n contacts) (some url) = refl

walk_all-walk_tier :
    (net : Network) (s : Session) (req : AnnounceRequest) (w : Walk) (tiers : List (List (List ℕ)))
    (fallback : Option (List ℕ))
    → walk_fallback net s req (walk_all net s req w tiers) fallback
      ≡ walk_tier net s req w (all_urls tiers fallback)
unfolding walk_all
walk_all-walk_tier net s req w [] fallback = walk_fallback-walk_tier net s req w fallback
walk_all-walk_tier net s req w (tier ∷ tiers) fallback =
    walk_all-walk_tier net s req (walk_tier net s req w tier) tiers fallback
    ∙ walk_tier-append net s req w tier (all_urls tiers fallback)

-- The announces that came first.
abbrev behind :
    List Contact
    → Result (List ℕ × AnnounceResponse) × List Contact
    → Result (List ℕ × AnnounceResponse) × List Contact
behind contacts p = (p.0, contacts ++ p.1)

try_url-tried :
    (net : Network) (s : Session) (req : AnnounceRequest) (n : ℕ) (contacts : List Contact)
    (url : List ℕ)
    → let attempt = screened net s req n url in
      try_url net s req n contacts url ≡ tried url n (contacts ++ attempt.contacts) attempt.result
unfolding try_url tried
try_url-tried net s req n contacts url =
    elim (Bool-cases (tracker_url_dialable net url (strict_of s))) [
      | inl e ↦ rw e refl
      | inr e ↦ rw (e, append-nil contacts) refl
    ]

walk_tier-found :
    (net : Network) (s : Session) (req : AnnounceRequest) (url : List ℕ) (r : AnnounceResponse)
    (contacts : List Contact) (urls : List (List ℕ))
    → conclude (walk_tier net s req (found url r contacts) urls) ≡ (ok (url, r), contacts)
unfolding walk_tier conclude
walk_tier-found net s req url r contacts [] = refl
walk_tier-found net s req url r contacts (_ ∷ urls) = refl

walk_tier-first_answer :
    (net : Network) (s : Session) (req : AnnounceRequest) (last : Option Error) (n : ℕ)
    (contacts : List Contact) (urls : List (List ℕ))
    → conclude (walk_tier net s req (looking last n contacts) urls)
      ≡ behind contacts (first_answer net s req n (last_or last) urls)
unfolding walk_tier conclude
walk_tier-first_answer net s req last n contacts [] = rw (append-nil contacts) refl
walk_tier-first_answer net s req last n contacts (url ∷ urls) =
    let attempt = screened net s req n url in
    rw (try_url-tried net s req n contacts url) (
      of_result attempt.contacts attempt.result
        λ e. walk_tier-first_answer net s req (some e) (suc n) (contacts ++ attempt.contacts) urls)
  where
    of_result :
        (made : List Contact) (result : Result AnnounceResponse)
        → ((e : Error)
            → conclude (walk_tier net s req (looking (some e) (suc n) (contacts ++ made)) urls)
              ≡ behind (contacts ++ made) (first_answer net s req (suc n) e urls))
        → conclude (walk_tier net s req (tried url n (contacts ++ made) result) urls)
          ≡ behind contacts (or_next url made result λ e. first_answer net s req (suc n) e urls)
    of_result made (ok r) next =
        unfold tried in walk_tier-found net s req url r (contacts ++ made) urls
    of_result made (err e) next =
        let rest = first_answer net s req (suc n) e urls in
        unfold tried in next e ∙ ap (λ l. (rest.0, l)) (append_assoc contacts made rest.1)

-- The walk over the tiers and the single URL is the walk over the flat list of their URLs, in order:
-- a URL that the screen refuses is passed over, the others are asked in turn, and the first that
-- answers ends it. Its result is that URL with the response, or else the error of the last URL, and
-- no URL behind the first answer is asked.
pub walk_tiers-first_answer :
    (net : Network) (s : Session) (req : AnnounceRequest) (tiers : List (List (List ℕ)))
    (fallback : Option (List ℕ))
    → walk_tiers net s req tiers fallback
      ≡ first_answer net s req 0 Error.tracker (all_urls tiers fallback)
unfolding walk_tiers last_or
walk_tiers-first_answer net s req tiers fallback =
    ap conclude (walk_all-walk_tier net s req (looking none 0 []) tiers fallback)
    ∙ walk_tier-first_answer net s req none 0 [] (all_urls tiers fallback)
