-- ===== src/Tracker/Dispatch/Privacy.antt =====
-- src/tracker/mod.rs: which trackers a session may be seen by.
use rustytorrent.Base.{
  ℕ, suc, ◌≡◌, refl, Bool, true, false, not, ◌&&◌, ◌||◌, Option, List, [], ◌∷◌, arith, All,
  All-append, of_if,
}
use rustytorrent.Base.Text.{codes}
use rustytorrent.Base.Outcome.{Error, Result, ok, err}
use rustytorrent.Storage.Layout.{is_prefix}
use rustytorrent.Tracker.Udp.{AnnounceRequest, AnnounceResponse}
use rustytorrent.Tracker.Dispatch.{
  Network, Session, Contact, over_udp, over_http, Attempt, strict_of, tracker_url_dialable,
  announce_with_proxy_anon, walk_tiers,
}
use rustytorrent.Tracker.Dispatch.Reference.{
  screened, or_next, first_answer, all_urls, walk_tiers-first_answer,
}

-- An announce that a session may make.
abbrev pub IsPermitted : Network → Session → Contact → Type 0
IsPermitted net s (over_udp url) =
    (s.anonymous ≡ false)
    × (s.is_proxied ≡ false)
    × (is_prefix (codes "udp://") url ≡ true)
    × (tracker_url_dialable net url (strict_of s) ≡ true)
IsPermitted net s (over_http url proxied anonymous) =
    (proxied ≡ s.is_proxied)
    × (anonymous ≡ s.anonymous)
    × (anonymous ≡ true → proxied ≡ true)
    × (tracker_url_dialable net url (strict_of s) ≡ true)

announce_with_proxy_anon-IsPermitted :
    (net : Network) (s : Session) (req : AnnounceRequest) (n : ℕ) (url : List ℕ)
    → tracker_url_dialable net url (strict_of s) ≡ true
    → All (IsPermitted net s) (announce_with_proxy_anon net s req n url).contacts
unfolding announce_with_proxy_anon
announce_with_proxy_anon-IsPermitted net s req n url h =
    of_if Permitted (s.anonymous && not s.is_proxied) _ _ (λ _. tt)
      λ gate.
        of_if Permitted (is_prefix (codes "udp://") url) _ _
          (λ udp.
            of_if Permitted (s.anonymous || s.is_proxied) _ _ (λ _. tt)
              λ plain.
                let both = of_or s.anonymous s.is_proxied plain in ((both.0, both.1, udp, h), tt))
          λ _.
            of_if Permitted (is_prefix (codes "http://") url || is_prefix (codes "https://") url) _
              _ (λ _. ((refl, refl, of_gate s.anonymous s.is_proxied gate, h), tt)) (λ _. tt)
  where
    Permitted : Attempt → Type 0
    Permitted a = All (IsPermitted net s) a.contacts

    of_or : (a b : Bool) → a || b ≡ false → (a ≡ false) × (b ≡ false)
    of_or a b e = ground arith

    of_gate : (a b : Bool) → a && not b ≡ false → a ≡ true → b ≡ true
    of_gate a b e k = ground arith

first_answer-IsPermitted :
    (net : Network) (s : Session) (req : AnnounceRequest) (n : ℕ) (last : Error)
    (urls : List (List ℕ))
    → All (IsPermitted net s) (first_answer net s req n last urls).1
first_answer-IsPermitted net s req n last [] = tt
first_answer-IsPermitted net s req n last (url ∷ urls) =
    let attempt = screened net s req n url in
    of_result attempt.contacts attempt.result
      (of_if (λ (a : Attempt). All (IsPermitted net s) a.contacts)
        (not (tracker_url_dialable net url (strict_of s))) _ _ (λ _. tt)
        λ e. announce_with_proxy_anon-IsPermitted net s req n url (ground arith))
      λ e. first_answer-IsPermitted net s req (suc n) e urls
  where
    of_result :
        (made : List Contact) (result : Result AnnounceResponse)
        → All (IsPermitted net s) made
        → ((e : Error) → All (IsPermitted net s) (first_answer net s req (suc n) e urls).1)
        → All
            (IsPermitted net s)
            (or_next url made result λ e. first_answer net s req (suc n) e urls).1
    of_result made (ok r) h next = h
    of_result made (err e) h next = All-append (IsPermitted net s) made _ h (next e)

-- Whatever URLs a torrent lists, every announce of the walk goes to a host that passes the screen,
-- whose strictness is that of the session. A session that is anonymous or has a proxy announces
-- nothing over UDP; over HTTP, one with a proxy goes through it, and an anonymous one never goes
-- without.
pub walk_tiers-IsPermitted :
    (net : Network) (s : Session) (req : AnnounceRequest) (tiers : List (List (List ℕ)))
    (fallback : Option (List ℕ))
    → All (IsPermitted net s) (walk_tiers net s req tiers fallback).1
walk_tiers-IsPermitted net s req tiers fallback =
    rw (walk_tiers-first_answer net s req tiers fallback)
      (first_answer-IsPermitted net s req 0 Error.tracker (all_urls tiers fallback))
