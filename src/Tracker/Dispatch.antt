-- ===== src/Tracker/Dispatch.antt =====
-- src/tracker/mod.rs: an announce to one URL or to the tiers of a torrent (BEP 12).
--
-- The `Network` holds what these functions call: the parser of URLs, the host with its resolver and
-- sockets, what a tracker answers over UDP, and the HTTP tracker of src/tracker/http.rs. The number
-- that the last two take counts the URLs before. Only whether there is a proxy matters here.
pub mod Reference
pub mod Privacy
use rustytorrent.Base.{
  ℕ, zero, suc, Bool, true, false, not, ◌&&◌, ◌||◌, Option, none, some, List, [], ◌∷◌, ◌++◌,
  if◌then◌else◌,
}
use rustytorrent.Base.Text.{codes}
use rustytorrent.Base.Outcome.{Error, Result, ok, err}
use rustytorrent.Net.Screen.{IpAddr, is_dialable_url_host}
use rustytorrent.Storage.Layout.{is_prefix}
use rustytorrent.Tracker.Udp.{AnnounceRequest, AnnounceResponse}
use rustytorrent.Tracker.Udp.Exchange.{World}
use rustytorrent.Tracker.Udp.Target.{Host}
use rustytorrent.Tracker.Udp.Target

pub record Network : Type 0 where
  -- `Url::parse` and `host_str`; a domain has no address.
  pub host_of : List ℕ → Option (Option IpAddr)
  pub host : Host
  pub world : ℕ → World
  -- The URL, whether over the proxy, and whether anonymously.
  pub http : ℕ → List ℕ → Bool → Bool → AnnounceRequest → Result AnnounceResponse

pub record Session : Type 0 where
  pub is_proxied : Bool
  pub anonymous : Bool

-- An announce that leaves this function: to a URL, over HTTP also by which way.
pub data Contact : Type 0 where
  over_udp : List ℕ → Contact
  over_http : List ℕ → Bool → Bool → Contact

pub record Attempt : Type 0 where
  pub result : Result AnnounceResponse
  pub contacts : List Contact

unfoldable pub host_dialable : Option (Option IpAddr) → Bool → Bool
unfolding is_dialable_url_host
host_dialable none strict = false
host_dialable (some h) strict = is_dialable_url_host h strict

unfoldable pub tracker_url_dialable : Network → List ℕ → Bool → Bool
unfolding host_dialable
tracker_url_dialable net url strict = host_dialable (net.host_of url) strict

abbrev pub strict_of : Session → Bool
strict_of s = s.anonymous || s.is_proxied

abbrev pub refused : Attempt
refused = record { result = err Error.tracker; contacts = [] }

unfoldable pub announce_with_proxy_anon : Network → Session → AnnounceRequest → ℕ → List ℕ → Attempt
unfolding is_prefix Target.announce
announce_with_proxy_anon net s req n url =
    if s.anonymous && not s.is_proxied
    then refused
    else if is_prefix (codes "udp://") url
    then (if s.anonymous || s.is_proxied then refused else record {
      result = Target.announce net.host (net.world n) url req;
      contacts = over_udp url ∷ [];
    })
    else if is_prefix (codes "http://") url || is_prefix (codes "https://") url
    then record {
      result = net.http n url s.is_proxied s.anonymous req;
      contacts = over_http url s.is_proxied s.anonymous ∷ [];
    }
    else refused

unfoldable pub announce_screened : Network → Session → AnnounceRequest → ℕ → List ℕ → Attempt
unfolding tracker_url_dialable
announce_screened net s req n url =
    if not (tracker_url_dialable net url (strict_of s)) then refused else record {
      result = net.http n url s.is_proxied s.anonymous req;
      contacts = over_http url s.is_proxied s.anonymous ∷ [];
    }

-- Where the walk stands: it looks on, with the last error and the number of URLs behind it, or it
-- has returned. The announces that were made come with it.
pub data Walk : Type 0 where
  looking : Option Error → ℕ → List Contact → Walk
  found : List ℕ → AnnounceResponse → List Contact → Walk

unfoldable pub tried : List ℕ → ℕ → List Contact → Result AnnounceResponse → Walk
tried url n contacts (ok r) = found url r contacts
tried url n contacts (err e) = looking (some e) (suc n) contacts

-- The body of the loop.
unfoldable pub try_url : Network → Session → AnnounceRequest → ℕ → List Contact → List ℕ → Walk
unfolding tracker_url_dialable announce_with_proxy_anon tried
try_url net s req n contacts url =
    if not (tracker_url_dialable net url (strict_of s))
    then looking (some Error.tracker) (suc n) contacts
    else (let attempt = announce_with_proxy_anon net s req n url in
        tried url n (contacts ++ attempt.contacts) attempt.result)

-- `for url in tier`; what was found is returned at once.
unfoldable pub walk_tier : Network → Session → AnnounceRequest → Walk → List (List ℕ) → Walk
unfolding try_url
walk_tier net s req w [] = w
walk_tier net s req (found url r contacts) (_ ∷ tier) = found url r contacts
walk_tier net s req (looking last n contacts) (url ∷ tier) =
    walk_tier net s req (try_url net s req n contacts url) tier

-- `for tier in tiers`.
unfoldable pub walk_all : Network → Session → AnnounceRequest → Walk → List (List (List ℕ)) → Walk
unfolding walk_tier
walk_all net s req w [] = w
walk_all net s req w (tier ∷ tiers) = walk_all net s req (walk_tier net s req w tier) tiers

-- `if let Some(url) = fallback_single`: the body is that of the loop, since the refusal that it
-- returns is also the last error.
unfoldable pub walk_fallback : Network → Session → AnnounceRequest → Walk → Option (List ℕ) → Walk
unfolding try_url
walk_fallback net s req w none = w
walk_fallback net s req (found url r contacts) (some _) = found url r contacts
walk_fallback net s req (looking last n contacts) (some url) = try_url net s req n contacts url

unfoldable pub last_or : Option Error → Error
last_or none = Error.tracker
last_or (some e) = e

-- The result, and the announces that were made.
unfoldable pub conclude : Walk → Result (List ℕ × AnnounceResponse) × List Contact
unfolding last_or
conclude (found url r contacts) = (ok (url, r), contacts)
conclude (looking last n contacts) = (err (last_or last), contacts)

unfoldable pub walk_tiers :
    Network
    → Session
    → AnnounceRequest
    → List (List (List ℕ))
    → Option (List ℕ)
    → Result (List ℕ × AnnounceResponse) × List Contact
unfolding walk_all walk_fallback conclude
walk_tiers net s req tiers fallback_single =
    conclude
      (walk_fallback net s req (walk_all net s req (looking none 0 []) tiers) fallback_single)
