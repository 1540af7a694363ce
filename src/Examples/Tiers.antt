-- ===== src/Examples/Tiers.antt =====
-- src/tracker/mod.rs, src/tracker/udp.rs: the theorems on the walk over the tiers, at a concrete one.
use rustytorrent.Base.{
  Option, refl, arith, ◌++◌, ℕ, zero, suc, ◌≡◌, true, none, some, List, [], ◌∷◌, replicate, All,
}
use rustytorrent.Base.Text.{codes}
use rustytorrent.Base.Outcome.{Error, Result, ok, err}
use rustytorrent.Net.Screen.{v4, SocketAddr}
use rustytorrent.Tracker.Udp.{started, AnnounceRequest, AnnounceResponse}
use rustytorrent.Tracker.Udp.Exchange.{timed_out}
use rustytorrent.Tracker.Udp.Target.{pick_udp_addr}
use rustytorrent.Tracker.Udp.Target.Choice.{Occurs, IsChoice, pick_udp_addr_lem}
use rustytorrent.Tracker.Redact.{bounded, redact_url_query}
use rustytorrent.Tracker.Redact.Secrets.{
  IsUrl, url_of, plain_url_of, query_of, IsLoggable, redact_url_query_lem,
}
use rustytorrent.Tracker.Dispatch.{Network, Session, walk_tiers}
use rustytorrent.Tracker.Dispatch.Reference.{first_answer, all_urls, walk_tiers-first_answer}
use rustytorrent.Tracker.Dispatch.Privacy.{IsPermitted, walk_tiers-IsPermitted}

abbrev tracker_addr : SocketAddr
tracker_addr = record { ip = v4 93 184 215 14; port = 6969 }

abbrev metadata_addr : SocketAddr
metadata_addr = record { ip = v4 169 254 169 254; port = 80 }

-- The second answer of the resolver has the same addresses in the other order, and one of them
-- twice.
abbrev resolved : List SocketAddr
resolved = metadata_addr ∷ tracker_addr ∷ []

abbrev resolved_again : List SocketAddr
resolved_again = tracker_addr ∷ metadata_addr ∷ tracker_addr ∷ []

same_addrs : (a : SocketAddr) → Occurs a resolved → Occurs a resolved_again
same_addrs a (zero, e) = (1, e)
same_addrs a (suc zero, e) = (0, e)
same_addrs a (suc (suc i), e) = cc

same_addrs_back : (a : SocketAddr) → Occurs a resolved_again → Occurs a resolved
same_addrs_back a (zero, e) = (1, e)
same_addrs_back a (suc zero, e) = (0, e)
same_addrs_back a (suc (suc zero), e) = (1, e)
same_addrs_back a (suc (suc (suc i)), e) = cc

pick_udp_addr_lem_example :
    IsChoice resolved (pick_udp_addr resolved)
    × (pick_udp_addr resolved ≡ pick_udp_addr resolved_again)
pick_udp_addr_lem_example = pick_udp_addr_lem resolved resolved_again same_addrs same_addrs_back

abbrev request : AnnounceRequest
request = record {
  info_hash = replicate 20 7;
  peer_id = replicate 20 1;
  port = 6881;
  uploaded = 0;
  downloaded = 0;
  left = 40000;
  event = started;
  num_want = 50;
}

abbrev response : AnnounceResponse
response = record {
  interval = 60;
  min_interval = none;
  seeders = none;
  leechers = none;
  peers = [];
}

-- The third URL answers.
abbrev http_answer : ℕ → Result AnnounceResponse
http_answer (suc (suc zero)) = ok response
http_answer _ = err Error.network

abbrev network : Network
network = record {
  host_of = λ _. some none;
  host = record { lookup_host = λ _. ok resolved; bound = λ _. ok tt };
  world = λ _ _. record {
    transaction_id = 9;
    key = 4;
    is_sent = true;
    started = 100;
    answered = 100;
    answer = timed_out;
  };
  http = λ n url proxied anonymous req. http_answer n;
}

abbrev hidden : Session
hidden = record { is_proxied = true; anonymous = true }

abbrev tiers : List (List (List ℕ))
tiers =
    (codes "udp://a.example:6969" ∷ codes "http://b.example/announce" ∷ [])
    ∷ (codes "https://c.example/announce" ∷ codes "http://d.example/announce" ∷ [])
    ∷ []

walk_tiers-first_answer_example :
    walk_tiers network hidden request tiers none
    ≡ first_answer network hidden request 0 Error.tracker (all_urls tiers none)
walk_tiers-first_answer_example = walk_tiers-first_answer network hidden request tiers none

walk_tiers-IsPermitted_example :
    All (IsPermitted network hidden) (walk_tiers network hidden request tiers none).1
walk_tiers-IsPermitted_example = walk_tiers-IsPermitted network hidden request tiers none

abbrev scheme : List ℕ
scheme = codes "http"

abbrev user : List ℕ
user = codes "joe:k@y"

abbrev host : List ℕ
host = codes "b.example"

abbrev path : Option (List ℕ)
path = some (codes "announce")

private_parts-IsUrl : IsUrl scheme user host path
private_parts-IsUrl = record {
  scheme_lacks = ground arith;
  user_lacks = ground arith;
  host_lacks = ground arith;
  host_lacks_at = ground arith;
  scheme_plain = ground arith;
  user_plain = ground arith;
  host_plain = ground arith;
  path_plain = ground arith;
}

abbrev query : Option (ℕ × List ℕ)
query = some (63, codes "passkey=1")

redact_url_query_lem_example :
    let text = redact_url_query (url_of scheme user host path ++ query_of query) in
    (text ≡ bounded (plain_url_of scheme host path)) × IsLoggable text
redact_url_query_lem_example =
    redact_url_query_lem scheme user host path query private_parts-IsUrl refl
