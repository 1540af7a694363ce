-- ===== src/Examples/Announcing.antt =====
-- src/tracker/udp.rs: the theorems on the exchange with a tracker, at a concrete one.
use rustytorrent.Base.{
  ℕ, zero, suc, ◌+◌, ◌≡◌, refl, true, none, some, [], ◌∷◌, ◌++◌, arith, replicate, All,
}
use rustytorrent.Base.Bytes.{be32}
use rustytorrent.Base.Outcome.{ok}
use rustytorrent.Tracker.Udp.{
  started, as_udp_code, be64, AnnounceRequest, AnnounceResponse, build_announce_packet, read_peers,
  parse_announce_response,
}
use rustytorrent.Tracker.Udp.Packets.{response_bytes}
use rustytorrent.Tracker.Udp.Exchange.{
  Answer, timed_out, datagram, World, u64_from, connect_packet, connect_datagram, connect_answer,
  connect_verdict, connect_round, connect_from, connect, announce_datagram, announce_answer,
  announce_verdict, refreshed, sent_in, connected, announce_round, announce_from, do_announce,
  announce,
}
use rustytorrent.Tracker.Udp.Exchange.Answers.{IsAnswer, announce-IsAnswer}
use rustytorrent.Tracker.Udp.Exchange.Freshness.{IsMonotone, IsAllowed, announce-IsAllowed}
use rustytorrent.Tracker.Udp.Exchange.Limits.{IsWithin, announce-IsWithin}

abbrev first_announce : AnnounceRequest
first_announce = record {
  info_hash = replicate 20 7;
  peer_id = replicate 20 1;
  port = 6881;
  uploaded = 0;
  downloaded = 0;
  left = 40000;
  event = started;
  num_want = 50;
}

-- The tracker gives a connection, misses an announce, refuses the next one, gives a new connection
-- and answers with one peer.
abbrev answer_in : ℕ → Answer
answer_in zero = datagram (be32 0 ++ (be32 9 ++ be64 77))
answer_in (suc zero) = timed_out
answer_in (suc (suc zero)) = datagram (be32 3 ++ be32 9)
answer_in (suc (suc (suc zero))) = datagram (be32 0 ++ (be32 9 ++ be64 78))
answer_in _ = datagram (response_bytes 1 9 1800 3 5 ((10 ∷ 0 ∷ 0 ∷ 1 ∷ [], 6881) ∷ []))

abbrev tracker_world : World
tracker_world i = record {
  transaction_id = 9;
  key = 4;
  is_sent = true;
  started = 100 + i;
  answered = 100 + i;
  answer = answer_in i;
}

abbrev the_response : AnnounceResponse
the_response = record {
  interval = 1800;
  min_interval = none;
  seeders = some 5;
  leechers = some 3;
  peers = (10 ∷ 0 ∷ 0 ∷ 1 ∷ [], 6881) ∷ [];
}

tracker_world-IsMonotone : IsMonotone tracker_world
tracker_world-IsMonotone i = (omega arith, omega arith, omega arith)

announce-IsAllowed_example :
    All (IsAllowed tracker_world first_announce) (announce tracker_world first_announce).sent
announce-IsAllowed_example =
    announce-IsAllowed tracker_world first_announce tracker_world-IsMonotone

announce-IsWithin_example : IsWithin 24 1350 (announce tracker_world first_announce).sent
announce-IsWithin_example = announce-IsWithin tracker_world first_announce

first_announce-answered : (announce tracker_world first_announce).result ≡ ok the_response
unfolding announce do_announce announce_from announce_round connected refreshed connect connect_from
    connect_round connect_verdict connect_answer connect_datagram u64_from announce_verdict
    announce_answer announce_datagram parse_announce_response read_peers sent_in connect_packet
    build_announce_packet as_udp_code
first_announce-answered = refl

announce-IsAnswer_example : IsAnswer tracker_world the_response
announce-IsAnswer_example =
    announce-IsAnswer tracker_world first_announce the_response first_announce-answered
