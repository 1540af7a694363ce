-- ===== src/Tracker/Udp/Exchange.antt =====
-- src/tracker/udp.rs: the exchange with a tracker, its retries and its timeouts.
--
-- The socket, the clock and the random numbers are the `World`: what each round of sending and
-- waiting meets. A round has a number, and the loops take them one by one. An instant is a number
-- of seconds after one that lies at least 45 s before the exchange.
pub mod Answers
pub mod Freshness
pub mod Limits
use rustytorrent.Base.{
  ℕ, zero, suc, ◌+◌, ◌*◌, ◌-◌, ◌^◌, Bool, true, false, List, [], ◌∷◌, ◌++◌, ltb, leb, ◌==◌, ◌!=◌,
  if◌then◌else◌, length,
}
use rustytorrent.Base.Bytes.{be32}
use rustytorrent.Base.Outcome.{Error, Result, ok, err}
use rustytorrent.Tracker.Udp.{
  be64, u32_from, action_announce, AnnounceRequest, AnnounceResponse, build_announce_packet,
  parse_announce_response,
}

abbrev pub protocol_id : ℕ
protocol_id = 0x41727101980

abbrev pub action_connect : ℕ
action_connect = 0

abbrev pub action_error : ℕ
action_error = 3

abbrev pub max_retries : ℕ
max_retries = 4

abbrev pub base_timeout_secs : ℕ
base_timeout_secs = 15

abbrev pub connection_id_max_age : ℕ
connection_id_max_age = 45

-- `timeout(wait, sock.recv(&mut buf))`.
pub data Answer : Type 0 where
  timed_out failed : Answer
  datagram : List ℕ → Answer

pub record Round : Type 0 where
  pub transaction_id : ℕ
  pub key : ℕ
  -- Whether the packet can be sent.
  pub is_sent : Bool
  pub started : ℕ
  pub answered : ℕ
  pub answer : Answer

abbrev pub World : Type 0
World = ℕ → Round

-- A packet, the round in which it was sent and how long its answer was waited for.
pub record Sent : Type 0 where
  pub round : ℕ
  pub packet : List ℕ
  pub wait : ℕ

-- What a loop gives, the round that is next, and the packets that were sent.
pub record Run (A : Type 0) : Type 0 where
  pub result : Result A
  pub next : ℕ
  pub sent : List Sent

-- How a round goes on: the loop comes round, also with a new connection, or it returns.
pub data Verdict (A : Type 0) : Type 0 where
  again reconnect : Verdict A
  final : Result A → Verdict A

unfoldable pub u64_from : List ℕ → ℕ → ℕ
u64_from p i = u32_from p i * 2 ^ 32 + u32_from p (i + 4)

unfoldable pub connect_packet : ℕ → List ℕ
connect_packet transaction_id = be64 protocol_id ++ (be32 action_connect ++ be32 transaction_id)

unfoldable pub sent_in : ℕ → Round → List ℕ → ℕ → List Sent
sent_in i r packet attempt =
    if r.is_sent
    then record { round = i; packet = packet; wait = base_timeout_secs * 2 ^ attempt } ∷ []
    else []

-- The answer to a connect: the connection id, and when it came.
unfoldable pub connect_datagram : Round → List ℕ → Verdict (ℕ × ℕ)
unfolding u64_from
connect_datagram r buf =
    if ltb (length buf) 16
    then final (err Error.tracker)
    else if u32_from buf 4 != r.transaction_id
    then again
    else if u32_from buf 0 == action_error
    then final (err Error.tracker)
    else if u32_from buf 0 != action_connect
    then final (err Error.tracker)
    else final (ok (u64_from buf 8, r.answered))

unfoldable pub connect_answer : Round → Answer → Verdict (ℕ × ℕ)
unfolding connect_datagram
connect_answer r timed_out = again
connect_answer r failed = final (err Error.tracker)
connect_answer r (datagram buf) = connect_datagram r buf

unfoldable pub connect_verdict : Round → Verdict (ℕ × ℕ)
unfolding connect_answer
connect_verdict r = if r.is_sent then connect_answer r r.answer else final (err Error.tracker)

-- One round of `connect`, in front of the rounds that follow.
unfoldable pub connect_round : ℕ → List Sent → Verdict (ℕ × ℕ) → Run (ℕ × ℕ) → Run (ℕ × ℕ)
connect_round i packets (final result) rest = record {
  result = result;
  next = suc i;
  sent = packets;
}
connect_round i packets _ rest = record {
  result = rest.result;
  next = rest.next;
  sent = packets ++ rest.sent;
}

-- The attempts that are left, and the number of the next one.
unfoldable pub connect_from : World → ℕ → ℕ → ℕ → Run (ℕ × ℕ)
unfolding connect_round sent_in connect_packet connect_verdict
connect_from w zero attempt i = record { result = err Error.tracker; next = i; sent = [] }
connect_from w (suc left) attempt i =
    connect_round i (sent_in i (w i) (connect_packet (w i).transaction_id) attempt)
      (connect_verdict (w i)) (connect_from w left (suc attempt) (suc i))

unfoldable pub connect : World → ℕ → Run (ℕ × ℕ)
unfolding connect_from
connect w i = connect_from w max_retries 0 i

unfoldable pub announce_datagram : Round → List ℕ → Verdict AnnounceResponse
unfolding parse_announce_response
announce_datagram r buf =
    if ltb (length buf) 8
    then final (err Error.tracker)
    else if u32_from buf 4 != r.transaction_id
    then again
    else if u32_from buf 0 == action_error
    then reconnect
    else if u32_from buf 0 != action_announce
    then final (err Error.tracker)
    else final (parse_announce_response buf)

unfoldable pub announce_answer : Round → Answer → Verdict AnnounceResponse
unfolding announce_datagram
announce_answer r timed_out = again
announce_answer r failed = final (err Error.tracker)
announce_answer r (datagram buf) = announce_datagram r buf

unfoldable pub announce_verdict : Round → Verdict AnnounceResponse
unfolding announce_answer
announce_verdict r = if r.is_sent then announce_answer r r.answer else final (err Error.tracker)

-- The connection for round i: a stale one is made anew.
unfoldable pub refreshed : World → ℕ → ℕ → ℕ → Run (ℕ × ℕ)
unfolding connect
refreshed w i connection_id connect_time =
    if leb connection_id_max_age ((w i).started - connect_time)
    then connect w i
    else record { result = ok (connection_id, connect_time); next = i; sent = [] }

-- The packets that came first.
abbrev pub behind : {A : Type 0} → List Sent → Run A → Run A
behind packets run = record { result = run.result; next = run.next; sent = packets ++ run.sent }

-- What follows a connect, unless it failed.
unfoldable pub connected : {A : Type 0} → Result (ℕ × ℕ) → ℕ → List Sent → (ℕ → ℕ → Run A) → Run A
connected (err e) next sent rest = record { result = err e; next = next; sent = sent }
connected (ok (id, time)) next sent rest = behind sent (rest id time)

-- One round of `do_announce`, in front of the rounds that follow for a connect time.
unfoldable pub announce_round :
    ℕ
    → Round
    → List Sent
    → ℕ
    → Verdict AnnounceResponse
    → (ℕ → Run AnnounceResponse)
    → Run AnnounceResponse
announce_round i r packets time again rest = behind packets (rest time)
announce_round i r packets time reconnect rest =
    behind packets (rest (r.answered - connection_id_max_age))
announce_round i r packets time (final result) rest = record {
  result = result;
  next = suc i;
  sent = packets;
}

-- The attempts that are left, and the number of the next one.
unfoldable pub announce_from : World → AnnounceRequest → ℕ → ℕ → ℕ → ℕ → ℕ → Run AnnounceResponse
unfolding refreshed connected announce_round sent_in announce_verdict build_announce_packet
announce_from w req zero attempt i connection_id connect_time = record {
  result = err Error.tracker;
  next = i;
  sent = [];
}
announce_from w req (suc left) attempt i connection_id connect_time =
    let run = refreshed w i connection_id connect_time in
    let j = run.next in
    connected run.result j run.sent λ id time.
      announce_round j (w j)
        (sent_in j (w j) (build_announce_packet id (w j).transaction_id (w j).key req) attempt) time
        (announce_verdict (w j)) λ t. announce_from w req left (suc attempt) (suc j) id t

unfoldable pub do_announce : World → AnnounceRequest → ℕ → ℕ → ℕ → Run AnnounceResponse
unfolding announce_from
do_announce w req i connection_id connect_time =
    announce_from w req max_retries 0 i connection_id connect_time

-- `announce`, from the connected socket on.
unfoldable pub announce : World → AnnounceRequest → Run AnnounceResponse
unfolding connect connected do_announce
announce w req =
    let run = connect w 0 in
    connected run.result run.next run.sent λ id time. do_announce w req run.next id time
