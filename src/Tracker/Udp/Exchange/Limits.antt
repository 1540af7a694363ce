-- ===== src/Tracker/Udp/Exchange/Limits.antt =====
-- src/tracker/udp.rs: how many packets an announce sends, and how long it waits.
use rustytorrent.Base.{
  ℕ, zero, suc, ◌+◌, ◌*◌, ◌-◌, ◌^◌, ◌≤◌, ◌≡◌, inl, inr, List, [], ◌∷◌, ◌++◌, arith, Bool-cases,
  length, length-append, leb,
}
use rustytorrent.Base.Outcome.{Result, ok, err}
use rustytorrent.Tracker.Udp.{AnnounceRequest, AnnounceResponse}
use rustytorrent.Tracker.Udp.Exchange.{
  Round, World, Sent, Run, Verdict, again, reconnect, final, sent_in, connect_packet,
  connect_verdict, connect_round, connect_from, connect, refreshed, connected, announce_round,
  announce_verdict, announce_from, do_announce, announce,
}

-- The seconds that are waited for answers.
abbrev pub total_wait : List Sent → ℕ
total_wait [] = 0
total_wait (s ∷ sent) = s.wait + total_wait sent

-- At most so many packets, and seconds.
abbrev pub IsWithin : ℕ → ℕ → List Sent → Type 0
IsWithin packets secs sent = (length sent ≤ packets) × (total_wait sent ≤ secs)

total_wait-append : (a b : List Sent) → total_wait (a ++ b) ≡ total_wait a + total_wait b
total_wait-append [] b = omega arith
total_wait-append (s ∷ a) b = omega (arith, total_wait-append a b)

append-IsWithin :
    (p q m n : ℕ) (a b : List Sent)
    → IsWithin p m a
    → IsWithin q n b
    → IsWithin (p + q) (m + n) (a ++ b)
append-IsWithin p q m n a b (x, y) (x', y') =
    (omega (arith, length-append a b), omega (arith, total_wait-append a b))

more-IsWithin : (p q m n : ℕ) (a : List Sent) → p ≤ q → m ≤ n → IsWithin p m a → IsWithin q n a
more-IsWithin p q m n a hp hm (x, y) = (omega arith, omega arith)

sent_in-IsWithin :
    (i : ℕ) (r : Round) (packet : List ℕ) (attempt : ℕ)
    → IsWithin 1 (15 * 2 ^ attempt) (sent_in i r packet attempt)
unfolding sent_in
sent_in-IsWithin i r packet attempt = elim (Bool-cases r.is_sent) [
  | inl e ↦ rw e (omega arith, omega arith)
  | inr e ↦ rw e (omega arith, omega arith)
]

connect_round-IsWithin :
    (i q m n : ℕ) (packets : List Sent) (v : Verdict (ℕ × ℕ)) (rest : Run (ℕ × ℕ))
    → IsWithin 1 m packets
    → IsWithin q n rest.sent
    → IsWithin (suc q) (m + n) (connect_round i packets v rest).sent
unfolding connect_round
connect_round-IsWithin i q m n packets again rest h k =
    more-IsWithin (1 + q) (suc q) (m + n) (m + n) (packets ++ rest.sent) (omega arith) (omega arith)
      (append-IsWithin 1 q m n packets rest.sent h k)
connect_round-IsWithin i q m n packets reconnect rest h k =
    more-IsWithin (1 + q) (suc q) (m + n) (m + n) (packets ++ rest.sent) (omega arith) (omega arith)
      (append-IsWithin 1 q m n packets rest.sent h k)
connect_round-IsWithin i q m n packets (final result) rest h k =
    more-IsWithin 1 (suc q) m (m + n) packets (omega arith) (omega arith) h

-- The waits of the attempts that are left.
abbrev waits : ℕ → ℕ → ℕ
waits zero attempt = 0
waits (suc left) attempt = 15 * 2 ^ attempt + waits left (suc attempt)

connect_from-IsWithin :
    (w : World) (left attempt i : ℕ)
    → IsWithin left (waits left attempt) (connect_from w left attempt i).sent
unfolding connect_from
connect_from-IsWithin w zero attempt i = (omega arith, omega arith)
connect_from-IsWithin w (suc left) attempt i =
    connect_round-IsWithin i left (15 * 2 ^ attempt) (waits left (suc attempt)) _
      (connect_verdict (w i)) _
      (sent_in-IsWithin i (w i) (connect_packet (w i).transaction_id) attempt)
      (connect_from-IsWithin w left (suc attempt) (suc i))

connect-IsWithin : (w : World) (i : ℕ) → IsWithin 4 225 (connect w i).sent
unfolding connect
connect-IsWithin w i = connect_from-IsWithin w 4 0 i

refreshed-IsWithin : (w : World) (i id time : ℕ) → IsWithin 4 225 (refreshed w i id time).sent
unfolding refreshed
refreshed-IsWithin w i id time = elim (Bool-cases (leb 45 ((w i).started - time))) [
  | inl e ↦ rw e (connect-IsWithin w i)
  | inr e ↦ rw e (omega arith, omega arith)
]

connected-IsWithin :
    (p q m n : ℕ) (result : Result (ℕ × ℕ)) (next : ℕ) (sent : List Sent)
    (rest : ℕ → ℕ → Run AnnounceResponse)
    → IsWithin p m sent
    → ((id time : ℕ) → IsWithin q n (rest id time).sent)
    → IsWithin (p + q) (m + n) (connected result next sent rest).sent
unfolding connected
connected-IsWithin p q m n (err e) next sent rest h k =
    more-IsWithin p (p + q) m (m + n) sent (omega arith) (omega arith) h
connected-IsWithin p q m n (ok (id, time)) next sent rest h k =
    append-IsWithin p q m n sent (rest id time).sent h (k id time)

announce_round-IsWithin :
    (j q m n : ℕ) (r : Round) (packets : List Sent) (time : ℕ) (v : Verdict AnnounceResponse)
    (rest : ℕ → Run AnnounceResponse)
    → IsWithin 1 m packets
    → ((t : ℕ) → IsWithin q n (rest t).sent)
    → IsWithin (1 + q) (m + n) (announce_round j r packets time v rest).sent
unfolding announce_round
announce_round-IsWithin j q m n r packets time again rest h k =
    append-IsWithin 1 q m n packets (rest time).sent h (k time)
announce_round-IsWithin j q m n r packets time reconnect rest h k =
    append-IsWithin 1 q m n packets (rest (r.answered - 45)).sent h (k (r.answered - 45))
announce_round-IsWithin j q m n r packets time (final result) rest h k =
    more-IsWithin 1 (1 + q) m (m + n) packets (omega arith) (omega arith) h

announce_from-IsWithin :
    (w : World) (req : AnnounceRequest) (left attempt i id time : ℕ)
    → IsWithin
        (5 * left)
        (225 * left + waits left attempt)
        (announce_from w req left attempt i id time).sent
unfolding announce_from
announce_from-IsWithin w req zero attempt i id time = (omega arith, omega arith)
announce_from-IsWithin w req (suc left) attempt i id time =
    let run = refreshed w i id time in
    let j = run.next in
    let wait = 15 * 2 ^ attempt in
    let later = 225 * left + waits left (suc attempt) in
    more-IsWithin (4 + (1 + 5 * left)) (5 * suc left) (225 + (wait + later))
      (225 * suc left + waits (suc left) attempt) _ (omega arith) (omega arith)
      (connected-IsWithin 4 (1 + 5 * left) 225 (wait + later) run.result j run.sent _
        (refreshed-IsWithin w i id time)
        λ id' time'.
          announce_round-IsWithin j (5 * left) wait later (w j) _ time' (announce_verdict (w j)) _
            (sent_in-IsWithin j (w j) _ attempt)
            λ t. announce_from-IsWithin w req left (suc attempt) (suc j) id' t)

-- However the network answers, an announce sends at most 24 packets and waits for answers no more
-- than 1350 seconds in all.
pub announce-IsWithin : (w : World) (req : AnnounceRequest) → IsWithin 24 1350 (announce w req).sent
unfolding announce do_announce
announce-IsWithin w req =
    let run = connect w 0 in
    connected-IsWithin 4 20 225 1125 run.result run.next run.sent _ (connect-IsWithin w 0)
      λ id time. announce_from-IsWithin w req 4 0 run.next id time
