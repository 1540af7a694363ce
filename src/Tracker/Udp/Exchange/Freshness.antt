-- ===== src/Tracker/Udp/Exchange/Freshness.antt =====
-- src/tracker/udp.rs: which connection ids an announce sends.
use rustytorrent.Base.{
  ℕ, zero, suc, ◌+◌, ◌-◌, ◌<◌, ◌≤◌, ◌≡◌, refl, inl, inr, ◌⊎◌, false, List, arith, leb, Bool-cases,
  All, All-append,
}
use rustytorrent.Base.Outcome.{Result, ok, err, Holds}
use rustytorrent.Tracker.Udp.{AnnounceRequest, AnnounceResponse, build_announce_packet}
use rustytorrent.Tracker.Udp.Exchange.{
  Round, World, Sent, Run, Verdict, again, reconnect, final, sent_in, connect_packet,
  connect_verdict, connect_round, connect_from, connect, refreshed, connected, announce_round,
  announce_verdict, announce_from, do_announce, announce,
}
use rustytorrent.Tracker.Udp.Exchange.Answers.{Issues, IsMade, connect-IsMade}

-- The clock does not go back.
abbrev pub IsMonotone : World → Type 0
IsMonotone w =
    (i : ℕ)
    → (45 ≤ (w i).answered)
      × ((w i).started ≤ (w i).answered)
      × ((w i).answered ≤ (w (suc i)).started)

-- A connection id that the tracker issued in an earlier round, less than 45 seconds before round j
-- began, or in the very round before.
abbrev pub IsFresh : World → ℕ → ℕ → Type 0
IsFresh w j id =
    (k : ℕ) × Issues (w k) id × (suc k ≤ j) × (((w j).started < (w k).answered + 45) ⊎ (suc k ≡ j))

-- A request for a connection, or an announce with a fresh one; both with the round's own numbers.
abbrev pub IsAllowed : World → AnnounceRequest → Sent → Type 0
IsAllowed w req s =
    (s.packet ≡ connect_packet (w s.round).transaction_id)
    ⊎ ((id : ℕ) × IsFresh w s.round id
        × (s.packet ≡ build_announce_packet id (w s.round).transaction_id (w s.round).key req))

-- The connection that a loop carries: its time is that of its issue, or one that counts as stale.
abbrev IsKnown : World → ℕ → ℕ → ℕ → Type 0
IsKnown w i id time =
    (k : ℕ) × Issues (w k) id
    × (suc k ≤ i)
    × ((time ≡ (w k).answered) ⊎ (time + 45 ≤ (w i).started))

-- The connection with which a round announces.
abbrev IsReady : World → ℕ → ℕ × ℕ → Type 0
IsReady w j p =
    (k : ℕ) × Issues (w k) p.0
    × (suc k ≤ j)
    × (p.1 ≡ (w k).answered)
    × (((w j).started < (w k).answered + 45) ⊎ (suc k ≡ j))

sent_in-All :
    (P : Sent → Type 0) (i : ℕ) (r : Round) (packet : List ℕ) (attempt : ℕ)
    → ((wait : ℕ) → P (record { round = i; packet = packet; wait = wait }))
    → All P (sent_in i r packet attempt)
unfolding sent_in
sent_in-All P i r packet attempt h = elim (Bool-cases r.is_sent) [
  | inl e ↦ rw e (h _, tt)
  | inr e ↦ rw e tt
]

connect_round-All :
    (P : Sent → Type 0) (i : ℕ) (packets : List Sent) (v : Verdict (ℕ × ℕ)) (rest : Run (ℕ × ℕ))
    → All P packets
    → All P rest.sent
    → All P (connect_round i packets v rest).sent
unfolding connect_round
connect_round-All P i packets again rest h k = All-append P packets rest.sent h k
connect_round-All P i packets reconnect rest h k = All-append P packets rest.sent h k
connect_round-All P i packets (final result) rest h k = h

connect_from-All :
    (w : World) (req : AnnounceRequest) (left attempt i : ℕ)
    → All (IsAllowed w req) (connect_from w left attempt i).sent
unfolding connect_from
connect_from-All w req zero attempt i = tt
connect_from-All w req (suc left) attempt i =
    connect_round-All (IsAllowed w req) i _ (connect_verdict (w i))
      (connect_from w left (suc attempt) (suc i))
      (sent_in-All (IsAllowed w req) i (w i) _ attempt (λ wait. inl refl))
      (connect_from-All w req left (suc attempt) (suc i))

connect-All : (w : World) (req : AnnounceRequest) (i : ℕ) → All (IsAllowed w req) (connect w i).sent
unfolding connect
connect-All w req i = connect_from-All w req 4 0 i

-- A connection that was just made is ready.
IsMade-IsReady :
    (w : World) (next : ℕ) (result : Result (ℕ × ℕ))
    → Holds (IsMade w next) result
    → Holds (IsReady w next) result
IsMade-IsReady w next (ok p) (k, e, (issue, time)) = (k, issue, omega arith, time, inr e)
IsMade-IsReady w next (err e) h = tt

refreshed-IsReady :
    (w : World) (req : AnnounceRequest) (i id time : ℕ)
    → IsKnown w i id time
    → Holds (IsReady w (refreshed w i id time).next) (refreshed w i id time).result
      × All (IsAllowed w req) (refreshed w i id time).sent
unfolding refreshed
refreshed-IsReady w req i id time (k, issue, before, known) =
    elim (Bool-cases (leb 45 ((w i).started - time))) [
      | inl e ↦ rw e (
        IsMade-IsReady w (connect w i).next (connect w i).result (connect-IsMade w i),
        connect-All w req i,
      )
      | inr e ↦ let state = of_known known e in rw e ((k, issue, before, state.0, state.1), tt)
    ]
  where
    of_known :
        ((time ≡ (w k).answered) ⊎ (time + 45 ≤ (w i).started))
        → leb 45 ((w i).started - time) ≡ false
        → (time ≡ (w k).answered) × (((w i).started < (w k).answered + 45) ⊎ (suc k ≡ i))
    of_known (inl same) e = (same, inl (ground arith))
    of_known (inr old) e = absurd (ground arith)

connected-All :
    (w : World) (P : Sent → Type 0) (result : Result (ℕ × ℕ)) (next : ℕ) (sent : List Sent)
    (rest : ℕ → ℕ → Run AnnounceResponse)
    → Holds (IsReady w next) result
    → All P sent
    → ((id time : ℕ) → IsReady w next (id, time) → All P (rest id time).sent)
    → All P (connected result next sent rest).sent
unfolding connected
connected-All w P (err e) next sent rest ready h k = h
connected-All w P (ok (id, time)) next sent rest ready h k =
    All-append P sent (rest id time).sent h (k id time ready)

announce_round-All :
    (w : World) (P : Sent → Type 0) (j id time : ℕ) (packets : List Sent)
    (v : Verdict AnnounceResponse) (rest : ℕ → Run AnnounceResponse)
    → IsMonotone w
    → IsReady w j (id, time)
    → All P packets
    → ((t : ℕ) → IsKnown w (suc j) id t → All P (rest t).sent)
    → All P (announce_round j (w j) packets time v rest).sent
unfolding announce_round
announce_round-All w P j id time packets again rest mono (k, issue, before, same, age) h next =
    All-append P packets (rest time).sent h (next time (k, issue, omega arith, inl same))
announce_round-All w P j id time packets reconnect rest mono (k, issue, before, same, age) h next =
    let (a, b, c) = mono j in
    All-append P packets (rest ((w j).answered - 45)).sent h
      (next ((w j).answered - 45) (k, issue, omega arith, inr (omega arith)))
announce_round-All w P j id time packets (final result) rest mono ready h next = h

announce_from-All :
    (w : World) (req : AnnounceRequest) (left attempt i id time : ℕ)
    → IsMonotone w
    → IsKnown w i id time
    → All (IsAllowed w req) (announce_from w req left attempt i id time).sent
unfolding announce_from
announce_from-All w req zero attempt i id time mono known = tt
announce_from-All w req (suc left) attempt i id time mono known =
    let run = refreshed w i id time in
    let j = run.next in
    let ready = refreshed-IsReady w req i id time known in
    connected-All w (IsAllowed w req) run.result j run.sent _ ready.0 ready.1 λ id' time' r.
      announce_round-All w (IsAllowed w req) j id' time' _ (announce_verdict (w j)) _ mono r
        (sent_in-All (IsAllowed w req) j (w j) _ attempt
          (λ wait. inr (id', (r.0, r.1, r.2, r.4), refl)))
        λ t. announce_from-All w req left (suc attempt) (suc j) id' t mono

-- If the clock does not go back, every packet that an announce sends is a request for a connection
-- or an announce of this request with a connection id which the tracker issued in an earlier round,
-- less than 45 seconds before this round or in the round just before it.
pub announce-IsAllowed :
    (w : World) (req : AnnounceRequest) → IsMonotone w → All (IsAllowed w req) (announce w req).sent
unfolding announce do_announce
announce-IsAllowed w req mono =
    let run = connect w 0 in
    connected-All w (IsAllowed w req) run.result run.next run.sent _
      (IsMade-IsReady w run.next run.result (connect-IsMade w 0)) (connect-All w req 0)
      λ id time r. announce_from-All w req 4 0 run.next id time mono (r.0, r.1, r.2, inl r.3)
