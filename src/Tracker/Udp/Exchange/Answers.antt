-- ===== src/Tracker/Udp/Exchange/Answers.antt =====
-- src/tracker/udp.rs: which answers an announce takes.
use rustytorrent.Base.{
  ℕ, zero, suc, ◌-◌, ◌≤◌, ◌≡◌, refl, List, arith, ltb, ◌==◌, ◌!=◌, length, of_if,
}
use rustytorrent.Base.Outcome.{Result, ok, err, Holds}
use rustytorrent.Tracker.Udp.{u32_from, AnnounceRequest, AnnounceResponse, parse_announce_response}
use rustytorrent.Tracker.Udp.Exchange.{
  Answer, timed_out, failed, datagram, Round, World, Sent, Run, Verdict, again, reconnect, final,
  u64_from, connect_datagram, connect_answer, connect_verdict, connect_round, connect_from, connect,
  announce_datagram, announce_answer, announce_verdict, refreshed, connected, announce_round,
  announce_from, do_announce, announce,
}

-- The answer of a round gives this connection id: it repeats the transaction id of the round.
abbrev pub Issues : Round → ℕ → Type 0
Issues r id =
    (buf : List ℕ) × (r.answer ≡ datagram buf)
    × (16 ≤ length buf)
    × (u32_from buf 4 ≡ r.transaction_id)
    × (u32_from buf 0 ≡ 0)
    × (u64_from buf 8 ≡ id)

-- The answer of a round gives this response.
abbrev pub Answers : Round → AnnounceResponse → Type 0
Answers r response =
    (buf : List ℕ) × (r.answer ≡ datagram buf)
    × (8 ≤ length buf)
    × (u32_from buf 4 ≡ r.transaction_id)
    × (u32_from buf 0 ≡ 1)
    × (parse_announce_response buf ≡ ok response)

-- What a verdict returns has the property.
abbrev pub Concludes {κ} : {A : Type 0} → (A → Type κ) → Verdict A → Type κ
Concludes P again = Unit
Concludes P reconnect = Unit
Concludes P (final result) = Holds P result

-- The connection id of a round, and when it came.
abbrev pub IsIssue : Round → ℕ × ℕ → Type 0
IsIssue r p = Issues r p.0 × (p.1 ≡ r.answered)

connect_datagram-IsIssue :
    (r : Round) (buf : List ℕ)
    → r.answer ≡ datagram buf
    → Concludes (IsIssue r) (connect_datagram r buf)
unfolding connect_datagram
connect_datagram-IsIssue r buf h =
    of_if (Concludes (IsIssue r)) (ltb (length buf) 16) _ _ (λ _. tt)
      λ long.
        of_if (Concludes (IsIssue r)) (u32_from buf 4 != r.transaction_id) _ _ (λ _. tt)
          λ same.
            of_if (Concludes (IsIssue r)) (u32_from buf 0 == 3) _ _ (λ _. tt)
              λ _.
                of_if (Concludes (IsIssue r)) (u32_from buf 0 != 0) _ _ (λ _. tt)
                  λ action. ((buf, h, ground arith, ground arith, ground arith, refl), refl)

connect_verdict-IsIssue : (r : Round) → Concludes (IsIssue r) (connect_verdict r)
unfolding connect_verdict
connect_verdict-IsIssue r =
    of_if (Concludes (IsIssue r)) r.is_sent _ _ (λ _. of_answer r.answer refl) (λ _. tt)
  where
    of_answer : (a : Answer) → r.answer ≡ a → Concludes (IsIssue r) (connect_answer r a)
    of_answer timed_out h = unfold connect_answer in tt
    of_answer failed h = unfold connect_answer in tt
    of_answer (datagram buf) h = unfold connect_answer in connect_datagram-IsIssue r buf h

-- A connection was made in the round before this one.
abbrev pub IsMade : World → ℕ → ℕ × ℕ → Type 0
IsMade w next p = (k : ℕ) × (suc k ≡ next) × IsIssue (w k) p

connect_round-IsMade :
    (w : World) (i : ℕ) (packets : List Sent) (v : Verdict (ℕ × ℕ)) (rest : Run (ℕ × ℕ))
    → Concludes (IsIssue (w i)) v
    → Holds (IsMade w rest.next) rest.result
    → Holds (IsMade w (connect_round i packets v rest).next) (connect_round i packets v rest).result
unfolding connect_round
connect_round-IsMade w i packets again rest h k = k
connect_round-IsMade w i packets reconnect rest h k = k
connect_round-IsMade w i packets (final (ok p)) rest h k = (i, refl, h)
connect_round-IsMade w i packets (final (err e)) rest h k = tt

connect_from-IsMade :
    (w : World) (left attempt i : ℕ)
    → Holds (IsMade w (connect_from w left attempt i).next) (connect_from w left attempt i).result
unfolding connect_from
connect_from-IsMade w zero attempt i = tt
connect_from-IsMade w (suc left) attempt i =
    connect_round-IsMade w i _ (connect_verdict (w i)) (connect_from w left (suc attempt) (suc i))
      (connect_verdict-IsIssue (w i)) (connect_from-IsMade w left (suc attempt) (suc i))

pub connect-IsMade : (w : World) (i : ℕ) → Holds (IsMade w (connect w i).next) (connect w i).result
unfolding connect
connect-IsMade w i = connect_from-IsMade w 4 0 i

announce_datagram-Answers :
    (r : Round) (buf : List ℕ)
    → r.answer ≡ datagram buf
    → Concludes (Answers r) (announce_datagram r buf)
unfolding announce_datagram
announce_datagram-Answers r buf h =
    of_if (Concludes (Answers r)) (ltb (length buf) 8) _ _ (λ _. tt)
      λ long.
        of_if (Concludes (Answers r)) (u32_from buf 4 != r.transaction_id) _ _ (λ _. tt)
          λ same.
            of_if (Concludes (Answers r)) (u32_from buf 0 == 3) _ _ (λ _. tt)
              λ _.
                of_if (Concludes (Answers r)) (u32_from buf 0 != 1) _ _ (λ _. tt)
                  λ action.
                    read (parse_announce_response buf) refl (ground arith) (ground arith)
                      (ground arith)
  where
    read :
        (result : Result AnnounceResponse)
        → parse_announce_response buf ≡ result
        → 8 ≤ length buf
        → u32_from buf 4 ≡ r.transaction_id
        → u32_from buf 0 ≡ 1
        → Holds (Answers r) result
    read (ok response) e a b c = (buf, h, a, b, c, e)
    read (err x) e a b c = tt

announce_verdict-Answers : (r : Round) → Concludes (Answers r) (announce_verdict r)
unfolding announce_verdict
announce_verdict-Answers r =
    of_if (Concludes (Answers r)) r.is_sent _ _ (λ _. of_answer r.answer refl) (λ _. tt)
  where
    of_answer : (a : Answer) → r.answer ≡ a → Concludes (Answers r) (announce_answer r a)
    of_answer timed_out h = unfold announce_answer in tt
    of_answer failed h = unfold announce_answer in tt
    of_answer (datagram buf) h = unfold announce_answer in announce_datagram-Answers r buf h

-- The response of one of the rounds.
abbrev pub IsAnswer : World → AnnounceResponse → Type 0
IsAnswer w response = (k : ℕ) × Answers (w k) response

announce_round-IsAnswer :
    (w : World) (j : ℕ) (packets : List Sent) (time : ℕ) (v : Verdict AnnounceResponse)
    (rest : ℕ → Run AnnounceResponse)
    → Concludes (Answers (w j)) v
    → ((t : ℕ) → Holds (IsAnswer w) (rest t).result)
    → Holds (IsAnswer w) (announce_round j (w j) packets time v rest).result
unfolding announce_round
announce_round-IsAnswer w j packets time again rest h k = k time
announce_round-IsAnswer w j packets time reconnect rest h k = k ((w j).answered - 45)
announce_round-IsAnswer w j packets time (final (ok response)) rest h k = (j, h)
announce_round-IsAnswer w j packets time (final (err e)) rest h k = tt

connected-IsAnswer :
    (w : World) (result : Result (ℕ × ℕ)) (next : ℕ) (sent : List Sent)
    (rest : ℕ → ℕ → Run AnnounceResponse)
    → ((id time : ℕ) → Holds (IsAnswer w) (rest id time).result)
    → Holds (IsAnswer w) (connected result next sent rest).result
unfolding connected
connected-IsAnswer w (err e) next sent rest k = tt
connected-IsAnswer w (ok (id, time)) next sent rest k = k id time

announce_from-IsAnswer :
    (w : World) (req : AnnounceRequest) (left attempt i id time : ℕ)
    → Holds (IsAnswer w) (announce_from w req left attempt i id time).result
unfolding announce_from
announce_from-IsAnswer w req zero attempt i id time = tt
announce_from-IsAnswer w req (suc left) attempt i id time =
    let run = refreshed w i id time in
    connected-IsAnswer w run.result run.next run.sent _ λ id' time'.
      announce_round-IsAnswer w run.next _ time' (announce_verdict (w run.next)) _
        (announce_verdict-Answers (w run.next))
        λ t. announce_from-IsAnswer w req left (suc attempt) (suc run.next) id' t

announce-Holds : (w : World) (req : AnnounceRequest) → Holds (IsAnswer w) (announce w req).result
unfolding announce do_announce
announce-Holds w req =
    let run = connect w 0 in
    connected-IsAnswer w run.result run.next run.sent _
      λ id time. announce_from-IsAnswer w req 4 0 run.next id time

-- A response that an announce returns was read of a datagram that repeats the transaction id which
-- the same round chose, and whose action is that of an announce.
pub announce-IsAnswer :
    (w : World) (req : AnnounceRequest) (response : AnnounceResponse)
    → (announce w req).result ≡ ok response
    → IsAnswer w response
announce-IsAnswer w req response h = let holds = announce-Holds w req in rw h at holds
