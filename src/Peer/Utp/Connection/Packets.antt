-- ===== src/Peer/Utp/Connection/Packets.antt =====
-- src/peer/utp/connection.rs: the loop of `pending_send_packets`, and what was written.
use rustytorrent.Base.{
  ℕ, zero, suc, ◌+◌, ◌<◌, ◌≤◌, max, ◌≡◌, refl, sym, ap, ◌∙◌, ◌⊎◌, inl, inr, true, false, ◌&&◌, List,
  [], ◌∷◌, ◌++◌, append_assoc, append-nil, arith, ltb, Bool-cases, length, length-append, of_test,
  of_list, subst,
}
use rustytorrent.Peer.Utp.Ledbat.{push_back}
use rustytorrent.Peer.Utp.Packet.{Packet, PacketType, Payload, as_slice}
use rustytorrent.Peer.Utp.Connection.{Connection, InFlight, wrapping_add, max_data_payload}
use rustytorrent.Peer.Utp.Connection.Outgoing.{next_packet, launch, carve, send_one, packetize}
use rustytorrent.Peer.Utp.Connection.Sending.{
  join, carried, AreNumbered, unsent, IsQueued, Carves, carve-Carves,
}

-- The packets in a retransmit queue.
unfoldable pub packets_of : List InFlight → List Packet
packets_of [] = []
packets_of (e ∷ es) = e.packet ∷ packets_of es

packets_of-push_back :
    (es : List InFlight) (e : InFlight)
    → packets_of (push_back es e) ≡ packets_of es ++ e.packet ∷ []
unfolding packets_of push_back
packets_of-push_back [] e = refl
packets_of-push_back (x ∷ es) e = ap (λ ps. x.packet ∷ ps) (packets_of-push_back es e)

length-push_back : (es : List InFlight) (e : InFlight) → length (push_back es e) ≡ suc (length es)
unfolding push_back
length-push_back es e = omega (arith, length-append es (e ∷ []))

runs_room : (n k window : ℕ) → (ltb 0 n && ltb k window ≡ true) → k < window
runs_room n k window h = ground arith

full : (n k window : ℕ) → (ltb 0 n && ltb k window ≡ false) → ltb 0 n ≡ true → window ≤ k
full n k window h waits = ground arith

module _ {F : Type 0} where
  -- The loop has sent `ps` and left `d`.
  pub record Packetized (window : ℕ) (c d : Connection F) (ps : List Packet) : Type 0 where
    pub carries : unsent c ≡ carried ps ++ unsent d
    pub queued : IsQueued d
    pub numbered : AreNumbered c.next_seq_nr ps
    pub in_flight_too : packets_of d.in_flight ≡ packets_of c.in_flight ++ ps
    pub in_window : length d.in_flight ≤ max window (length c.in_flight)
    pub as_far_as_possible : (unsent d ≡ []) ⊎ (window ≤ length d.in_flight)

  nothing_sent :
      (window : ℕ) (c : Connection F)
      → IsQueued c
      → (unsent c ≡ []) ⊎ (window ≤ length c.in_flight)
      → Packetized window c c []
  unfolding carried
  nothing_sent window c q why = record {
    carries = refl;
    queued = q;
    numbered = tt;
    in_flight_too = sym (append-nil _);
    in_window = omega arith;
    as_far_as_possible = why;
  }

  unsent-nil : (c : Connection F) → IsQueued c → c.out_blocks ≡ [] → unsent c ≡ []
  unfolding unsent join
  unsent-nil c q e = let cursor : c.out_head ≡ 0 = rw e at q.cursor in rw (e, cursor) refl

  unsent-zero : (c : Connection F) → IsQueued c → ltb 0 c.out_len ≡ false → unsent c ≡ []
  unsent-zero c q e =
      nil_of (unsent c) (let n = q.counted in let z : c.out_len ≡ 0 = ground arith in omega arith)
    where
      nil_of : (xs : List ℕ) → length xs ≡ 0 → xs ≡ []
      nil_of [] h = refl
      nil_of (x ∷ xs) h = absurd (omega arith)

  -- One packet is sent.
  record Sends (c d : Connection F) (p : Packet) : Type 0 where
    split : unsent c ≡ as_slice p.payload ++ unsent d
    queued : IsQueued d
    some_bytes : 0 < length (as_slice p.payload)
    few_bytes : length (as_slice p.payload) ≤ max_data_payload
    seq : p.seq_nr ≡ c.next_seq_nr
    next : d.next_seq_nr ≡ wrapping_add c.next_seq_nr 1
    flight : packets_of d.in_flight ≡ packets_of c.in_flight ++ p ∷ []
    count : length d.in_flight ≡ suc (length c.in_flight)

  launch-Sends :
      (c e : Connection F) (payload : Payload) (now : ℕ)
      → Carves c e payload
      → let p = next_packet e PacketType.stream payload in Sends c (launch e now p) p
  unfolding launch next_packet unsent
  launch-Sends c e payload now h = record {
    split = h.split;
    queued = record { cursor = h.queued.cursor; counted = h.queued.counted };
    some_bytes = h.some_bytes;
    few_bytes = h.few_bytes;
    seq = h.same_seq;
    next = ap (λ n. wrapping_add n 1) h.same_seq;
    flight =
        packets_of-push_back e.in_flight _
        ∙ ap (λ es. packets_of es ++ next_packet e PacketType.stream payload ∷ []) h.same_flight;
    count = length-push_back e.in_flight _ ∙ ap (λ es. suc (length es)) h.same_flight;
  }

  send_one-Sends :
      (c : Connection F) (now : ℕ) (block : List ℕ) (blocks : List (List ℕ))
      → IsQueued c
      → c.out_blocks ≡ block ∷ blocks
      → Sends c (send_one c now block blocks).0 (send_one c now block blocks).1
  unfolding send_one
  send_one-Sends c now block blocks q e =
      launch-Sends c (carve c block blocks).0 (carve c block blocks).1 now
        (carve-Carves c block blocks e q)

  sent_more :
      (window : ℕ) (c d e : Connection F) (p : Packet) (ps : List Packet)
      → Sends c d p
      → Packetized window d e ps
      → length c.in_flight < window
      → Packetized window c e (p ∷ ps)
  unfolding carried
  sent_more window c d e p ps s h room = record {
    carries =
        s.split
        ∙ ap (λ xs. as_slice p.payload ++ xs) h.carries
        ∙ sym (append_assoc (as_slice p.payload) (carried ps) (unsent e));
    queued = h.queued;
    numbered = (s.seq, s.some_bytes, s.few_bytes, subst (λ n. AreNumbered n ps) s.next h.numbered);
    in_flight_too =
        h.in_flight_too
        ∙ ap (λ es. es ++ ps) s.flight
        ∙ append_assoc (packets_of c.in_flight) (p ∷ []) ps;
    in_window = (let bound = h.in_window in let more = s.count in omega arith);
    as_far_as_possible = h.as_far_as_possible;
  }

  why :
      (c : Connection F) (window : ℕ)
      → IsQueued c
      → (ltb 0 c.out_len && ltb (length c.in_flight) window ≡ false)
      → (unsent c ≡ []) ⊎ (window ≤ length c.in_flight)
  why c window q stops = elim (Bool-cases (ltb 0 c.out_len)) [
    | inl waits ↦ inr (full c.out_len (length c.in_flight) window stops waits)
    | inr empty ↦ inl (unsent-zero c q empty)
  ]

  -- What the loop of `pending_send_packets` sends, with what it leaves, is what waited to be sent;
  -- the packets carry 1 to `max_data_payload` bytes, have consecutive numbers and join the
  -- retransmit queue; the queue does not outgrow the window, and the loop stops only when it is
  -- full or when nothing is left to send.
  pub packetize-Packetized :
      (fuel window : ℕ) (c : Connection F) (now : ℕ)
      → IsQueued c
      → window ≤ fuel + length c.in_flight
      → Packetized window c (packetize fuel window c now).0 (packetize fuel window c now).1
  unfolding packetize
  packetize-Packetized zero window c now q h = nothing_sent window c q (inr (omega arith))
  packetize-Packetized (suc fuel) window c now q h =
      of_test {A = Connection F × List Packet} (λ r. Packetized window c r.0 r.1)
        (ltb 0 c.out_len && ltb (length c.in_flight) window) _ (c, [])
        (λ runs.
          let room : length c.in_flight < window = runs_room _ _ _ runs in
          of_list {A = Connection F × List Packet} (λ r. Packetized window c r.0 r.1) c.out_blocks
            (c, []) _ (λ e. nothing_sent window c q (inl (unsent-nil c q e)))
            λ block blocks e.
              let s = send_one-Sends c now block blocks q e in
              sent_more window c _ _ _ _ s
                (packetize-Packetized fuel window _ now s.queued
                  (let more = s.count in omega arith))
                room)
        (λ stops. nothing_sent window c q (why c window q stops))
