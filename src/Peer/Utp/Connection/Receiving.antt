-- ===== src/Peer/Utp/Connection/Receiving.antt =====
-- src/peer/utp/connection.rs: the calls that leave the receiving side alone.
use rustytorrent.Base.{
  ℕ, zero, suc, ◌+◌, ◌-◌, min, ◌≡◌, refl, inl, inr, Bool-cases, ◌∙◌, Bool, false, List, [], ◌∷◌,
  ◌++◌, leb, ltb, ◌&&◌, if◌then◌else◌, length, of_test, of_if, of_option, of_list, is_empty,
}
use rustytorrent.Peer.Utp.Ledbat.{Float}
use rustytorrent.Peer.Utp.Packet.{Packet}
use rustytorrent.Peer.Utp.Connection.{
  Connection, InFlight, enqueue_send_block, close, is_closed, refuses_sends, wrapping_add,
  connected, syn_sent, closed, reset, syn_received, fin_sent, max_data_payload,
}
use rustytorrent.Peer.Utp.Connection.Sack.{
  schedule_gap, process_sack, prune, is_some_of, sacked_count,
}
use rustytorrent.Peer.Utp.Connection.Incoming.{
  confirm, confirms, apply_sack, receive_ack, find_sack, drop_acked,
}
use rustytorrent.Peer.Utp.Connection.Outgoing.{
  fast_retransmit, send_one, carve, launch, packetize, send_fin, pending_send_packets, tick,
  window_of, is_handshaking, wants_fin,
}

module _ {F : Type 0} where
  -- The fields that `receive_data` works on are the same.
  abbrev pub SameReceiving : Connection F → Connection F → Type 0
  SameReceiving c d =
      (d.in_buf ≡ c.in_buf)
      × (d.peer_seq_nr_acked ≡ c.peer_seq_nr_acked)
      × (d.peer_logical_acked ≡ c.peer_logical_acked)
      × (d.pending_in ≡ c.pending_in)

  SameReceiving_trans :
      (c d e : Connection F) → SameReceiving c d → SameReceiving d e → SameReceiving c e
  SameReceiving_trans c d e p q = (q.0 ∙ p.0, q.1 ∙ p.1, q.2 ∙ p.2, q.3 ∙ p.3)

  abbrev unchanged : (c : Connection F) → SameReceiving c c
  unchanged c = (refl, refl, refl, refl)

  -- So is the state.
  abbrev pub SameSession : Connection F → Connection F → Type 0
  SameSession c d = SameReceiving c d × (d.state ≡ c.state)

  SameSession_trans : (c d e : Connection F) → SameSession c d → SameSession d e → SameSession c e
  SameSession_trans c d e p q = (SameReceiving_trans c d e p.0 q.0, q.1 ∙ p.1)

  abbrev kept : (c : Connection F) → SameSession c c
  kept c = (unchanged c, refl)

  schedule_gap-SameSession :
      (c : Connection F) (es : List InFlight) → SameSession c (schedule_gap c es)
  unfolding schedule_gap
  schedule_gap-SameSession c [] = kept c
  schedule_gap-SameSession c (e ∷ es) =
      of_if (SameSession c) (is_some_of c.last_fast_rtx_seq e.seq_nr) c _ (λ _. kept c)
        (λ _. kept c)

  process_sack-SameSession :
      (c : Connection F) (ack_nr : ℕ) (mask : List ℕ) → SameSession c (process_sack c ack_nr mask).0
  unfolding process_sack
  process_sack-SameSession c ack_nr mask =
      let rest = prune (wrapping_add ack_nr 2) mask c.in_flight in
      let d = record c { in_flight = rest.0 } in
      of_if (SameSession c) (leb 3 (sacked_count mask)) (schedule_gap d rest.0) d
        (λ _. schedule_gap-SameSession d rest.0) (λ _. kept c)

  apply_sack-SameSession : (c : Connection F) (p : Packet) → SameSession c (apply_sack c p).0
  unfolding apply_sack
  apply_sack-SameSession c p =
      of_option {A = Connection F × ℕ} (λ r. SameSession c r.0) (find_sack p.extensions) (c, 0) _
        (λ _. kept c) (λ sack _. process_sack-SameSession c p.ack_nr sack.body)

  confirm-SameSession : (c : Connection F) (p : Packet) → SameSession c (confirm c p)
  unfolding confirm
  confirm-SameSession c p = of_if (SameSession c) (confirms c p) _ c (λ _. kept c) (λ _. kept c)

  pub receive_ack-SameSession :
      (float : Float F) (c : Connection F) (p : Packet) (now : ℕ)
      → SameSession c (receive_ack float c p now)
  unfolding receive_ack
  receive_ack-SameSession float c p now =
      let acked = drop_acked p.ack_nr c.in_flight in
      let confirmed = confirm (record c { in_flight = acked.0 }) p in
      let sacked = apply_sack confirmed p in
      let same =
        SameSession_trans c confirmed sacked.0
          (confirm-SameSession (record c { in_flight = acked.0 }) p)
          (apply_sack-SameSession confirmed p) in
      of_if (SameSession c) (ltb 0 (acked.1 + sacked.1)) _ _ (λ _. same) (λ _. same)

  fast_retransmit-SameReceiving :
      (c : Connection F) (now : ℕ) → SameReceiving c (fast_retransmit c now).0
  unfolding fast_retransmit
  fast_retransmit-SameReceiving c now =
      of_option {A = Connection F × List Packet} (λ r. SameReceiving c r.0) c.fast_rtx_seq (c, []) _
        (λ _. unchanged c) (λ seq _. unchanged c)

  send_one-SameReceiving :
      (c : Connection F) (now : ℕ) (block : List ℕ) (blocks : List (List ℕ))
      → SameReceiving c (send_one c now block blocks).0
  unfolding send_one carve launch
  send_one-SameReceiving c now block blocks =
      let head = c.out_head + min (length block - c.out_head) max_data_payload in
      elim (Bool-cases (leb (length block) head)) [
        | inl e ↦ rw e (unchanged c)
        | inr e ↦ rw e (unchanged c)
      ]

  packetize-SameReceiving :
      (fuel window : ℕ) (c : Connection F) (now : ℕ)
      → SameReceiving c (packetize fuel window c now).0
  unfolding packetize
  packetize-SameReceiving zero window c now = unchanged c
  packetize-SameReceiving (suc fuel) window c now =
      of_test {A = Connection F × List Packet} (λ r. SameReceiving c r.0)
        (ltb 0 c.out_len && ltb (length c.in_flight) window) _ (c, [])
        (λ _.
          of_list {A = Connection F × List Packet} (λ r. SameReceiving c r.0) c.out_blocks (c, []) _
            (λ _. unchanged c)
            λ block blocks _.
              let sent = send_one c now block blocks in
              SameReceiving_trans c sent.0 (packetize fuel window sent.0 now).0
                (send_one-SameReceiving c now block blocks)
                (packetize-SameReceiving fuel window sent.0 now))
        (λ _. unchanged c)

  send_fin-SameReceiving : (c : Connection F) (now : ℕ) → SameReceiving c (send_fin c now).0
  unfolding send_fin launch
  send_fin-SameReceiving c now =
      of_if {A = Connection F × List Packet} (λ r. SameReceiving c r.0) (wants_fin c) _ (c, [])
        (λ _. unchanged c) (λ _. unchanged c)

  pub pending_send_packets-SameReceiving :
      (float : Float F) (c : Connection F) (now : ℕ)
      → SameReceiving c (pending_send_packets float c now).0
  unfolding pending_send_packets
  pending_send_packets-SameReceiving float c now =
      let window = window_of float c in
      let fast = fast_retransmit c now in
      let sent = packetize window window fast.0 now in
      let last = send_fin sent.0 now in
      let all = SameReceiving_trans c fast.0 last.0 (fast_retransmit-SameReceiving c now) (
        SameReceiving_trans fast.0 sent.0 last.0 (packetize-SameReceiving window window fast.0 now)
          (send_fin-SameReceiving sent.0 now)) in
      of_if {A = Connection F × List Packet} (λ r. SameReceiving c r.0) (is_closed c) (c, [])
        (if is_handshaking c.state then (c, []) else (last.0, fast.1 ++ (sent.1 ++ last.1)))
        (λ _. unchanged c)
        λ _.
          of_if {A = Connection F × List Packet} (λ r. SameReceiving c r.0) (is_handshaking c.state)
            (c, []) (last.0, fast.1 ++ (sent.1 ++ last.1)) (λ _. unchanged c) (λ _. all)

  pub tick-SameReceiving : (c : Connection F) (now : ℕ) → SameReceiving c (tick c now).0
  unfolding tick
  tick-SameReceiving c now =
      of_if {A = Connection F × List Packet} (λ r. SameReceiving c r.0) (is_closed c) (c, []) _
        (λ _. unchanged c)
        λ _.
          of_if {A = Connection F × List Packet} (λ r. SameReceiving c r.0) (leb c.deadline now) _ _
            (λ _. unchanged c) (λ _. unchanged c)

  pub enqueue_send_block-SameReceiving :
      (c : Connection F) (block : List ℕ) → SameReceiving c (enqueue_send_block c block).0
  unfolding enqueue_send_block
  enqueue_send_block-SameReceiving c block =
      of_if {A = Connection F × Bool} (λ r. SameReceiving c r.0) (refuses_sends c.state) (c, false)
        _ (λ _. unchanged c)
        λ _.
          of_if {A = Connection F × Bool} (λ r. SameReceiving c r.0) (is_empty block) (c, false) _
            (λ _. unchanged c) (λ _. unchanged c)

  pub close-SameReceiving : (c : Connection F) → SameReceiving c (close c)
  unfolding close
  close-SameReceiving c =
      elim c.state
        as (λ s. SameReceiving c (elim s [
          | connected ↦ record c { state = fin_sent }
          | syn_received ↦ record c { state = fin_sent }
          | _ ↦ c
        ])) [
          | syn_sent ↦ unchanged c
          | syn_received ↦ unchanged c
          | connected ↦ unchanged c
          | fin_sent ↦ unchanged c
          | closed ↦ unchanged c
          | reset ↦ unchanged c
        ]
