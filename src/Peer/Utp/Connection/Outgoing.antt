-- ===== src/Peer/Utp/Connection/Outgoing.antt =====
-- src/peer/utp/connection.rs: `pending_send_packets` and `tick`.
use rustytorrent.Base.{
  ℕ, zero, suc, ◌+◌, ◌-◌, ◌*◌, min, Bool, true, false, not, ◌||◌, ◌&&◌, List, [], ◌∷◌, ◌++◌, none,
  some, ltb, leb, ◌==◌, if◌then◌else◌, length,
}
use rustytorrent.Peer.Utp.Ledbat.{Float, window_packets, unwrap_or, push_back}
use rustytorrent.Peer.Utp.Packet.{Packet, PacketType, Payload, whole}
use rustytorrent.Peer.Utp.Connection.{
  Connection, InFlight, State, syn_sent, syn_received, fin_sent, reset, wrapping_add, recv_window,
  is_closed, is_fin, initial_rto, max_rto, max_data_payload, initial_window_packets,
}

-- The entry of a packet that is sent again.
unfoldable pub refreshed : ℕ → ℕ → InFlight → InFlight
refreshed ack_nr now e = record e {
  packet = record (e.packet) { ack_nr = ack_nr };
  send_time = now;
}

-- `iter_mut().find`: the first entry with the number is sent again.
unfoldable pub resend : ℕ → ℕ → ℕ → List InFlight → List InFlight × List Packet
unfolding refreshed
resend seq ack_nr now [] = ([], [])
resend seq ack_nr now (e ∷ es) =
    let rest = resend seq ack_nr now es in
    let again = refreshed ack_nr now e in
    if e.seq_nr == seq then (again ∷ es, again.packet ∷ []) else (e ∷ rest.0, rest.1)

-- The entries whose timer has run out are sent again, with a doubled timer.
unfoldable pub retransmit : ℕ → ℕ → List InFlight → List InFlight × List Packet
unfolding refreshed
retransmit ack_nr now [] = ([], [])
retransmit ack_nr now (e ∷ es) =
    let rest = retransmit ack_nr now es in
    let again = record (refreshed ack_nr now e) { rto = min (e.rto * 2) max_rto } in
    if leb e.rto (now - e.send_time)
    then (again ∷ rest.0, again.packet ∷ rest.1)
    else (e ∷ rest.0, rest.1)

unfoldable pub has_fin : List InFlight → Bool
unfolding is_fin
has_fin [] = false
has_fin (e ∷ es) = is_fin e.packet.packet_type || has_fin es

unfoldable pub is_handshaking : State → Bool
is_handshaking syn_sent = true
is_handshaking syn_received = true
is_handshaking _ = false

module _ {F : Type 0} where
  -- A DATA or FIN packet with the next sequence number.
  unfoldable pub next_packet : Connection F → PacketType → Payload → Packet
  unfolding recv_window
  next_packet c packet_type payload = record {
    packet_type = packet_type;
    connection_id = c.send_id;
    timestamp_micros = 0;
    timestamp_diff_micros = 0;
    wnd_size = recv_window c;
    seq_nr = c.next_seq_nr;
    ack_nr = c.peer_seq_nr_acked;
    extensions = [];
    payload = payload;
  }

  -- The packet joins the retransmit queue and takes its sequence number.
  unfoldable pub launch : Connection F → ℕ → Packet → Connection F
  unfolding push_back wrapping_add
  launch c now p = record c {
    in_flight =
        push_back c.in_flight
          (record { seq_nr = c.next_seq_nr; send_time = now; rto = initial_rto; packet = p });
    next_seq_nr = wrapping_add c.next_seq_nr 1;
  }

  -- The fast retransmit that a selective ack asked for.
  unfoldable pub fast_retransmit : Connection F → ℕ → Connection F × List Packet
  unfolding resend
  fast_retransmit c now = elim c.fast_rtx_seq [
    | none ↦ (c, [])
    | some seq ↦
        let sent = resend seq c.peer_seq_nr_acked now c.in_flight in
        (record c { fast_rtx_seq = none; in_flight = sent.0 }, sent.1)
  ]

  -- The next slice of the front block. The cursor moves on, and off the block at its end.
  unfoldable pub carve : Connection F → List ℕ → List (List ℕ) → Connection F × Payload
  carve c block blocks =
      let size = min (length block - c.out_head) max_data_payload in
      let payload : Payload = record { buf = block; start = c.out_head; len = size } in
      let left = c.out_len - size in
      let head = c.out_head + size in
      (
        if leb (length block) head
            then record c { out_len = left; out_blocks = blocks; out_head = 0 }
            else record c { out_len = left; out_head = head },
        payload,
      )

  -- One round of the loop: a DATA packet from the front block.
  unfoldable pub send_one : Connection F → ℕ → List ℕ → List (List ℕ) → Connection F × Packet
  unfolding carve next_packet launch
  send_one c now block blocks =
      let carved = carve c block blocks in
      let p = next_packet carved.0 PacketType.stream carved.1 in (launch carved.0 now p, p)

  -- The loop. Each round fills a place of the window, so the window is fuel enough.
  unfoldable pub packetize : ℕ → ℕ → Connection F → ℕ → Connection F × List Packet
  unfolding send_one
  packetize zero window c now = (c, [])
  packetize (suc fuel) window c now = elim (ltb 0 c.out_len && ltb (length c.in_flight) window) [
    | false ↦ (c, [])
    | true ↦ elim c.out_blocks [
      | [] ↦ (c, [])
      | block ∷ blocks ↦
          let sent = send_one c now block blocks in
          let rest = packetize fuel window sent.0 now in (rest.0, sent.1 ∷ rest.1)
    ]
  ]

  unfoldable pub wants_fin : Connection F → Bool
  unfolding has_fin
  wants_fin c = elim c.state [
    | fin_sent ↦ (c.out_len == 0) && not (has_fin c.in_flight)
    | _ ↦ false
  ]

  unfoldable pub send_fin : Connection F → ℕ → Connection F × List Packet
  unfolding wants_fin next_packet launch whole
  send_fin c now =
      let p = next_packet c PacketType.fin (whole []) in
      if wants_fin c then (launch c now p, p ∷ []) else (c, [])

  unfoldable pub window_of : Float F → Connection F → ℕ
  unfolding window_packets unwrap_or
  window_of float c = unwrap_or (window_packets float c.cc) initial_window_packets

  unfoldable pub pending_send_packets : Float F → Connection F → ℕ → Connection F × List Packet
  unfolding is_closed is_handshaking fast_retransmit packetize send_fin window_of
  pending_send_packets float c now =
      let window = window_of float c in
      let fast = fast_retransmit c now in
      let sent = packetize window window fast.0 now in
      let last = send_fin sent.0 now in
      if is_closed c
      then (c, [])
      else if is_handshaking c.state
      then (c, [])
      else (last.0, fast.1 ++ (sent.1 ++ last.1))

  unfoldable pub tick : Connection F → ℕ → Connection F × List Packet
  unfolding is_closed retransmit
  tick c now =
      let sent = retransmit c.peer_seq_nr_acked now c.in_flight in
      if is_closed c
      then (c, [])
      else if leb c.deadline now
      then (record c { state = reset }, [])
      else (record c { in_flight = sent.0 }, sent.1)
