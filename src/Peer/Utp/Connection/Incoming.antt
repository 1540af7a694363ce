-- ===== src/Peer/Utp/Connection/Incoming.antt =====
-- src/peer/utp/connection.rs: `handle_incoming`, with `drain_pending_in` and `build_state_ack`.
use rustytorrent.Base.{
  ℕ, zero, suc, ◌+◌, ◌%◌, ◌^◌, Bool, true, false, not, ◌||◌, ◌&&◌, List, [], ◌∷◌, ◌++◌, Option,
  none, some, ltb, leb, ◌==◌, if◌then◌else◌, length, is_empty,
}
use rustytorrent.Base.Maps.{Map, lookup, remove, insert}
use rustytorrent.Peer.Utp.Ledbat.{Float, on_ack}
use rustytorrent.Peer.Utp.Packet.{Packet, PacketType, Extension, Payload, as_slice, whole}
use rustytorrent.Peer.Utp.Connection.{
  Connection, InFlight, State, syn_sent, connected, closed, reset, wrapping_add, wrapping_sub,
  seq_le, recv_window, recv_window_bytes, max_pending_in, is_syn, matches_incoming,
}
use rustytorrent.Peer.Utp.Connection.Sack.{build_sack, process_sack, ext_selective_ack}

-- What stays in flight after a cumulative ack, and the bytes that it frees.
unfoldable pub drop_acked : ℕ → List InFlight → List InFlight × ℕ
unfolding seq_le
drop_acked acked_through [] = ([], 0)
drop_acked acked_through (e ∷ es) =
    let rest = drop_acked acked_through es in
    if seq_le e.seq_nr acked_through then (rest.0, e.packet.payload.len + rest.1) else (e ∷ es, 0)

unfoldable pub find_sack : List Extension → Option Extension
find_sack [] = none
find_sack (e ∷ es) = let rest = find_sack es in if e.kind == ext_selective_ack then some e else rest

-- `Option::into_iter().collect()`.
unfoldable pub to_list {ℓ} : {A : Type ℓ} → Option A → List A
to_list none = []
to_list (some a) = a ∷ []

unfoldable pub contains_key : ℕ → Map Payload → Bool
unfolding lookup
contains_key k m = elim (lookup k m) [ none ↦ false | some p ↦ true ]

unfoldable pub is_reset : PacketType → Bool
is_reset PacketType.reset = true
is_reset _ = false

module _ {F : Type 0} where
  unfoldable pub build_state_ack : Connection F → Packet
  unfolding recv_window build_sack whole to_list
  build_state_ack c = record {
    packet_type = PacketType.state;
    connection_id = c.send_id;
    timestamp_micros = 0;
    timestamp_diff_micros = 0;
    wnd_size = recv_window c;
    seq_nr = c.next_seq_nr;
    ack_nr = c.peer_seq_nr_acked;
    extensions = to_list (build_sack c);
    payload = whole [];
  }

  -- The packet behind the frontier is delivered.
  unfoldable pub deliver_stashed : Connection F → Payload → Connection F
  unfolding as_slice wrapping_add remove
  deliver_stashed c p = record c {
    pending_in = remove (c.peer_logical_acked + 1) c.pending_in;
    in_buf = c.in_buf ++ as_slice p;
    peer_seq_nr_acked = wrapping_add c.peer_seq_nr_acked 1;
    peer_logical_acked = c.peer_logical_acked + 1;
  }

  -- Each round takes a packet out of `pending_in`.
  unfoldable pub drain : ℕ → Connection F → Connection F
  unfolding deliver_stashed lookup
  drain zero c = c
  drain (suc fuel) c = elim (ltb (length c.in_buf) recv_window_bytes) [
    | false ↦ c
    | true ↦ elim (lookup (c.peer_logical_acked + 1) c.pending_in) [
      | none ↦ c
      | some p ↦ drain fuel (deliver_stashed c p)
    ]
  ]

  unfoldable pub drain_pending_in : Connection F → Connection F
  unfolding drain
  drain_pending_in c = drain (length c.pending_in) c

  unfoldable pub deliver : Connection F → Packet → Connection F
  unfolding as_slice
  deliver c p = record c {
    in_buf = c.in_buf ++ as_slice p.payload;
    peer_seq_nr_acked = p.seq_nr;
    peer_logical_acked = (c.peer_logical_acked + 1) % 2 ^ 64;
  }

  unfoldable pub stash : Connection F → ℕ → Payload → Connection F
  unfolding contains_key insert
  stash c logical p =
      if contains_key logical c.pending_in || ltb (length c.pending_in) max_pending_in
      then record c { pending_in = insert logical p c.pending_in }
      else c

  -- The DATA branch, but for the ack.
  unfoldable pub receive_data : Connection F → Packet → Connection F
  unfolding seq_le wrapping_sub deliver stash drain_pending_in
  receive_data c p =
      let dist = wrapping_sub p.seq_nr c.peer_seq_nr_acked in
      if seq_le p.seq_nr c.peer_seq_nr_acked
      then c
      else if dist == 1
      then if leb recv_window_bytes (length c.in_buf) then c else drain_pending_in (deliver c p)
      else stash c (c.peer_logical_acked + dist) p.payload

  unfoldable pub receive_state_in : State → Connection F → Packet → Connection F
  unfolding wrapping_sub
  receive_state_in syn_sent c p = record c {
    state = connected;
    peer_seq_nr_acked = wrapping_sub p.seq_nr 1;
  }
  receive_state_in _ c p = c

  unfoldable pub receive_state : Connection F → Packet → Connection F
  unfolding receive_state_in
  receive_state c p = receive_state_in c.state c p

  unfoldable pub receive_fin : Connection F → Packet → Connection F
  receive_fin c p =
      let acked = record c { peer_seq_nr_acked = p.seq_nr } in
      if (c.out_len == 0) && is_empty c.in_flight then record acked { state = closed } else acked

  -- A non-SYN packet that acknowledges a number in the window at the token confirms the peer.
  unfoldable pub confirms : Connection F → Packet → Bool
  unfolding seq_le wrapping_sub is_syn
  confirms c p = elim c.accept_token [
    | none ↦ false
    | some token ↦
        not c.return_path_confirmed
        && (not (is_syn p.packet_type)
            && (seq_le (wrapping_sub token 1) p.ack_nr
                && seq_le p.ack_nr (wrapping_sub c.next_seq_nr 1)))
  ]

  unfoldable pub confirm : Connection F → Packet → Connection F
  unfolding confirms
  confirm c p = if confirms c p then record c { return_path_confirmed = true } else c

  unfoldable pub apply_sack : Connection F → Packet → Connection F × ℕ
  unfolding find_sack process_sack
  apply_sack c p = elim (find_sack p.extensions) [
    | none ↦ (c, 0)
    | some sack ↦ process_sack c p.ack_nr sack.body
  ]

  -- The acknowledgements in a packet: what is in flight, the accept token and the window.
  unfoldable pub receive_ack : Float F → Connection F → Packet → ℕ → Connection F
  unfolding drop_acked confirm apply_sack
  receive_ack float c p now =
      let acked = drop_acked p.ack_nr c.in_flight in
      let sacked = apply_sack (confirm (record c { in_flight = acked.0 }) p) p in
      let bytes_acked = acked.1 + sacked.1 in
      if ltb 0 bytes_acked
      then record (sacked.0) {
        cc = on_ack float (sacked.0).cc p.timestamp_diff_micros bytes_acked p.wnd_size now;
      }
      else sacked.0

  -- The `match` on the packet type. For a FIN the ack is built before the state changes, which
  -- it does not contain.
  unfoldable pub dispatch : PacketType → Connection F → Packet → Connection F × Option Packet
  unfolding receive_data receive_state receive_fin build_state_ack
  dispatch PacketType.stream c p =
      let received = receive_data c p in (received, some (build_state_ack received))
  dispatch PacketType.fin c p =
      let received = receive_fin c p in (received, some (build_state_ack received))
  dispatch PacketType.state c p = (receive_state c p, none)
  dispatch PacketType.reset c p = (c, none)
  dispatch PacketType.syn c p = (c, some (build_state_ack c))

  unfoldable pub handle_incoming :
      Float F → Connection F → Packet → ℕ → Connection F × Option Packet
  unfolding receive_ack dispatch matches_incoming
  handle_incoming float c p now =
      if not (matches_incoming c p)
      then (c, none)
      else if is_reset p.packet_type
      then (record c { state = reset }, none)
      else dispatch p.packet_type (receive_ack float c p now) p
