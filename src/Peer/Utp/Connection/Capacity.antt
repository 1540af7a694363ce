-- ===== src/Peer/Utp/Connection/Capacity.antt =====
-- src/peer/utp/connection.rs: the bounds hold through all calls.
use rustytorrent.Base.{
  ℕ, ◌≤◌, min, ◌≡◌, refl, not, ◌&&◌, List, [], Option, none, arith, ◌==◌, length, length-drop,
  of_if, is_empty,
}
use rustytorrent.Peer.Utp.Ledbat.{Float}
use rustytorrent.Peer.Utp.Packet.{Packet, PacketType, as_slice}
use rustytorrent.Peer.Utp.Connection.{
  Connection, State, syn_sent, reset, take_received, matches_incoming, closed,
}
use rustytorrent.Peer.Utp.Connection.Incoming.{
  receive_state_in, receive_state, receive_fin, dispatch, receive_ack, handle_incoming, is_reset,
}
use rustytorrent.Peer.Utp.Connection.Runs.{
  Step, Run, receives, reads, sends, ticks, writes, closes, here, next,
}
use rustytorrent.Peer.Utp.Connection.Receiving.{
  receive_ack-SameSession, pending_send_packets-SameReceiving, tick-SameReceiving,
  enqueue_send_block-SameReceiving, close-SameReceiving,
}
use rustytorrent.Peer.Utp.Connection.Bounds.{IsBounded, receive_data-IsBounded}

module _ {F : Type 0} (m : ℕ) where
  -- Only the two buffers count.
  IsBounded-same :
      (c d : Connection F)
      → d.in_buf ≡ c.in_buf
      → d.pending_in ≡ c.pending_in
      → IsBounded m c
      → IsBounded m d
  IsBounded-same c d e f h = record {
    buffered = rw e h.buffered;
    stashed_count = rw f h.stashed_count;
    stashed_short = rw f h.stashed_short;
  }

  receive_state_in-IsBounded :
      (s : State) (c : Connection F) (p : Packet)
      → IsBounded m c
      → IsBounded m (receive_state_in s c p)
  unfolding receive_state_in
  receive_state_in-IsBounded syn_sent c p h = IsBounded-same c _ refl refl h
  receive_state_in-IsBounded _ c p h = h

  receive_fin-IsBounded :
      (c : Connection F) (p : Packet) → IsBounded m c → IsBounded m (receive_fin c p)
  unfolding receive_fin
  receive_fin-IsBounded c p h =
      let acked = record c { peer_seq_nr_acked = p.seq_nr } in
      let done = record acked { state = closed } in
      of_if (IsBounded m) ((c.out_len == 0) && is_empty c.in_flight) done acked
        (λ _. IsBounded-same c done refl refl h) (λ _. IsBounded-same c acked refl refl h)

  dispatch-IsBounded :
      (kind : PacketType) (c : Connection F) (p : Packet)
      → IsBounded m c
      → length (as_slice p.payload) ≤ m
      → IsBounded m (dispatch kind c p).0
  unfolding dispatch receive_state
  dispatch-IsBounded PacketType.stream c p h short = receive_data-IsBounded m c p h short
  dispatch-IsBounded PacketType.fin c p h short = receive_fin-IsBounded c p h
  dispatch-IsBounded PacketType.state c p h short = receive_state_in-IsBounded c.state c p h
  dispatch-IsBounded PacketType.reset c p h short = h
  dispatch-IsBounded PacketType.syn c p h short = h

  abbrev pub IsShort : Connection F → Packet → Type 0
  IsShort c p = length (as_slice p.payload) ≤ m

  handle_incoming-IsBounded :
      (float : Float F) (c : Connection F) (p : Packet) (now : ℕ)
      → IsBounded m c
      → length (as_slice p.payload) ≤ m
      → IsBounded m (handle_incoming float c p now).0
  unfolding handle_incoming
  handle_incoming-IsBounded float c p now h short =
      let acked = receive_ack float c p now in
      let same = receive_ack-SameSession float c p now in
      of_if {A = Connection F × Option Packet} (λ r. IsBounded m r.0) (not (matches_incoming c p))
        (c, none) _ (λ _. h)
        λ _.
          of_if {A = Connection F × Option Packet} (λ r. IsBounded m r.0) (is_reset p.packet_type)
            (record c { state = reset }, none) (dispatch p.packet_type acked p)
            (λ _. IsBounded-same c (record c { state = reset }) refl refl h)
            (λ _.
              dispatch-IsBounded p.packet_type acked p (IsBounded-same c acked same.0.0 same.0.3 h)
                short)

  Step-IsBounded :
      (float : Float F) {c d : Connection F} {bytes : List ℕ}
      → Step float IsShort c bytes d
      → IsBounded m c
      → IsBounded m d
  unfolding take_received
  Step-IsBounded float (receives c p now short) h = handle_incoming-IsBounded float c p now h short
  Step-IsBounded float (reads c n) h = record {
    buffered =
        (let before = h.buffered in omega (arith, length-drop (min (length c.in_buf) n) c.in_buf));
    stashed_count = h.stashed_count;
    stashed_short = h.stashed_short;
  }
  Step-IsBounded float (sends c now) h =
      let s = pending_send_packets-SameReceiving float c now in IsBounded-same c _ s.0 s.3 h
  Step-IsBounded float (ticks c now) h =
      let s = tick-SameReceiving c now in IsBounded-same c _ s.0 s.3 h
  Step-IsBounded float (writes c block) h =
      let s = enqueue_send_block-SameReceiving c block in IsBounded-same c _ s.0 s.3 h
  Step-IsBounded float (closes c) h = let s = close-SameReceiving c in IsBounded-same c _ s.0 s.3 h

  -- Whatever packets of at most `m` bytes a peer sends, in whatever order and state, a connection
  -- that starts empty never buffers more than the receive window and one packet, nor stashes more
  -- than `max_pending_in` packets.
  pub Run-IsBounded :
      (float : Float F) {first c : Connection F} {taken : List ℕ}
      → first.in_buf ≡ []
      → first.pending_in ≡ []
      → Run float IsShort first taken c
      → IsBounded m c
  Run-IsBounded float empty none_stashed here = record {
    buffered = rw empty (omega arith);
    stashed_count = rw none_stashed (omega arith);
    stashed_short = rw none_stashed tt;
  }
  Run-IsBounded float empty none_stashed (next run step) =
      Step-IsBounded float step (Run-IsBounded float empty none_stashed run)
