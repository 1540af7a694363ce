-- ===== src/Examples/UtpStream.antt =====
-- src/peer/utp/connection.rs: the theorems at concrete connections.
use rustytorrent.Base.{
  ℕ, ◌+◌, ◌≤◌, ◌≡◌, ◌↔◌, refl, ◌⊎◌, true, false, none, some, List, [], ◌∷◌, arith,
}
use rustytorrent.Peer.Utp.Ledbat.{Float}
use rustytorrent.Peer.Utp.Packet.{Packet, PacketType, as_slice}
use rustytorrent.Peer.Utp.Connection.{
  Connection, connected, new_initiator, new_receiver_with_seq, is_syn, matches_incoming, seq_le,
  wrapping_sub,
}
use rustytorrent.Peer.Utp.Connection.Incoming.{
  handle_incoming, confirm, is_reset, receive_ack, drop_acked, confirms, apply_sack, find_sack,
  dispatch, receive_data, stash, contains_key,
}
use rustytorrent.Base.Maps.{insert, remove, lookup}
use rustytorrent.Peer.Utp.Connection.Outgoing.{packetize}
use rustytorrent.Peer.Utp.Connection.Runs.{receives, here, next}
use rustytorrent.Peer.Utp.Connection.Delivery.{stream_of}
use rustytorrent.Peer.Utp.Connection.InOrder.{FromPeer, reads_in_order}
use rustytorrent.Peer.Utp.Connection.Bounds.{IsBounded}
use rustytorrent.Peer.Utp.Connection.Capacity.{Run-IsBounded}
use rustytorrent.Peer.Utp.Connection.ReturnPath.{past_baseline, confirm_iff}
use rustytorrent.Peer.Utp.Connection.Sending.{join, IsQueued, unsent}
use rustytorrent.Peer.Utp.Connection.Packets.{Packetized, packetize-Packetized}
use rustytorrent.Peer.Utp.Connection.Connecting.{Connects, connects}

-- A window in whole packets that does not change.
abbrev fixed_window : Float ℕ
fixed_window = record {
  initial = 4;
  grown = λ window delay acked peer. window;
  packets = λ window. window;
}

-- A receiver that has answered a SYN with number 1.
abbrev receiver : Connection ℕ
receiver = record {
  state = connected;
  send_id = 7;
  recv_id = 8;
  next_seq_nr = 500;
  peer_seq_nr_acked = 1;
  out_blocks = [];
  out_head = 0;
  out_len = 0;
  in_buf = [];
  peer_logical_acked = 0;
  pending_in = [];
  in_flight = [];
  accept_token = some 500;
  return_path_confirmed = false;
  deadline = 0;
  fast_rtx_seq = none;
  last_fast_rtx_seq = none;
  cc = record {
    cwnd_bytes = 4;
    fixed_floor = none;
    base_history = [];
    cur_slot_start = none;
    has_sample = false;
  };
}

-- Packet `k` of the peer carries two bytes `k`.
abbrev body : ℕ → List ℕ
body k = k ∷ k ∷ []

abbrev data_packet : ℕ → Packet
data_packet k = record {
  packet_type = PacketType.stream;
  connection_id = 8;
  timestamp_micros = 0;
  timestamp_diff_micros = 0;
  wnd_size = 1000;
  seq_nr = 1 + k;
  ack_nr = 499;
  extensions = [];
  payload = record { buf = k ∷ k ∷ []; start = 0; len = 2 };
}

after_early : Connection ℕ
after_early = (handle_incoming fixed_window receiver (data_packet 2) 0).0

early_ok : FromPeer {F = ℕ} body 1 receiver (data_packet 2)
unfolding as_slice
early_ok = record {
  position = 2;
  numbered = refl;
  carries = refl;
  not_far_behind = omega arith;
  not_far_ahead = omega arith;
  countable = omega arith;
}

after_early_waits : after_early.peer_logical_acked ≡ 0
unfolding after_early handle_incoming matches_incoming is_syn is_reset receive_ack drop_acked
    confirm confirms seq_le wrapping_sub apply_sack find_sack dispatch receive_data stash
    contains_key insert remove lookup
after_early_waits = refl

late_ok : FromPeer {F = ℕ} body 1 after_early (data_packet 1)
unfolding as_slice
late_ok =
    let l = after_early_waits in
    record {
      position = 1;
      numbered = refl;
      carries = refl;
      not_far_behind = omega arith;
      not_far_ahead = omega arith;
      countable = omega arith;
    }

-- Packet 2, then packet 1.
after_both : Connection ℕ
after_both = (handle_incoming fixed_window after_early (data_packet 1) 0).0

reads_in_order_example : after_both.in_buf ≡ stream_of body after_both.peer_logical_acked
unfolding after_early after_both
reads_in_order_example =
    reads_in_order body 1 fixed_window receiver after_both [] refl refl refl refl (
      next (next here (receives receiver (data_packet 2) 0 early_ok))
        (receives after_early (data_packet 1) 0 late_ok))

Run-IsBounded_example : IsBounded 2 after_both
unfolding after_early after_both as_slice
Run-IsBounded_example = Run-IsBounded 2 fixed_window {first = receiver} {c = after_both} refl refl (
    next (next here (receives receiver (data_packet 2) 0 (omega arith)))
      (receives after_early (data_packet 1) 0 (omega arith)))

confirm_iff_example :
    ((confirm receiver (data_packet 1)).return_path_confirmed ≡ true)
    ↔ ((past_baseline 500 499 ≤ 0) ⊎ ((let z : ℕ = 0 in z ≡ 0) × (past_baseline 500 499 ≡ 32768)))
unfolding is_syn
confirm_iff_example =
    confirm_iff receiver (data_packet 1) 500 0 refl refl refl (omega arith) (omega arith) refl
      (omega arith)

-- Two blocks wait, of the first one byte is sent.
abbrev writing : Connection ℕ
writing = record receiver {
  out_blocks = (1 ∷ 2 ∷ 3 ∷ []) ∷ (4 ∷ []) ∷ [];
  out_head = 1;
  out_len = 3;
}

writing-IsQueued : IsQueued writing
unfolding unsent join
writing-IsQueued = record { cursor = (omega arith, (omega arith, tt)); counted = refl }

packetize-Packetized_example :
    Packetized 4 writing (packetize 4 4 writing 0).0 (packetize 4 4 writing 0).1
packetize-Packetized_example = packetize-Packetized 4 4 writing 0 writing-IsQueued (omega arith)

connects_example :
    let opened = new_initiator fixed_window 7 0 in
    (b : Connection ℕ) × (answer : Packet) × (new_receiver_with_seq fixed_window opened.1 1 500
      ≡ some (b, answer))
    × Connects (handle_incoming fixed_window opened.0 answer 2).0 b
connects_example = connects fixed_window 7 500 0 1 2 (omega arith) (omega arith)
