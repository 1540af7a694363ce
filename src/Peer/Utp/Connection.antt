-- ===== src/Peer/Utp/Connection.antt =====
-- src/peer/utp/connection.rs: the state of one uTP connection and its small operations.
--
-- Instants and durations are numbers of nanoseconds, sequence numbers are below 2 ^ 16 and their
-- sums wrap. `pending_in`, a `BTreeMap`, is an association list: nothing that the code computes
-- from it depends on the order of its keys.
pub mod Sack
pub mod Incoming
pub mod Connecting
pub mod Writing
pub mod Packets
pub mod Sending
pub mod ReturnPath
pub mod Capacity
pub mod Bounds
pub mod InOrder
pub mod Runs
pub mod Receiving
pub mod Delivery
pub mod Sequence
pub mod Outgoing
use rustytorrent.Base.{
  ℕ, zero, suc, ◌+◌, ◌-◌, ◌*◌, ◌/◌, ◌%◌, ◌^◌, min, Bool, true, false, not, ◌||◌, ◌&&◌, List, [],
  ◌∷◌, ◌++◌, Option, none, some, ltb, leb, ◌==◌, if◌then◌else◌, length, is_empty, take, drop,
}
use rustytorrent.Base.Maps.{Map}
use rustytorrent.Peer.Utp.Ledbat
use rustytorrent.Peer.Utp.Ledbat.{Ledbat, Float, push_back}
use rustytorrent.Peer.Utp.Packet.{Packet, PacketType, Payload, whole}
use rustytorrent.Peer.Utp.Packet

abbrev pub initial_rto : ℕ
initial_rto = 10 ^ 9

abbrev pub max_rto : ℕ
max_rto = 15 * 10 ^ 9

abbrev pub hard_timeout : ℕ
hard_timeout = 60 * 10 ^ 9

abbrev pub initial_window_packets : ℕ
initial_window_packets = 8

abbrev pub max_data_payload : ℕ
max_data_payload = 1200

abbrev pub recv_window_bytes : ℕ
recv_window_bytes = 1048576

abbrev pub max_pending_in : ℕ
max_pending_in = recv_window_bytes / max_data_payload + 1

-- `wrapping_add` and `wrapping_sub` of a `u16`.
unfoldable pub wrapping_add : ℕ → ℕ → ℕ
wrapping_add a b = (a + b) % 2 ^ 16

unfoldable pub wrapping_sub : ℕ → ℕ → ℕ
wrapping_sub a b = (a + (2 ^ 16 - b)) % 2 ^ 16

unfoldable pub seq_le : ℕ → ℕ → Bool
unfolding wrapping_sub
seq_le a b = leb (wrapping_sub b a) 32768

pub data State : Type 0 where
  syn_sent syn_received connected fin_sent closed reset : State

pub record InFlight : Type 0 where
  pub seq_nr : ℕ
  pub send_time : ℕ
  pub rto : ℕ
  pub packet : Packet

pub record Connection (F : Type 0) : Type 0 where
  pub state : State
  pub send_id : ℕ
  pub recv_id : ℕ
  pub next_seq_nr : ℕ
  pub peer_seq_nr_acked : ℕ
  pub out_blocks : List (List ℕ)
  pub out_head : ℕ
  pub out_len : ℕ
  pub in_buf : List ℕ
  pub peer_logical_acked : ℕ
  pub pending_in : Map Payload
  pub in_flight : List InFlight
  pub accept_token : Option ℕ
  pub return_path_confirmed : Bool
  pub deadline : ℕ
  pub fast_rtx_seq : Option ℕ
  pub last_fast_rtx_seq : Option ℕ
  pub cc : Ledbat F

unfoldable pub is_syn : PacketType → Bool
is_syn PacketType.syn = true
is_syn _ = false

unfoldable pub is_fin : PacketType → Bool
is_fin PacketType.fin = true
is_fin _ = false

-- The states in which a connection takes no more bytes to send.
unfoldable pub refuses_sends : State → Bool
refuses_sends fin_sent = true
refuses_sends closed = true
refuses_sends reset = true
refuses_sends _ = false

unfoldable pub payload_bytes : List InFlight → ℕ
payload_bytes [] = 0
payload_bytes (e ∷ es) = e.packet.payload.len + payload_bytes es

unfoldable pub stashed_bytes : Map Payload → ℕ
stashed_bytes [] = 0
stashed_bytes ((k, p) ∷ m) = p.len + stashed_bytes m

module _ {F : Type 0} where
  unfoldable pub recv_window : Connection F → ℕ
  recv_window c = recv_window_bytes - length c.in_buf % 2 ^ 32

  -- The SYN is in flight from the start.
  unfoldable pub new_initiator : Float F → ℕ → ℕ → Connection F × Packet
  unfolding wrapping_add
  new_initiator float recv_id now =
      let first = Packet.new PacketType.syn recv_id 1 0 in
      let c : Connection F = record {
        state = syn_sent;
        send_id = wrapping_add recv_id 1;
        recv_id = recv_id;
        next_seq_nr = wrapping_add 1 1;
        peer_seq_nr_acked = 0;
        out_blocks = [];
        out_head = 0;
        out_len = 0;
        in_buf = [];
        peer_logical_acked = 0;
        pending_in = [];
        in_flight = record { seq_nr = 1; send_time = now; rto = initial_rto; packet = first } ∷ [];
        accept_token = none;
        return_path_confirmed = true;
        deadline = now + hard_timeout;
        fast_rtx_seq = none;
        last_fast_rtx_seq = none;
        cc = Ledbat.new float;
      } in
      (c, first)

  -- The answer to a SYN, with the initial sequence number `init_seq`.
  unfoldable pub new_receiver_with_seq : Float F → Packet → ℕ → ℕ → Option (Connection F × Packet)
  unfolding wrapping_add is_syn
  new_receiver_with_seq float first now init_seq =
      let c : Connection F = record {
        state = connected;
        send_id = first.connection_id;
        recv_id = wrapping_add first.connection_id 1;
        next_seq_nr = init_seq;
        peer_seq_nr_acked = first.seq_nr;
        out_blocks = [];
        out_head = 0;
        out_len = 0;
        in_buf = [];
        peer_logical_acked = 0;
        pending_in = [];
        in_flight = [];
        accept_token = some init_seq;
        return_path_confirmed = false;
        deadline = now + hard_timeout;
        fast_rtx_seq = none;
        last_fast_rtx_seq = none;
        cc = Ledbat.new float;
      } in
      let answer : Packet = record {
        packet_type = PacketType.state;
        connection_id = c.send_id;
        timestamp_micros = 0;
        timestamp_diff_micros = 0;
        wnd_size = recv_window c;
        seq_nr = c.next_seq_nr;
        ack_nr = first.seq_nr;
        extensions = [];
        payload = whole [];
      } in
      if not (is_syn first.packet_type) then none else some (c, answer)

  unfoldable pub is_closed : Connection F → Bool
  is_closed c = elim c.state [ closed ↦ true | reset ↦ true | _ ↦ false ]

  unfoldable pub fin_complete : Connection F → Bool
  fin_complete c = elim c.state [ fin_sent ↦ is_empty c.in_flight | _ ↦ false ]

  unfoldable pub enqueue_send_block : Connection F → List ℕ → Connection F × Bool
  unfolding refuses_sends push_back
  enqueue_send_block c block =
      if refuses_sends c.state then (c, false) else if is_empty block then (c, false) else (
        record c { out_len = c.out_len + length block; out_blocks = push_back c.out_blocks block },
        true,
      )

  unfoldable pub enqueue_send : Connection F → List ℕ → Connection F
  unfolding enqueue_send_block
  enqueue_send c bytes = if is_empty bytes then c else (enqueue_send_block c bytes).0

  unfoldable pub outstanding_send_bytes : Connection F → ℕ
  unfolding payload_bytes
  outstanding_send_bytes c = c.out_len + payload_bytes c.in_flight

  unfoldable pub undelivered_receive_bytes : Connection F → ℕ
  unfolding stashed_bytes
  undelivered_receive_bytes c = length c.in_buf + stashed_bytes c.pending_in

  -- The connection and the bytes that the application gets.
  unfoldable pub take_received : Connection F → ℕ → Connection F × List ℕ
  take_received c limit =
      let n = min (length c.in_buf) limit in
      (record c { in_buf = drop n c.in_buf }, take n c.in_buf)

  unfoldable pub close : Connection F → Connection F
  close c = elim c.state [
    | connected ↦ record c { state = fin_sent }
    | syn_received ↦ record c { state = fin_sent }
    | _ ↦ c
  ]

  unfoldable pub matches_incoming : Connection F → Packet → Bool
  unfolding is_syn
  matches_incoming c p =
      (p.connection_id == c.recv_id) || (is_syn p.packet_type && (p.connection_id == c.send_id))
