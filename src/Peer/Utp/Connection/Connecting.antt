-- ===== src/Peer/Utp/Connection/Connecting.antt =====
-- src/peer/utp/connection.rs: the three-way opening, and the end of a drain.
use rustytorrent.Base.{
  ℕ, zero, suc, ◌+◌, ◌<◌, ◌≤◌, ◌≡◌, refl, ◌⊎◌, inl, inr, true, [], ◌∷◌, none, some, arith, ltb,
  ◌==◌, length, of_test, of_option,
}
use rustytorrent.Base.Maps.{Map, lookup}
use rustytorrent.Peer.Utp.Ledbat.{Float, on_ack}
use rustytorrent.Peer.Utp.Packet
use rustytorrent.Peer.Utp.Packet.{Packet, PacketType, Payload}
use rustytorrent.Peer.Utp.Connection.{
  Connection, connected, wrapping_add, wrapping_sub, recv_window_bytes, seq_le, is_syn,
  matches_incoming, new_initiator, new_receiver_with_seq,
}
use rustytorrent.Peer.Utp.Connection.Incoming.{
  handle_incoming, dispatch, receive_ack, drop_acked, confirm, confirms, apply_sack, find_sack,
  receive_state, receive_state_in, is_reset, drain, deliver_stashed, drain_pending_in,
}
use rustytorrent.Peer.Utp.Connection.Bounds.{length-remove_found}

lookup-empty : (k : ℕ) (m : Map Payload) → length m ≡ 0 → lookup k m ≡ none
unfolding lookup
lookup-empty k [] h = refl
lookup-empty k (e ∷ m) h = absurd (omega arith)

module _ {F : Type 0} where
  -- The loop of `drain_pending_in` has done what it can.
  abbrev pub IsDrained : Connection F → Type 0
  IsDrained d =
      (recv_window_bytes ≤ length d.in_buf)
      ⊎ (lookup (d.peer_logical_acked + 1) d.pending_in ≡ none)

  drain-IsDrained :
      (fuel : ℕ) (c : Connection F) → length c.pending_in ≤ fuel → IsDrained (drain fuel c)
  unfolding drain deliver_stashed
  drain-IsDrained zero c h = inr (lookup-empty _ c.pending_in (omega arith))
  drain-IsDrained (suc fuel) c h =
      of_test IsDrained (ltb (length c.in_buf) recv_window_bytes) _ c
        (λ _.
          of_option IsDrained (lookup (c.peer_logical_acked + 1) c.pending_in) c _ (λ e. inr e)
            λ p e.
              drain-IsDrained fuel (deliver_stashed c p)
                (let fewer = length-remove_found _ c.pending_in p e in omega arith))
        (λ full. inl (ground arith))

  -- Draining ends, when the receive window is full or the packet at the frontier is missing; the
  -- fuel, one round for each stashed packet, is enough.
  pub drain_pending_in_ends : (c : Connection F) → IsDrained (drain_pending_in c)
  unfolding drain_pending_in
  drain_pending_in_ends c = drain-IsDrained (length c.pending_in) c (omega arith)

  -- What both sides know after a SYN and its answer.
  pub record Connects (a b : Connection F) : Type 0 where
    pub a_connected : a.state ≡ connected
    pub b_connected : b.state ≡ connected
    pub syn_acked : a.in_flight ≡ []
    pub a_to_b : a.send_id ≡ b.recv_id
    pub b_to_a : b.send_id ≡ a.recv_id
    pub a_expects : wrapping_sub b.next_seq_nr a.peer_seq_nr_acked ≡ 1
    pub b_expects : wrapping_sub a.next_seq_nr b.peer_seq_nr_acked ≡ 1

  -- A receiver answers the SYN of an initiator, and the initiator takes the answer: both are
  -- connected, under each other's connection ids, the SYN is acknowledged, and the next number that
  -- each side sends is the next one that the other expects. The ids and the receiver's initial
  -- number are of 16 bits.
  pub connects :
      (float : Float F) (recv_id init_seq t₁ t₂ t₃ : ℕ)
      → recv_id < 65536
      → init_seq < 65536
      → let opened = new_initiator float recv_id t₁ in
        (b : Connection F) × (answer : Packet) × (new_receiver_with_seq float opened.1 t₂ init_seq
          ≡ some (b, answer))
        × Connects (handle_incoming float opened.0 answer t₃).0 b
  unfolding new_initiator new_receiver_with_seq handle_incoming dispatch Packet.new is_syn
      matches_incoming receive_ack drop_acked confirm confirms apply_sack find_sack seq_le
      wrapping_sub wrapping_add receive_state receive_state_in is_reset on_ack
  connects float recv_id init_seq t₁ t₂ t₃ h k =
      let same : (recv_id == recv_id) ≡ true = ground arith in
      (
        _,
        _,
        refl,
        rw same (record {
          a_connected = refl;
          b_connected = refl;
          syn_acked = refl;
          a_to_b = refl;
          b_to_a = refl;
          a_expects = omega arith;
          b_expects = refl;
        }),
      )
