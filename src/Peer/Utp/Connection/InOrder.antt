-- ===== src/Peer/Utp/Connection/InOrder.antt =====
-- src/peer/utp/connection.rs: whatever a driver does, the application reads the peer's stream.
use rustytorrent.Base.{
  ℕ, ◌%◌, ◌^◌, ◌≡◌, ◌≢◌, refl, sym, ◌∙◌, not, List, [], ◌++◌, append-nil, Option, none, arith,
  of_if, ◌≡◌,
}
use rustytorrent.Peer.Utp.Ledbat.{Float}
use rustytorrent.Peer.Utp.Packet.{Packet, PacketType}
use rustytorrent.Peer.Utp.Connection.{Connection, State, syn_sent, reset, matches_incoming}
use rustytorrent.Peer.Utp.Connection.Incoming.{
  handle_incoming, dispatch, receive_ack, receive_state, receive_state_in, is_reset,
}
use rustytorrent.Peer.Utp.Connection.Runs.{
  Step, Run, receives, reads, sends, ticks, writes, closes, here, next,
}
use rustytorrent.Peer.Utp.Connection.Delivery.{
  Tracks, Belongs, receive_data-Tracks, take_received-Tracks, stream_of,
}
use rustytorrent.Peer.Utp.Connection.Receiving.{
  SameReceiving, SameSession, receive_ack-SameSession, pending_send_packets-SameReceiving,
  tick-SameReceiving, enqueue_send_block-SameReceiving, close-SameReceiving,
}

module _ {F : Type 0} (body : ℕ → List ℕ) (origin : ℕ) where
  -- Packets that do not end the stream, the DATA ones being the peer's.
  abbrev AllowedOf : PacketType → Connection F → Packet → Type 0
  AllowedOf PacketType.stream c p = Belongs body origin c p
  AllowedOf PacketType.fin c p = ⊥
  AllowedOf PacketType.state c p = c.state ≢ syn_sent
  AllowedOf PacketType.reset c p = Unit
  AllowedOf PacketType.syn c p = Unit

  abbrev pub FromPeer : Connection F → Packet → Type 0
  FromPeer c p = AllowedOf p.packet_type c p

  Tracks-same :
      (taken : List ℕ) (c d : Connection F)
      → SameReceiving c d
      → Tracks body origin taken c
      → Tracks body origin taken d
  Tracks-same taken c d s t = record {
    delivered = rw (s.0, s.2) t.delivered;
    frontier = rw (s.1, s.2) t.frontier;
    stashed = rw s.3 t.stashed;
  }

  Belongs-same :
      (c d : Connection F) (p : Packet)
      → SameReceiving c d
      → Belongs body origin c p
      → Belongs body origin d p
  Belongs-same c d p s b = record {
    position = b.position;
    numbered = b.numbered;
    carries = b.carries;
    not_far_behind = rw s.2 b.not_far_behind;
    not_far_ahead = rw s.2 b.not_far_ahead;
    countable = rw s.2 b.countable;
  }

  receive_state_in-Tracks :
      (s : State) (taken : List ℕ) (c : Connection F) (p : Packet)
      → s ≢ syn_sent
      → Tracks body origin taken c
      → Tracks body origin taken (receive_state_in s c p)
  unfolding receive_state_in
  receive_state_in-Tracks syn_sent taken c p ok t = absurd (ok refl)
  receive_state_in-Tracks _ taken c p ok t = t

  dispatch-Tracks :
      (kind : PacketType) (taken : List ℕ) (c d : Connection F) (p : Packet)
      → SameSession c d
      → AllowedOf kind c p
      → Tracks body origin taken d
      → Tracks body origin taken (dispatch kind d p).0
  unfolding dispatch receive_state
  dispatch-Tracks PacketType.stream taken c d p s ok t =
      receive_data-Tracks body origin taken d p t (Belongs-same c d p s.0 ok)
  dispatch-Tracks PacketType.fin taken c d p s ok t = absurd ok
  dispatch-Tracks PacketType.state taken c d p s ok t =
      receive_state_in-Tracks d.state taken d p (λ h. ok (sym s.1 ∙ h)) t
  dispatch-Tracks PacketType.reset taken c d p s ok t = t
  dispatch-Tracks PacketType.syn taken c d p s ok t = t

  handle_incoming-Tracks :
      (float : Float F) (taken : List ℕ) (c : Connection F) (p : Packet) (now : ℕ)
      → FromPeer c p
      → Tracks body origin taken c
      → Tracks body origin taken (handle_incoming float c p now).0
  unfolding handle_incoming
  handle_incoming-Tracks float taken c p now ok t =
      let acked = receive_ack float c p now in
      let same = receive_ack-SameSession float c p now in
      of_if {A = Connection F × Option Packet} (λ r. Tracks body origin taken r.0)
        (not (matches_incoming c p)) (c, none) _ (λ _. t)
        λ _.
          of_if {A = Connection F × Option Packet} (λ r. Tracks body origin taken r.0)
            (is_reset p.packet_type) (record c { state = reset }, none)
            (dispatch p.packet_type acked p) (λ _. Tracks-same taken c _ (refl, refl, refl, refl) t)
            (λ _.
              dispatch-Tracks p.packet_type taken c acked p same ok
                (Tracks-same taken c acked same.0 t))

  Step-Tracks :
      (float : Float F) {c d : Connection F} {bytes : List ℕ} (taken : List ℕ)
      → Step float FromPeer c bytes d
      → Tracks body origin taken c
      → Tracks body origin (taken ++ bytes) d
  Step-Tracks float taken (reads c n) t = take_received-Tracks body origin taken c n t
  Step-Tracks float taken (receives c p now ok) t =
      rw (append-nil taken) (handle_incoming-Tracks float taken c p now ok t)
  Step-Tracks float taken (sends c now) t =
      rw (append-nil taken)
        (Tracks-same taken c _ (pending_send_packets-SameReceiving float c now) t)
  Step-Tracks float taken (ticks c now) t =
      rw (append-nil taken) (Tracks-same taken c _ (tick-SameReceiving c now) t)
  Step-Tracks float taken (writes c block) t =
      rw (append-nil taken) (Tracks-same taken c _ (enqueue_send_block-SameReceiving c block) t)
  Step-Tracks float taken (closes c) t =
      rw (append-nil taken) (Tracks-same taken c _ (close-SameReceiving c) t)

  Run-Tracks :
      (float : Float F) {first c : Connection F} {taken : List ℕ}
      → Run float FromPeer first taken c
      → Tracks body origin [] first
      → Tracks body origin taken c
  Run-Tracks float here t = t
  Run-Tracks float (next run step) t = Step-Tracks float _ step (Run-Tracks float run t)

  -- Once a connection knows where the peer's stream starts, and until a FIN arrives, the bytes that
  -- the application has read, with those that wait in `in_buf`, are the peer's first packets in
  -- order, each once: whatever the network drops, repeats or reorders by less than 2 ^ 15 packets,
  -- and however the calls interleave.
  pub reads_in_order :
      (float : Float F) (first c : Connection F) (taken : List ℕ)
      → first.in_buf ≡ []
      → first.pending_in ≡ []
      → first.peer_logical_acked ≡ 0
      → first.peer_seq_nr_acked ≡ origin % 2 ^ 16
      → Run float FromPeer first taken c
      → taken ++ c.in_buf ≡ stream_of body c.peer_logical_acked
  unfolding stream_of
  reads_in_order float first c taken empty none_stashed begun at run =
      let start : Tracks body origin [] first = record {
        delivered = rw (empty, begun) refl;
        frontier = rw (at, begun) (omega arith);
        stashed = rw none_stashed tt;
      } in
      (Run-Tracks float run start).delivered
