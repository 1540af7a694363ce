-- ===== src/Peer/Utp/Connection/Delivery.antt =====
-- src/peer/utp/connection.rs: what the application reads is the peer's stream, in order.
use rustytorrent.Base.{
  ℕ, zero, suc, ◌+◌, ◌-◌, ◌%◌, ◌^◌, ◌<◌, ◌≤◌, min, ◌≡◌, refl, sym, ap, ◌∙◌, inl, inr, false, ◌||◌,
  List, [], ◌∷◌, ◌++◌, append_assoc, some, arith, ltb, leb, ◌==◌, Bool-cases, length, All, take,
  drop, take-append-drop, ==_iff, ap₂, leb→le, of_test, of_if, of_option,
}
use rustytorrent.Base.Maps.{Map, lookup, remove, insert}
use rustytorrent.Peer.Utp.Packet.{Packet, Payload, as_slice}
use rustytorrent.Peer.Utp.Connection.{
  Connection, wrapping_sub, seq_le, recv_window_bytes, max_pending_in, take_received,
}
use rustytorrent.Peer.Utp.Connection.Incoming.{
  deliver_stashed, drain, drain_pending_in, deliver, stash, receive_data, contains_key,
}
use rustytorrent.Peer.Utp.Connection.Sequence.{
  seq_at, wrapping_add-seq_at, wrapping_sub-seq_at, seq_le-behind,
}

-- The bytes of the peer's first `n` DATA packets, where packet `k` carries `body k`.
unfoldable pub stream_of : (ℕ → List ℕ) → ℕ → List ℕ
stream_of body zero = []
stream_of body (suc n) = stream_of body n ++ body (suc n)

-- The next packet's bytes extend what was delivered.
extends :
    (body : ℕ → List ℕ) (taken buf bytes : List ℕ) (l k : ℕ)
    → taken ++ buf ≡ stream_of body l
    → bytes ≡ body k
    → k ≡ l + 1
    → taken ++ (buf ++ bytes) ≡ stream_of body k
unfolding stream_of
extends body taken buf bytes l zero whole same next = absurd (omega arith)
extends body taken buf bytes l (suc k) whole same next =
    let at : l ≡ k = omega arith in
    sym (append_assoc taken buf bytes)
    ∙ ap₂ (λ xs ys. xs ++ ys) (whole ∙ ap (stream_of body) at) same

-- Each stashed packet is the one of its position.
abbrev pub AreStashed : (ℕ → List ℕ) → Map Payload → Type 0
AreStashed body = All (λ e. as_slice e.1 ≡ body e.0)

remove-AreStashed :
    (body : ℕ → List ℕ) (k : ℕ) (m : Map Payload) → AreStashed body m → AreStashed body (remove k m)
unfolding remove
remove-AreStashed body k [] h = tt
remove-AreStashed body k ((j, p) ∷ m) h = elim (Bool-cases (j == k)) [
  | inl e ↦ rw (All, e) (remove-AreStashed body k m h.1)
  | inr e ↦ rw (All, e) (h.0, remove-AreStashed body k m h.1)
]

lookup-AreStashed :
    (body : ℕ → List ℕ) (k : ℕ) (m : Map Payload) (p : Payload)
    → AreStashed body m
    → lookup k m ≡ some p
    → as_slice p ≡ body k
unfolding lookup
lookup-AreStashed body k [] p h e = cc
lookup-AreStashed body k ((j, q) ∷ m) p h e = elim (Bool-cases (j == k)) [
  | inl hit ↦
      let same : j ≡ k = (==_iff j k).0 hit in
      let found : some q ≡ some p = rw hit at e in let mine = h.0 in cc
  | inr miss ↦ lookup-AreStashed body k m p h.1 (rw miss at e)
]

module _ {F : Type 0} (body : ℕ → List ℕ) (origin : ℕ) where
  -- What the application has read, with what waits for it, is the stream up to the frontier.
  pub record Tracks (taken : List ℕ) (c : Connection F) : Type 0 where
    pub delivered : taken ++ c.in_buf ≡ stream_of body c.peer_logical_acked
    pub frontier : c.peer_seq_nr_acked ≡ seq_at origin c.peer_logical_acked
    pub stashed : AreStashed body c.pending_in

  deliver_stashed-Tracks :
      (taken : List ℕ) (c : Connection F) (p : Payload)
      → Tracks taken c
      → lookup (c.peer_logical_acked + 1) c.pending_in ≡ some p
      → Tracks taken (deliver_stashed c p)
  unfolding deliver_stashed
  deliver_stashed-Tracks taken c p t e = record {
    delivered =
        extends body taken c.in_buf (as_slice p) _ _ t.delivered
          (lookup-AreStashed body _ c.pending_in p t.stashed e) refl;
    frontier = rw t.frontier (wrapping_add-seq_at origin c.peer_logical_acked);
    stashed = remove-AreStashed body _ c.pending_in t.stashed;
  }

  drain-Tracks :
      (fuel : ℕ) (taken : List ℕ) (c : Connection F) → Tracks taken c → Tracks taken (drain fuel c)
  unfolding drain
  drain-Tracks zero taken c t = t
  drain-Tracks (suc fuel) taken c t =
      of_test (Tracks taken) (ltb (length c.in_buf) recv_window_bytes) _ c
        (λ _.
          of_option (Tracks taken) (lookup (c.peer_logical_acked + 1) c.pending_in) c _ (λ _. t)
            λ p e.
              drain-Tracks fuel taken (deliver_stashed c p) (deliver_stashed-Tracks taken c p t e))
        (λ _. t)

  -- A packet of the peer's stream, close enough to the frontier for its sequence number to tell.
  pub record Belongs (c : Connection F) (p : Packet) : Type 0 where
    pub position : ℕ
    pub numbered : p.seq_nr ≡ seq_at origin position
    pub carries : as_slice p.payload ≡ body position
    pub not_far_behind : c.peer_logical_acked ≤ position + 32768
    pub not_far_ahead : position < c.peer_logical_acked + 32768
    pub countable : c.peer_logical_acked + 32768 < 2 ^ 64

  deliver-Tracks :
      (taken : List ℕ) (c : Connection F) (p : Packet)
      → Tracks taken c
      → (b : Belongs c p) → b.position ≡ c.peer_logical_acked + 1
      → Tracks taken (deliver c p)
  unfolding deliver
  deliver-Tracks taken c p t b next =
      let l : (c.peer_logical_acked + 1) % 2 ^ 64 ≡ c.peer_logical_acked + 1 =
        (let bound = b.countable in omega arith) in
      record {
        delivered =
            extends body taken c.in_buf (as_slice p.payload) _ _ t.delivered
              (b.carries ∙ ap body (next ∙ sym l)) l;
        frontier = b.numbered ∙ ap (seq_at origin) (next ∙ sym l);
        stashed = t.stashed;
      }

  stash-Tracks :
      (taken : List ℕ) (c : Connection F) (k : ℕ) (p : Payload)
      → Tracks taken c
      → as_slice p ≡ body k
      → Tracks taken (stash c k p)
  unfolding stash insert
  stash-Tracks taken c k p t e =
      of_if (Tracks taken) (contains_key k c.pending_in || ltb (length c.pending_in) max_pending_in)
        (record c { pending_in = insert k p c.pending_in }) c
        (λ _. record {
          delivered = t.delivered;
          frontier = t.frontier;
          stashed = (e, remove-AreStashed body k c.pending_in t.stashed);
        })
        (λ _. t)

  -- What `seq_le` says is new lies ahead of the frontier.
  position-Ahead :
      (taken : List ℕ) (c : Connection F) (p : Packet)
      → Tracks taken c
      → (b : Belongs c p) → seq_le p.seq_nr c.peer_seq_nr_acked ≡ false
      → (c.peer_logical_acked < b.position)
        × (wrapping_sub p.seq_nr c.peer_seq_nr_acked ≡ b.position - c.peer_logical_acked)
  position-Ahead taken c p t b new = elim (Bool-cases (leb b.position c.peer_logical_acked)) [
    | inl late ↦
        let late_le = leb→le _ _ late in
        let behind =
          seq_le-behind origin b.position c.peer_logical_acked late_le b.not_far_behind in
        let old = rw (b.numbered, t.frontier) at new in cc
    | inr early ↦
        let ahead : c.peer_logical_acked < b.position = ground arith in
        (
          ahead,
          rw (b.numbered, t.frontier)
              (wrapping_sub-seq_at origin b.position c.peer_logical_acked (omega arith)
                (let far = b.not_far_ahead in omega arith)),
        )
  ]

  -- A DATA packet of the stream, new, early or late, keeps the delivery in step.
  pub receive_data-Tracks :
      (taken : List ℕ) (c : Connection F) (p : Packet)
      → Tracks taken c
      → Belongs c p
      → Tracks taken (receive_data c p)
  unfolding receive_data drain_pending_in
  receive_data-Tracks taken c p t b =
      let dist = wrapping_sub p.seq_nr c.peer_seq_nr_acked in
      of_if (Tracks taken) (seq_le p.seq_nr c.peer_seq_nr_acked) c _ (λ _. t)
        λ new.
          let ahead = position-Ahead taken c p t b new in
          of_if (Tracks taken) (dist == 1) _ _
            (λ next.
              let one : dist ≡ 1 = (==_iff dist 1).0 next in
              let at : b.position ≡ c.peer_logical_acked + 1 = omega (arith, one, ahead) in
              of_if (Tracks taken) (leb recv_window_bytes (length c.in_buf)) c
                (drain_pending_in (deliver c p)) (λ _. t)
                λ room. drain-Tracks _ taken (deliver c p) (deliver-Tracks taken c p t b at))
            λ early.
              let at : b.position ≡ c.peer_logical_acked + dist = omega (arith, ahead) in
              stash-Tracks taken c _ p.payload t (b.carries ∙ ap body at)

  pub take_received-Tracks :
      (taken : List ℕ) (c : Connection F) (limit : ℕ)
      → Tracks taken c
      → Tracks (taken ++ (take_received c limit).1) (take_received c limit).0
  unfolding take_received
  take_received-Tracks taken c limit t =
      let n = min (length c.in_buf) limit in
      record {
        delivered =
            append_assoc taken (take n c.in_buf) (drop n c.in_buf)
            ∙ ap (λ xs. taken ++ xs) (take-append-drop n c.in_buf)
            ∙ t.delivered;
        frontier = t.frontier;
        stashed = t.stashed;
      }
