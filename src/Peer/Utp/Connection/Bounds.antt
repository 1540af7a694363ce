-- ===== src/Peer/Utp/Connection/Bounds.antt =====
-- src/peer/utp/connection.rs: what a peer can make a connection hold.
use rustytorrent.Base.{
  ℕ, zero, suc, ◌+◌, ◌<◌, ◌≤◌, ◌≡◌, subst, Option-cases, inl, inr, true, ◌||◌, [], ◌∷◌, some, arith,
  ltb, leb, ◌==◌, Bool-cases, ltb→lt, length, All, length-append, of_test, of_if, of_option,
}
use rustytorrent.Base.Maps.{Map, lookup, remove, insert}
use rustytorrent.Peer.Utp.Packet.{Packet, Payload, as_slice}
use rustytorrent.Peer.Utp.Connection.{
  Connection, seq_le, wrapping_sub, recv_window_bytes, max_pending_in,
}
use rustytorrent.Peer.Utp.Connection.Incoming.{
  deliver_stashed, drain, drain_pending_in, deliver, stash, contains_key, receive_data,
}

-- No stashed packet is longer than `m`.
abbrev pub AreShort : ℕ → Map Payload → Type 0
AreShort m = All (λ e. length (as_slice e.1) ≤ m)

remove-AreShort : (m k : ℕ) (map : Map Payload) → AreShort m map → AreShort m (remove k map)
unfolding remove
remove-AreShort m k [] h = tt
remove-AreShort m k ((j, p) ∷ rest) h = elim (Bool-cases (j == k)) [
  | inl e ↦ rw (All, e) (remove-AreShort m k rest h.1)
  | inr e ↦ rw (All, e) (h.0, remove-AreShort m k rest h.1)
]

lookup-IsShort :
    (m k : ℕ) (map : Map Payload) (p : Payload)
    → AreShort m map
    → lookup k map ≡ some p
    → length (as_slice p) ≤ m
unfolding lookup
lookup-IsShort m k [] p h e = cc
lookup-IsShort m k ((j, q) ∷ rest) p h e = elim (Bool-cases (j == k)) [
  | inl hit ↦
      let found : some q ≡ some p = rw hit at e in
      let same : q ≡ p = cc in subst (λ r. length (as_slice r) ≤ m) same h.0
  | inr miss ↦ lookup-IsShort m k rest p h.1 (rw miss at e)
]

length-remove : (k : ℕ) (map : Map Payload) → length (remove k map) ≤ length map
unfolding remove
length-remove k [] = omega arith
length-remove k ((j, p) ∷ rest) =
    let below = length-remove k rest in
    of_if (λ m. length m ≤ suc (length rest)) (j == k) (remove k rest) ((j, p) ∷ remove k rest)
      (λ _. omega arith) (λ _. omega arith)

pub length-remove_found :
    (k : ℕ) (map : Map Payload) (p : Payload)
    → lookup k map ≡ some p
    → length (remove k map) < length map
unfolding remove lookup
length-remove_found k [] p e = cc
length-remove_found k ((j, q) ∷ rest) p e = elim (Bool-cases (j == k)) [
  | inl hit ↦ rw hit (let below = length-remove k rest in omega arith)
  | inr miss ↦ rw miss (let below = length-remove_found k rest p (rw miss at e) in omega arith)
]

length-remove_key :
    (k : ℕ) (map : Map Payload) → contains_key k map ≡ true → length (remove k map) < length map
unfolding contains_key
length-remove_key k map h = elim (Option-cases (lookup k map)) [
  | inl e ↦ let bad = rw (contains_key, e) at h in cc
  | inr (p, e) ↦ length-remove_found k map p e
]

module _ {F : Type 0} (m : ℕ) where
  -- The peer's packets are of `m` bytes at most.
  pub record IsBounded (c : Connection F) : Type 0 where
    pub buffered : length c.in_buf < recv_window_bytes + m
    pub stashed_count : length c.pending_in ≤ max_pending_in
    pub stashed_short : AreShort m c.pending_in

  deliver_stashed-IsBounded :
      (c : Connection F) (p : Payload)
      → IsBounded c
      → length c.in_buf < recv_window_bytes
      → lookup (c.peer_logical_acked + 1) c.pending_in ≡ some p
      → IsBounded (deliver_stashed c p)
  unfolding deliver_stashed
  deliver_stashed-IsBounded c p h room e =
      let k = c.peer_logical_acked + 1 in
      record {
        buffered =
            (let short = lookup-IsShort m k c.pending_in p h.stashed_short e in
              omega (arith, length-append c.in_buf (as_slice p)));
        stashed_count =
            (let fewer = length-remove k c.pending_in in
              let count = h.stashed_count in omega arith);
        stashed_short = remove-AreShort m k c.pending_in h.stashed_short;
      }

  drain-IsBounded : (fuel : ℕ) (c : Connection F) → IsBounded c → IsBounded (drain fuel c)
  unfolding drain
  drain-IsBounded zero c h = h
  drain-IsBounded (suc fuel) c h =
      of_test IsBounded (ltb (length c.in_buf) recv_window_bytes) _ c
        (λ room.
          of_option IsBounded (lookup (c.peer_logical_acked + 1) c.pending_in) c _ (λ _. h)
            λ p e.
              drain-IsBounded fuel (deliver_stashed c p)
                (deliver_stashed-IsBounded c p h (ltb→lt _ _ room) e))
        (λ _. h)

  count_fits :
      (c : Connection F) (k : ℕ)
      → IsBounded c
      → (contains_key k c.pending_in || ltb (length c.pending_in) max_pending_in) ≡ true
      → suc (length (remove k c.pending_in)) ≤ max_pending_in
  count_fits c k h fits =
      let count = h.stashed_count in
      let fewer = length-remove k c.pending_in in
      elim (Bool-cases (contains_key k c.pending_in)) [
        | inl known ↦ let less = length-remove_key k c.pending_in known in omega arith
        | inr unknown ↦ let room = ltb→lt _ _ (rw unknown at fits) in omega arith
      ]

  stash-IsBounded :
      (c : Connection F) (k : ℕ) (p : Payload)
      → IsBounded c
      → length (as_slice p) ≤ m
      → IsBounded (stash c k p)
  unfolding stash insert
  stash-IsBounded c k p h short =
      of_if IsBounded (contains_key k c.pending_in || ltb (length c.pending_in) max_pending_in)
        (record c { pending_in = insert k p c.pending_in }) c
        (λ fits. record {
          buffered = h.buffered;
          stashed_count = count_fits c k h fits;
          stashed_short = (short, remove-AreShort m k c.pending_in h.stashed_short);
        })
        (λ _. h)

  pub receive_data-IsBounded :
      (c : Connection F) (p : Packet)
      → IsBounded c
      → length (as_slice p.payload) ≤ m
      → IsBounded (receive_data c p)
  unfolding receive_data drain_pending_in deliver
  receive_data-IsBounded c p h short =
      let dist = wrapping_sub p.seq_nr c.peer_seq_nr_acked in
      of_if IsBounded (seq_le p.seq_nr c.peer_seq_nr_acked) c _ (λ _. h)
        λ _.
          of_if IsBounded (dist == 1) _ _
            (λ _.
              of_if IsBounded (leb recv_window_bytes (length c.in_buf)) c
                (drain_pending_in (deliver c p)) (λ _. h)
                λ room.
                  let below : length c.in_buf < recv_window_bytes = ground arith in
                  drain-IsBounded _ (deliver c p) (record {
                    buffered = omega (arith, length-append c.in_buf (as_slice p.payload));
                    stashed_count = h.stashed_count;
                    stashed_short = h.stashed_short;
                  }))
            (λ _. stash-IsBounded c _ p.payload h short)
