-- ===== src/Peer/Utp/Connection/Sending.antt =====
-- src/peer/utp/connection.rs: the packets that are sent carry the bytes that were written.
use rustytorrent.Base.{
  ℕ, zero, suc, ◌+◌, ◌-◌, ◌<◌, ◌≤◌, min, ◌≡◌, refl, ap, ◌∙◌, List, [], ◌∷◌, ◌++◌, arith, leb,
  leb→le, length, All, length-append, length-take, length-drop, take, drop, drop-length_append,
  of_if,
}
use rustytorrent.Peer.Utp.Packet.{Packet, Payload, as_slice}
use rustytorrent.Peer.Utp.Connection.{Connection, wrapping_add, max_data_payload}
use rustytorrent.Peer.Utp.Connection.Outgoing.{carve}

unfoldable pub join : List (List ℕ) → List ℕ
join [] = []
join (b ∷ bs) = b ++ join bs

-- The cursor stands inside the front block, and no block is empty.
abbrev pub CursorFits : ℕ → List (List ℕ) → Type 0
CursorFits head [] = head ≡ 0
CursorFits head (b ∷ bs) = (head < length b) × All (λ block. 0 < length block) bs

-- The bytes that a list of packets carries.
unfoldable pub carried : List Packet → List ℕ
carried [] = []
carried (p ∷ ps) = as_slice p.payload ++ carried ps

-- The packets are numbered from `seq` on and carry 1 to `max_data_payload` bytes each.
abbrev pub AreNumbered : ℕ → List Packet → Type 0
AreNumbered seq [] = Unit
AreNumbered seq (p ∷ ps) =
    (p.seq_nr ≡ seq)
    × (0 < length (as_slice p.payload))
    × (length (as_slice p.payload) ≤ max_data_payload)
    × AreNumbered (wrapping_add seq 1) ps

-- The slice at the cursor, and what stands behind it.
split_front :
    (b rest : List ℕ) (head size stop : ℕ)
    → stop ≡ head + size
    → stop ≤ length b
    → drop head (b ++ rest) ≡ take size (drop head b) ++ drop stop (b ++ rest)
split_front [] rest zero zero zero e h = refl
split_front [] rest zero (suc size) stop e h = absurd (omega arith)
split_front [] rest (suc head) size stop e h = absurd (omega arith)
split_front [] rest head size (suc stop) e h = absurd (omega arith)
split_front (x ∷ b) rest zero zero zero e h = refl
split_front (x ∷ b) rest zero zero (suc stop) e h = absurd (omega arith)
split_front (x ∷ b) rest (suc head) size zero e h = absurd (omega arith)
split_front (x ∷ b) rest zero (suc size) zero e h = absurd (omega arith)
split_front (x ∷ b) rest zero (suc size) (suc stop) e h =
    ap (λ xs. x ∷ xs) (split_front b rest zero size stop (omega arith) (omega arith))
split_front (x ∷ b) rest (suc head) size (suc stop) e h =
    split_front b rest head size stop (omega arith) (omega arith)

CursorFits-start : (bs : List (List ℕ)) → All (λ block. 0 < length block) bs → CursorFits 0 bs
CursorFits-start [] h = refl
CursorFits-start (b ∷ bs) h = h

-- What is left of a count when a part of a list is taken off.
count_left :
    (xs ys zs : List ℕ) (n size left : ℕ)
    → n ≡ length xs
    → xs ≡ ys ++ zs
    → length ys ≡ size
    → left ≡ n - size
    → left ≡ length zs
count_left xs ys zs n size left en e es el =
    let total : length xs ≡ length (ys ++ zs) = ap length e in
    omega (arith, total, length-append ys zs)

module _ {F : Type 0} where
  -- What waits to be sent.
  unfoldable pub unsent : Connection F → List ℕ
  unfolding join
  unsent c = drop c.out_head (join c.out_blocks)

  pub record IsQueued (c : Connection F) : Type 0 where
    pub cursor : CursorFits c.out_head c.out_blocks
    pub counted : c.out_len ≡ length (unsent c)

  -- The block at the front is cut.
  pub record Carves (c d : Connection F) (p : Payload) : Type 0 where
    pub split : unsent c ≡ as_slice p ++ unsent d
    pub queued : IsQueued d
    pub some_bytes : 0 < length (as_slice p)
    pub few_bytes : length (as_slice p) ≤ max_data_payload
    pub same_seq : d.next_seq_nr ≡ c.next_seq_nr
    pub same_flight : d.in_flight ≡ c.in_flight

  pub carve-Carves :
      (c : Connection F) (block : List ℕ) (blocks : List (List ℕ))
      → c.out_blocks ≡ block ∷ blocks
      → IsQueued c
      → Carves c (carve c block blocks).0 (carve c block blocks).1
  unfolding carve as_slice unsent join
  carve-Carves c block blocks e q =
      let size = min (length block - c.out_head) max_data_payload in
      let head = c.out_head + size in
      let left = c.out_len - size in
      let cursor : CursorFits c.out_head (block ∷ blocks) = rw e at q.cursor in
      let inside = cursor.0 in
      let sliced : length (take size (drop c.out_head block)) ≡ size =
        omega (arith, length-take size (drop c.out_head block), length-drop c.out_head block) in
      let split = split_front block (join blocks) c.out_head size head refl (omega arith) in
      of_if (λ d. Carves c d (record { buf = block; start = c.out_head; len = size }))
        (leb (length block) head) (record c { out_len = left; out_blocks = blocks; out_head = 0 })
        (record c { out_len = left; out_head = head })
        (λ done.
          let last : head ≡ length block = (let reached = leb→le _ _ done in omega arith) in
          let rest : drop head (block ++ join blocks) ≡ join blocks =
            ap (λ n. drop n (block ++ join blocks)) last ∙ drop-length_append block (join blocks) in
          let whole : unsent c ≡ take size (drop c.out_head block) ++ join blocks =
            rw e (split ∙ ap (λ xs. take size (drop c.out_head block) ++ xs) rest) in
          record {
            split = whole;
            queued = record {
              cursor = CursorFits-start blocks cursor.1;
              counted = count_left _ _ _ _ size left q.counted whole sliced refl;
            };
            some_bytes = omega (arith, sliced);
            few_bytes = omega (arith, sliced);
            same_seq = refl;
            same_flight = refl;
          })
        (λ more.
          let inner : head < length block = ground arith in
          let d = record c { out_len = left; out_head = head } in
          let whole : unsent c ≡ take size (drop c.out_head block) ++ unsent d = rw e split in
          record {
            split = whole;
            queued = record {
              cursor = rw e (inner, cursor.1);
              counted = count_left _ _ _ _ size left q.counted whole sliced refl;
            };
            some_bytes = omega (arith, sliced);
            few_bytes = omega (arith, sliced);
            same_seq = refl;
            same_flight = refl;
          })
