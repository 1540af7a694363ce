-- ===== src/Peer/Utp/Connection/Writing.antt =====
-- src/peer/utp/connection.rs: `enqueue_send_block` and the queue of blocks.
use rustytorrent.Base.{
  ℕ, zero, suc, ◌+◌, ◌<◌, ◌≤◌, ◌≡◌, refl, sym, ap, ◌∙◌, ◌⊎◌, inl, inr, Bool, true, false, List, [],
  ◌∷◌, ◌++◌, append_assoc, append-nil, arith, length, All, length-append, of_if, is_empty, drop,
}
use rustytorrent.Peer.Utp.Ledbat.{push_back}
use rustytorrent.Peer.Utp.Connection.{Connection, enqueue_send_block, refuses_sends}
use rustytorrent.Peer.Utp.Connection.Sending.{join, CursorFits, unsent, IsQueued}

join-push_back : (bs : List (List ℕ)) (b : List ℕ) → join (push_back bs b) ≡ join bs ++ b
unfolding join push_back
join-push_back [] b = append-nil b
join-push_back (x ∷ bs) b =
    ap (λ xs. x ++ xs) (join-push_back bs b) ∙ sym (append_assoc x (join bs) b)

drop-append : (n : ℕ) (xs ys : List ℕ) → n ≤ length xs → drop n (xs ++ ys) ≡ drop n xs ++ ys
drop-append zero xs ys h = refl
drop-append (suc n) [] ys h = absurd (omega arith)
drop-append (suc n) (x ∷ xs) ys h = drop-append n xs ys (omega arith)

All-push_back :
    (bs : List (List ℕ)) (b : List ℕ)
    → All (λ block. 0 < length block) bs
    → 0 < length b
    → All (λ block. 0 < length block) (push_back bs b)
unfolding push_back
All-push_back [] b h p = (p, tt)
All-push_back (x ∷ bs) b h p = (h.0, All-push_back bs b h.1 p)

CursorFits-push_back :
    (head : ℕ) (bs : List (List ℕ)) (b : List ℕ)
    → CursorFits head bs
    → 0 < length b
    → CursorFits head (push_back bs b)
unfolding push_back
CursorFits-push_back head [] b h p = (omega arith, tt)
CursorFits-push_back head (x ∷ bs) b h p = (h.0, All-push_back bs b h.1 p)

cursor_le : (head : ℕ) (bs : List (List ℕ)) → CursorFits head bs → head ≤ length (join bs)
unfolding join
cursor_le head [] h = omega arith
cursor_le head (x ∷ bs) h = let inside = h.0 in omega (arith, length-append x (join bs))

nonempty : (b : List ℕ) → is_empty b ≡ false → 0 < length b
nonempty [] h = cc
nonempty (x ∷ b) h = omega arith

module _ {F : Type 0} where
  -- A block joins what waits to be sent, unless it is empty or the connection is closing, and then
  -- nothing changes; the queue stays well formed.
  pub enqueue_send_block-IsQueued :
      (c : Connection F) (block : List ℕ)
      → IsQueued c
      → let r = enqueue_send_block c block in
        IsQueued r.0
        × (((r.1 ≡ true) × (unsent r.0 ≡ unsent c ++ block)) ⊎ ((r.1 ≡ false) × (r.0 ≡ c)))
  unfolding enqueue_send_block unsent
  enqueue_send_block-IsQueued c block q =
      let P : Connection F × Bool → Type 0 = λ r.
        IsQueued r.0
        × (((r.1 ≡ true) × (unsent r.0 ≡ unsent c ++ block)) ⊎ ((r.1 ≡ false) × (r.0 ≡ c))) in
      let d = record c {
        out_len = c.out_len + length block;
        out_blocks = push_back c.out_blocks block;
      } in
      let joined : unsent d ≡ unsent c ++ block =
        ap (drop c.out_head) (join-push_back c.out_blocks block)
        ∙ drop-append c.out_head (join c.out_blocks) block (cursor_le _ c.out_blocks q.cursor) in
      let total : length (unsent d) ≡ length (unsent c ++ block) = ap length joined in
      of_if P (refuses_sends c.state) (c, false) _ (λ _. (q, inr (refl, refl)))
        λ _.
          of_if P (is_empty block) (c, false) (d, true) (λ _. (q, inr (refl, refl)))
            λ some. (
              record {
                cursor =
                    CursorFits-push_back c.out_head c.out_blocks block q.cursor
                      (nonempty block some);
                counted =
                    (let n = q.counted in omega (arith, total, n, length-append (unsent c) block));
              },
              inl (refl, joined),
            )
