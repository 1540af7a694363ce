-- ===== src/Peer/Utp/Connection/ReturnPath.antt =====
-- src/peer/utp/connection.rs: the accept token, which a peer proves that it has seen.
use rustytorrent.Base.{
  ℕ, ◌+◌, ◌-◌, ◌%◌, ◌^◌, ◌<◌, ◌≤◌, ◌≡◌, ◌↔◌, refl, sym, ◌∙◌, ◌⊎◌, inl, inr, true, false, ◌&&◌, some,
  arith, leb, leb→le, Bool-cases,
}
use rustytorrent.Peer.Utp.Packet.{Packet}
use rustytorrent.Peer.Utp.Connection.{Connection, wrapping_sub, seq_le, is_syn}
use rustytorrent.Peer.Utp.Connection.Incoming.{confirms, confirm}

leb_and : (a b c d : ℕ) → (leb a b && leb c d ≡ true) ↔ ((a ≤ b) × (c ≤ d))
leb_and a b c d = ground arith

-- How far an acknowledgement lies behind `token - 1`.
abbrev pub past_baseline : ℕ → ℕ → ℕ
past_baseline token ack = (ack + (2 ^ 16 + 1 - token)) % 2 ^ 16

within_baseline :
    (token ack : ℕ)
    → token < 65536
    → ack < 65536
    → wrapping_sub ack (wrapping_sub token 1) ≡ past_baseline token ack
unfolding wrapping_sub
within_baseline token ack t a = omega arith

below_newest :
    (token next ack sent : ℕ)
    → token < 65536
    → ack < 65536
    → next ≡ (token + sent) % 65536
    → sent < 32768
    → wrapping_sub (wrapping_sub next 1) ack ≡ (sent + (65536 - past_baseline token ack)) % 65536
unfolding wrapping_sub
below_newest token next ack sent t a n s = omega arith

-- The two comparisons of the window, in these distances.
window_iff :
    (token next ack sent : ℕ)
    → token < 65536
    → ack < 65536
    → next ≡ (token + sent) % 65536
    → sent < 32768
    → (seq_le (wrapping_sub token 1) ack && seq_le ack (wrapping_sub next 1) ≡ true)
      ↔ ((past_baseline token ack ≤ sent) ⊎ ((sent ≡ 0) × (past_baseline token ack ≡ 32768)))
unfolding seq_le
window_iff token next ack sent t a n s =
    rw (within_baseline token ack t a, below_newest token next ack sent t a n s)
      (decides (past_baseline token ack) sent (omega arith) s)
  where
    decides :
        (x sent : ℕ)
        → x < 65536
        → sent < 32768
        → (leb x 32768 && leb ((sent + (65536 - x)) % 65536) 32768 ≡ true)
          ↔ ((x ≤ sent) ⊎ ((sent ≡ 0) × (x ≡ 32768)))
    decides x sent b s =
        let tests = leb_and x 32768 ((sent + (65536 - x)) % 65536) 32768 in
        (
          (λ h.
              let le = tests.0 h in
              elim (Bool-cases (leb x sent)) [
                | inl low ↦ inl (leb→le x sent low)
                | inr high ↦ let above : sent < x = ground arith in inr (omega arith, omega arith)
              ]),
          (λ h. elim h [
            | inl low ↦ tests.1 (omega arith, omega arith)
            | inr rare ↦ tests.1 (omega arith, omega arith)
          ]),
        )

module _ {F : Type 0} where
  flagged :
      (c : Connection F) (p : Packet)
      → c.return_path_confirmed ≡ false
      → (confirm c p).return_path_confirmed ≡ true
      → confirms c p ≡ true
  unfolding confirm
  flagged c p ec h = elim (Bool-cases (confirms c p)) [
    | inl e ↦ e
    | inr e ↦ let still = rw e at h in cc
  ]

  flags :
      (c : Connection F) (p : Packet)
      → confirms c p ≡ true
      → (confirm c p).return_path_confirmed ≡ true
  unfolding confirm
  flags c p e = rw e

  -- For a receiver that has sent `sent` packets since its STATE, fewer than 2 ^ 15, a packet that
  -- is no SYN confirms the return path exactly if its ack is one of the `sent + 1` numbers from
  -- `token - 1` on, or, before anything was sent, the number opposite to the first.
  pub confirm_iff :
      (c : Connection F) (p : Packet) (token sent : ℕ)
      → c.accept_token ≡ some token
      → c.return_path_confirmed ≡ false
      → is_syn p.packet_type ≡ false
      → token < 65536
      → p.ack_nr < 65536
      → c.next_seq_nr ≡ (token + sent) % 65536
      → sent < 32768
      → ((confirm c p).return_path_confirmed ≡ true) ↔ (
          (past_baseline token p.ack_nr ≤ sent)
          ⊎ ((sent ≡ 0) × (past_baseline token p.ack_nr ≡ 32768)))
  unfolding confirm confirms
  confirm_iff c p token sent et ec ep t a n s =
      let window = window_iff token c.next_seq_nr p.ack_nr sent t a n s in
      let step : confirms c p ≡ (
          seq_le (wrapping_sub token 1) p.ack_nr
          && seq_le p.ack_nr (wrapping_sub c.next_seq_nr 1)) =
        rw (et, ec, ep) refl in
      ((λ h. window.0 (sym step ∙ flagged c p ec h)), (λ h. flags c p (step ∙ window.1 h)))
