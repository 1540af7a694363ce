-- ===== src/Peer/Utp/Connection/Sequence.antt =====
-- src/peer/utp/connection.rs: the arithmetic of sequence numbers, against positions that do not wrap.
use rustytorrent.Base.{ℕ, ◌+◌, ◌-◌, ◌%◌, ◌^◌, ◌<◌, ◌≤◌, ◌≡◌, true, false, arith}
use rustytorrent.Peer.Utp.Connection.{wrapping_add, wrapping_sub, seq_le}

-- The sequence number at a position of a stream that starts behind `origin`.
abbrev pub seq_at : ℕ → ℕ → ℕ
seq_at origin k = (origin + k) % 2 ^ 16

pub wrapping_add-seq_at : (origin k : ℕ) → wrapping_add (seq_at origin k) 1 ≡ seq_at origin (k + 1)
unfolding wrapping_add
wrapping_add-seq_at origin k = omega arith

-- Ahead of the frontier the distance is the true one, as long as it is below 2 ^ 16.
pub wrapping_sub-seq_at :
    (origin k l : ℕ)
    → l ≤ k
    → k < l + 65536
    → wrapping_sub (seq_at origin k) (seq_at origin l) ≡ k - l
unfolding wrapping_sub
wrapping_sub-seq_at origin k l h b = omega arith

pub seq_le-behind :
    (origin k l : ℕ) → k ≤ l → l ≤ k + 32768 → seq_le (seq_at origin k) (seq_at origin l) ≡ true
unfolding seq_le
seq_le-behind origin k l h b =
    let d = wrapping_sub-seq_at origin l k h (omega arith) in rw d (ground arith)

pub seq_le-ahead :
    (origin k l : ℕ) → l < k → k < l + 32768 → seq_le (seq_at origin k) (seq_at origin l) ≡ false
unfolding seq_le
seq_le-ahead origin k l h b =
    let d : wrapping_sub (seq_at origin l) (seq_at origin k) ≡ 65536 + l - k =
      unfold wrapping_sub in omega arith in
    rw d (ground arith)
