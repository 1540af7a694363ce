-- ===== src/Piece/Row/Slices.antt =====
-- src/piece/manager.rs: what a slice of the assembly buffer holds after a block is copied into it.
use rustytorrent.Base.{
  ℕ, zero, suc, ◌+◌, ◌≤◌, ◌≡◌, refl, ap, List, [], ◌∷◌, ◌++◌, arith, length, take, drop,
  take-length_append,
}
use rustytorrent.Piece.Row.{write_at}

-- `&buf[begin..begin + len]`.
abbrev pub slice : List ℕ → ℕ → ℕ → List ℕ
slice buf begin len = take len (drop begin buf)

write_at-suc :
    (x : ℕ) (buf : List ℕ) (begin : ℕ) (block : List ℕ)
    → write_at (x ∷ buf) (suc begin) block ≡ x ∷ write_at buf begin block
unfolding write_at
write_at-suc x buf begin block =
    ap (λ n. x ∷ (take begin buf ++ (block ++ drop n (x ∷ buf))))
      (let e : suc begin + length block ≡ suc (begin + length block) = omega arith in e)

write_at-zero : (buf block : List ℕ) → write_at buf 0 block ≡ block ++ drop (length block) buf
unfolding write_at
write_at-zero buf block =
    ap (λ n. block ++ drop n buf) (let e : 0 + length block ≡ length block = omega arith in e)

pub slice-write_at_self :
    (buf : List ℕ) (begin : ℕ) (block : List ℕ)
    → begin ≤ length buf
    → slice (write_at buf begin block) begin (length block) ≡ block
slice-write_at_self buf zero block h =
    rw (write_at-zero buf block) (take-length_append block (drop (length block) buf))
slice-write_at_self [] (suc begin) block h = absurd (omega arith)
slice-write_at_self (x ∷ buf) (suc begin) block h =
    rw (write_at-suc x buf begin block) (slice-write_at_self buf begin block (omega arith))

take-write_at :
    (buf : List ℕ) (begin : ℕ) (block : List ℕ) (n : ℕ)
    → n ≤ begin
    → begin ≤ length buf
    → take n (write_at buf begin block) ≡ take n buf
take-write_at buf begin block zero h l = refl
take-write_at buf zero block (suc n) h l = absurd (omega arith)
take-write_at [] (suc begin) block (suc n) h l = absurd (omega arith)
take-write_at (x ∷ buf) (suc begin) block (suc n) h l =
    rw (write_at-suc x buf begin block)
      (ap (◌∷◌ x) (take-write_at buf begin block n (omega arith) (omega arith)))

pub slice-write_at_before :
    (buf : List ℕ) (begin : ℕ) (block : List ℕ) (k n : ℕ)
    → k + n ≤ begin
    → begin ≤ length buf
    → slice (write_at buf begin block) k n ≡ slice buf k n
slice-write_at_before buf begin block zero n h l = take-write_at buf begin block n (omega arith) l
slice-write_at_before buf zero block (suc k) n h l = absurd (omega arith)
slice-write_at_before [] (suc begin) block (suc k) n h l = absurd (omega arith)
slice-write_at_before (x ∷ buf) (suc begin) block (suc k) n h l =
    rw (write_at-suc x buf begin block)
      (slice-write_at_before buf begin block k n (omega arith) (omega arith))

drop-append_drop :
    (block buf : List ℕ) (k : ℕ)
    → length block ≤ k
    → length block ≤ length buf
    → drop k (block ++ drop (length block) buf) ≡ drop k buf
drop-append_drop [] buf k h l = refl
drop-append_drop (y ∷ block) buf zero h l = absurd (omega arith)
drop-append_drop (y ∷ block) [] (suc k) h l = absurd (omega arith)
drop-append_drop (y ∷ block) (x ∷ buf) (suc k) h l =
    drop-append_drop block buf k (omega arith) (omega arith)

pub drop-write_at :
    (buf : List ℕ) (begin : ℕ) (block : List ℕ) (k : ℕ)
    → begin + length block ≤ k
    → begin + length block ≤ length buf
    → drop k (write_at buf begin block) ≡ drop k buf
drop-write_at buf zero block k h l =
    rw (write_at-zero buf block) (drop-append_drop block buf k (omega arith) (omega arith))
drop-write_at [] (suc begin) block k h l = absurd (omega arith)
drop-write_at (x ∷ buf) (suc begin) block zero h l = absurd (omega arith)
drop-write_at (x ∷ buf) (suc begin) block (suc k) h l =
    rw (write_at-suc x buf begin block)
      (drop-write_at buf begin block k (omega arith) (omega arith))
