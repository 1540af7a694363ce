-- ===== src/Peer/Mse/Rc4.antt =====
-- src/peer/mse/rc4.rs: the RC4 key stream.
-- A `u8` is a natural number below 256, and `wrapping_add` is the sum `% 256`.
pub mod Reference
pub mod Stream
use Prim.Native.Nat.{bit_xor}
use rustytorrent.Base.{
  ℕ, zero, suc, ◌+◌, ◌%◌, Option, none, some, List, [], ◌∷◌, length, replicate, set,
}
use rustytorrent.Base.Bytes.{byte_at}

pub record Rc4 : Type 0 where
  pub s : List ℕ
  pub i : ℕ
  pub j : ℕ

-- `s.swap(a, b)`.
unfoldable pub swap : List ℕ → ℕ → ℕ → List ℕ
swap s a b = set (set s a (byte_at s b)) b (byte_at s a)

-- The S-box before the key is mixed in: 0, 1, ... from number i on.
unfoldable pub identity_from : ℕ → ℕ → List ℕ
identity_from zero i = []
identity_from (suc left) i = i ∷ identity_from left (i + 1)

-- The loop of `new`, from i on.
unfoldable pub schedule : ℕ → ℕ → ℕ → List ℕ → List ℕ → List ℕ
unfolding swap
schedule zero i j key s = s
schedule (suc left) i j key s =
    let j' = (((j + byte_at s i) % 256) + byte_at key (i % length key)) % 256 in
    schedule left (i + 1) j' key (swap s i j')

-- `new` panics on an empty key.
unfoldable pub new : List ℕ → Option Rc4
unfolding identity_from schedule
new [] = none
new (k ∷ key) = some (record { s = schedule 256 0 0 (k ∷ key) (identity_from 256 0); i = 0; j = 0 })

-- One round of `process`: the next state, and the byte of the key stream.
unfoldable pub step : Rc4 → Rc4 × ℕ
unfolding swap
step c =
    let i' = (c.i + 1) % 256 in
    let j' = (c.j + byte_at c.s i') % 256 in
    let s' = swap c.s i' j' in
    (record { s = s'; i = i'; j = j' }, byte_at s' ((byte_at s' i' + byte_at s' j') % 256))

-- The cipher as it is left, and the data.
unfoldable pub process : Rc4 → List ℕ → Rc4 × List ℕ
process c [] = (c, [])
process c (byte ∷ data_) =
    let round = step c in
    let rest = process round.0 data_ in (rest.0, bit_xor byte round.1 ∷ rest.1)

unfoldable pub skip : Rc4 → ℕ → Rc4
unfolding process
skip c n = (process c (replicate n 0)).0
