-- ===== src/Peer/Mse/Rc4/Reference.antt =====
-- src/peer/mse/rc4.rs: the cipher and RC4 as it is published.
use Prim.Native.Nat.{bit_xor}
use rustytorrent.Base.{
  ℕ, zero, suc, ◌+◌, ◌%◌, ◌<◌, ◌≡◌, refl, sym, ap, ap₂, subst, ◌∙◌, inl, inr, Bool-cases, some,
  List, [], ◌∷◌, arith, ◌==◌, length, length-replicate, replicate, if◌then◌else◌,
}
use rustytorrent.Base.Bytes.{byte_at}
use rustytorrent.Peer.Mse.Rc4.{Rc4, swap, identity_from, schedule, new, step, process, skip}
use rustytorrent.Peer.Mse.Rc4.Stream.{
  IsPermutation, byte_at-swap, swap-IsPermutation, schedule-IsPermutation, identity-IsPermutation,
  step-IsPermutation, byte_at-identity_from,
}

-- RC4 with its S-box as a function of the place. `box` with the values at a and b exchanged:
abbrev pub exchanged : (ℕ → ℕ) → ℕ → ℕ → ℕ → ℕ
exchanged box a b k = if k == b then box a else if k == a then box b else box k

-- The S-box and j behind the first n rounds of the key's schedule.
unfoldable pub scheduled : List ℕ → ℕ → (ℕ → ℕ) × ℕ
scheduled key zero = (λ k. k, 0)
scheduled key (suc n) =
    let (box, j) = scheduled key n in
    let j' = (j + box n + byte_at key (n % length key)) % 256 in (exchanged box n j', j')

-- The S-box and j behind the first n rounds of the generator.
unfoldable pub generated : (ℕ → ℕ) → ℕ → (ℕ → ℕ) × ℕ
generated box zero = (box, 0)
generated box (suc n) =
    let (now, j) = generated box n in
    let i' = suc n % 256 in let j' = (j + now i') % 256 in (exchanged now i' j', j')

-- Byte number n of the key stream.
unfoldable pub key_stream : List ℕ → ℕ → ℕ
key_stream key n =
    let (box, j) = generated (scheduled key 256).0 (suc n) in
    box ((box (suc n % 256) + box j) % 256)

-- The bytes, from number n of the stream on, with the key stream added.
unfoldable pub enciphered : List ℕ → ℕ → List ℕ → List ℕ
enciphered key n [] = []
enciphered key n (byte ∷ rest) = bit_xor byte (key_stream key n) ∷ enciphered key (suc n) rest

-- The list has the function's values.
abbrev Agrees : List ℕ → (ℕ → ℕ) → Type 0
Agrees s box = (k : ℕ) → k < 256 → byte_at s k ≡ box k

swap-Agrees :
    (s : List ℕ) (box : ℕ → ℕ) (a b : ℕ)
    → IsPermutation s
    → a < 256
    → b < 256
    → Agrees s box
    → Agrees (swap s a b) (exchanged box a b)
swap-Agrees s box a b v ha hb h k hk =
    byte_at-swap s a b k (omega (arith, v.count)) (omega (arith, v.count))
    ∙ elim (Bool-cases (k == b)) [
      | inl at_b ↦ rw at_b (h a ha)
      | inr off_b ↦ elim (Bool-cases (k == a)) [
        | inl at_a ↦ rw (off_b, at_a) (h b hb)
        | inr off_a ↦ rw (off_b, off_a) (h k hk)
      ]
    ]

scheduled-suc :
    (key : List ℕ) (n : ℕ)
    → let (box, j) = scheduled key n in
      let j' = (j + box n + byte_at key (n % length key)) % 256 in
      scheduled key (n + 1) ≡ (exchanged box n j', j')
unfolding scheduled
scheduled-suc key n = let next : n + 1 ≡ suc n = omega arith in ap (scheduled key) next

scheduled_zero : (key : List ℕ) → scheduled key 0 ≡ (λ k. k, 0)
unfolding scheduled
scheduled_zero key = refl

schedule-Agrees :
    (left i j : ℕ) (key s : List ℕ)
    → i + left ≡ 256
    → IsPermutation s
    → Agrees s (scheduled key i).0
    → j ≡ (scheduled key i).1
    → Agrees (schedule left i j key s) (scheduled key 256).0
unfolding schedule
schedule-Agrees zero i j key s e v h hj =
    let done : i ≡ 256 = omega (arith, e) in λ k hk. h k hk ∙ ap (λ m. (scheduled key m).0 k) done
schedule-Agrees (suc left) i j key s e v h hj =
    let j' = (((j + byte_at s i) % 256) + byte_at key (i % length key)) % 256 in
    let small : i < 256 = omega (arith, e) in
    let next : j' ≡ (scheduled key (i + 1)).1 =
      omega (arith, hj, h i small) ∙ sym (ap (λ r. r.1) (scheduled-suc key i)) in
    schedule-Agrees left (i + 1) j' key (swap s i j') (omega (arith, e))
      (swap-IsPermutation s i j' small (omega arith) v)
      (λ k hk.
        swap-Agrees s (scheduled key i).0 i j' v small (omega arith) h k hk
        ∙ ap (λ b. exchanged (scheduled key i).0 i b k) (next ∙ ap (λ r. r.1) (scheduled-suc key i))
        ∙ sym (ap (λ r. r.0 k) (scheduled-suc key i)))
      next

-- The cipher behind n bytes of the stream.
record Matches (key : List ℕ) (n : ℕ) (c : Rc4) : Type 0 where
  box : IsPermutation c.s
  agrees : Agrees c.s (generated (scheduled key 256).0 n).0
  place : c.i ≡ n % 256
  j : c.j ≡ (generated (scheduled key 256).0 n).1

-- One round, for any S-box.
step-generated :
    (box : ℕ → ℕ) (n : ℕ) (c : Rc4)
    → IsPermutation c.s
    → Agrees c.s (generated box n).0
    → c.i ≡ n % 256
    → c.j ≡ (generated box n).1
    → let (next, j') = generated box (suc n) in
      Agrees (step c).0.s next
      × ((step c).0.i ≡ suc n % 256)
      × ((step c).0.j ≡ j')
      × ((step c).1 ≡ next ((next (suc n % 256) + next j') % 256))
unfolding step generated
step-generated box n c v h hi hj =
    let now = (generated box n).0 in
    let place : (c.i + 1) % 256 ≡ suc n % 256 = omega (arith, hi) in
    let at_place = h ((c.i + 1) % 256) (omega arith) ∙ ap now place in
    let j' = (c.j + byte_at c.s ((c.i + 1) % 256)) % 256 in
    let next_j : j' ≡ ((generated box n).1 + now (suc n % 256)) % 256 =
      omega (arith, hj, at_place) in
    let agrees : Agrees (step c).0.s (generated box (suc n)).0 = λ k hk.
      swap-Agrees c.s now ((c.i + 1) % 256) j' v (omega arith) (omega arith) h k hk
      ∙ ap (λ a. exchanged now a j' k) place
      ∙ ap (λ b. exchanged now (suc n % 256) b k) next_j in
    let next = (generated box (suc n)).0 in
    let at_i = agrees ((c.i + 1) % 256) (omega arith) ∙ ap next place in
    let at_j = agrees j' (omega arith) ∙ ap next next_j in
    (
      agrees,
      place,
      next_j,
      agrees _ (omega arith) ∙ ap (generated box (suc n)).0 (ap₂ (λ a b. (a + b) % 256) at_i at_j),
    )

step-Matches :
    (key : List ℕ) (n : ℕ) (c : Rc4)
    → Matches key n c
    → Matches key (suc n) (step c).0 × ((step c).1 ≡ key_stream key n)
unfolding key_stream
step-Matches key n c h =
    let (agrees, place, j, out) =
      step-generated (scheduled key 256).0 n c h.box h.agrees h.place h.j in
    (record { box = step-IsPermutation c h.box; agrees = agrees; place = place; j = j }, out)

process-Matches :
    (key : List ℕ) (n m : ℕ) (c : Rc4) (data_ : List ℕ)
    → n + length data_ ≡ m
    → Matches key n c
    → Matches key m (process c data_).0 × ((process c data_).1 ≡ enciphered key n data_)
unfolding process enciphered
process-Matches key n m c [] e h =
    let same : n ≡ m = omega (arith, e) in (subst (λ k. Matches key k c) same h, refl)
process-Matches key n m c (byte ∷ data_) e h =
    let (kept, out) = step-Matches key n c h in
    let (last, rest) = process-Matches key (suc n) m (step c).0 data_ (omega (arith, e)) kept in
    (last, rw (out, rest) refl)

new-Matches : (k : ℕ) (key : List ℕ) → (c : Rc4) × (new (k ∷ key) ≡ some c) × Matches (k ∷ key) 0 c
unfolding new generated
new-Matches k key =
    let start = scheduled_zero (k ∷ key) in
    (
      _,
      refl,
      record {
        box = schedule-IsPermutation 256 0 0 (k ∷ key) _ (omega arith) identity-IsPermutation;
        agrees =
            schedule-Agrees 256 0 0 (k ∷ key) (identity_from 256 0) refl identity-IsPermutation
              (λ m hm.
                byte_at-identity_from 256 0 m hm
                ∙ (let sum : 0 + m ≡ m = omega arith in sum)
                ∙ sym (ap (λ r. r.0 m) start))
              (sym (ap (λ r. r.1) start));
        place = refl;
        j = refl;
      },
    )

-- RC4 as it is published is `scheduled`, `generated` and `key_stream`: functions of the place in the
-- S-box and of the number of the round, without a state. For every key but the empty one, the
-- cipher of `new` is there, and whatever number n of bytes it skips and whatever data it then
-- processes, the result is the data with bytes n, n + 1, ... of the published key stream of that
-- key added by exclusive or.
pub process-enciphered :
    (k : ℕ) (key : List ℕ) (n : ℕ) (data_ : List ℕ)
    → (c : Rc4) × (new (k ∷ key) ≡ some c)
      × ((process (skip c n) data_).1 ≡ enciphered (k ∷ key) n data_)
unfolding skip
process-enciphered k key n data_ =
    let (c, made, fresh) = new-Matches k key in
    let count : 0 + length (replicate n 0) ≡ n = omega (arith, length-replicate {A = ℕ} n 0) in
    let (skipped, _) = process-Matches (k ∷ key) 0 n c (replicate n 0) count fresh in
    (c, made, (process-Matches (k ∷ key) n (n + length data_) (skip c n) data_ refl skipped).1)
