-- ===== src/Peer/Message/Bitfield/Bits.antt =====
-- src/peer/message.rs: the bits of a byte and of the bytes of a bitfield.
use rustytorrent.Base.{
  ℕ, zero, suc, ◌+◌, ◌-◌, ◌/◌, ◌^◌, ◌<◌, ◌≡◌, refl, sym, ap₂, ◌∙◌, inl, inr, Bool, true, false, not,
  ◌&&◌, ◌||◌, arith, ltb, ◌==◌, ==_iff, if◌then◌else◌, Bool-cases, bit_or, bit_and,
}
use rustytorrent.Base.Bits.{every_under, every_under→holds}
use rustytorrent.Peer.Message.Bitfield.{test}

abbrev pub same : Bool → Bool → Bool
same true b = b
same false b = not b

pub same_eq : (a b : Bool) → same a b ≡ true → a ≡ b
same_eq true true h = refl
same_eq true false h = cc
same_eq false true h = cc
same_eq false false h = refl

and_true : (a b : Bool) → a && b ≡ true → (a ≡ true) × (b ≡ true)
and_true true b h = (refl, h)
and_true false b h = cc

-- Setting a bit sets it, and leaves the others.
abbrev pub with_bit : ℕ → ℕ → ℕ
with_bit b i = bit_or b (0x80 / 2 ^ i)

abbrev marks : ℕ → ℕ → ℕ → Bool
marks b i j = same (test (with_bit b i) j) (test b j || (i == j))

marks_table :
    every_under 256 (λ b. every_under 8 (λ i. ltb (with_bit b i) 256 && every_under 8 (marks b i)))
    ≡ true
unfolding every_under
marks_table = refl

pub with_bit_lem :
    (b i : ℕ)
    → b < 256
    → i < 8
    → (with_bit b i < 256) × ((j : ℕ) → j < 8 → test (with_bit b i) j ≡ test b j || (i == j))
with_bit_lem b i hb hi =
    let row =
      every_under→holds 256
        (λ b. every_under 8 (λ i. ltb (with_bit b i) 256 && every_under 8 (marks b i))) b
        marks_table hb in
    let cell =
      every_under→holds 8 (λ i. ltb (with_bit b i) 256 && every_under 8 (marks b i)) i row hi in
    let (below, each) = and_true (ltb (with_bit b i) 256) (every_under 8 (marks b i)) cell in
    (
      ltb→lt (with_bit b i) 256 below,
      λ j hj. same_eq _ _ (every_under→holds 8 (marks b i) j each hj),
    )
  where
    ltb→lt : (x y : ℕ) → ltb x y ≡ true → x < y
    ltb→lt x y h = ground arith

-- The last e bits are clear.
abbrev pub clear : ℕ → ℕ → Bool
clear b zero = true
clear b (suc e) = not (test b (7 - e)) && clear b e

abbrev masks : ℕ → ℕ → Bool
masks b e = same (bit_and b (2 ^ e - 1) == 0) (clear b e)

masks_table : every_under 256 (λ b. every_under 8 (masks b)) ≡ true
unfolding every_under
masks_table = refl

pub mask_lem : (b e : ℕ) → b < 256 → e < 8 → (bit_and b (2 ^ e - 1) == 0) ≡ clear b e
mask_lem b e hb he =
    let row = every_under→holds 256 (λ b. every_under 8 (masks b)) b masks_table hb in
    same_eq _ _ (every_under→holds 8 (masks b) e row he)

pub clear_of : (b e : ℕ) → ((k : ℕ) → k < e → test b (7 - k) ≡ false) → clear b e ≡ true
clear_of b zero h = refl
clear_of b (suc e) h = rw (h e (omega arith)) (clear_of b e (λ k hk. h k (omega arith)))

pub of_clear : (b e : ℕ) → clear b e ≡ true → (k : ℕ) → k < e → test b (7 - k) ≡ false
of_clear b zero h k hk = absurd (omega arith)
of_clear b (suc e) h k hk = elim (Bool-cases (k == e)) [
  | inl here ↦ let eq : k ≡ e = (==_iff k e).0 here in rw eq (not_true (test b (7 - e)) head)
  | inr there ↦ of_clear b e tail k (ground arith)
]
  where
    head : not (test b (7 - e)) ≡ true
    head = (and_true (not (test b (7 - e))) (clear b e) h).0

    tail : clear b e ≡ true
    tail = (and_true (not (test b (7 - e))) (clear b e) h).1

    not_true : (x : Bool) → not x ≡ true → x ≡ false
    not_true true h = cc
    not_true false h = refl

-- A byte is told by its bits.
abbrev weigh : (ℕ → Bool) → ℕ → ℕ
weigh bits zero = 0
weigh bits (suc k) = (if bits (7 - k) then 2 ^ k else 0) + weigh bits k

weigh_table : every_under 256 (λ b. weigh (test b) 8 == b) ≡ true
unfolding every_under
weigh_table = refl

weigh_ext : (f g : ℕ → Bool) (n : ℕ) → ((k : ℕ) → k < 8 → f k ≡ g k) → weigh f n ≡ weigh g n
weigh_ext f g zero h = refl
weigh_ext f g (suc n) h =
    ap₂ (λ b w. (if b then 2 ^ n else 0) + w) (h (7 - n) (omega arith)) (weigh_ext f g n h)

pub byte_ext : (a b : ℕ) → a < 256 → b < 256 → ((k : ℕ) → k < 8 → test a k ≡ test b k) → a ≡ b
byte_ext a b ha hb h =
    let value = λ (x : ℕ) (hx : x < 256).
      (==_iff (weigh (test x) 8) x).0
        (every_under→holds 256 (λ b. weigh (test b) 8 == b) x weigh_table hx) in
    sym (value a ha) ∙ (weigh_ext (test a) (test b) 8 h ∙ value b hb)
