-- ===== src/Piece/Row/Requests.antt =====
-- src/piece/manager.rs: which block `reserve_block` hands out, and when it has none.
use rustytorrent.Base.{
  ℕ, zero, suc, ◌+◌, ◌*◌, ◌/◌, ◌%◌, ◌≤◌, ◌<◌, ◌≡◌, ◌≢◌, ◌⊎◌, refl, sym, ap, subst, ◌∙◌, inl, inr,
  Bool-cases, Bool, true, false, not, ◌&&◌, none, some, arith, length, set, ltb, ◌==◌, ==_iff,
  if◌then◌else◌,
}
use rustytorrent.Peer.Message.{block_size}
use rustytorrent.Piece.Row.{
  Row, complete, is_state_complete, bit, start, first_free, reserve_block, release_block, block_at,
}
use rustytorrent.Piece.Row.Invariant.{start_same}
use rustytorrent.Piece.Row.Bits.{bit-set_self, bit-set_ne, bit-set-false}

-- Neither asked for nor here.
abbrev pub is_free : Row → ℕ → Bool
is_free row b = not (bit row.requested b) && not (bit row.received b)

first_free_cases :
    (left b : ℕ) (row : Row)
    → ((first_free left b row ≡ none) × ((c : ℕ) → b ≤ c → c < b + left → is_free row c ≡ false))
      ⊎ ((d : ℕ) × (first_free left b row ≡ some d)
          × (b ≤ d)
          × (d < b + left)
          × (is_free row d ≡ true)
          × ((c : ℕ) → b ≤ c → c < d → is_free row c ≡ false))
unfolding first_free
first_free_cases zero b row = inl (refl, λ c h k. absurd (omega arith))
first_free_cases (suc left) b row = elim (Bool-cases (is_free row b)) [
  | inl e ↦ inr (b, rw e, omega arith, omega arith, e, λ c h k. absurd (omega arith))
  | inr e ↦ elim (first_free_cases left (b + 1) row) [
    | inl (f, all) ↦ inl (rw e f, λ c h k. here e c (λ l. all c l (omega arith)) h)
    | inr (d, f, lo, hi, free, before) ↦
        inr (d, rw e f, omega arith, omega arith, free, λ c h k. here e c (λ l. before c l k) h)
  ]
]
  where
    here :
        is_free row b ≡ false
        → (c : ℕ) → (b + 1 ≤ c → is_free row c ≡ false)
        → b ≤ c
        → is_free row c ≡ false
    here e c later h = elim (Bool-cases (b == c)) [
      | inl s ↦ subst (λ j. is_free row j ≡ false) ((==_iff b c).0 s) e
      | inr n ↦ later (ground arith)
    ]

pub first_free-lt : (left b : ℕ) (row : Row) (d : ℕ) → first_free left b row ≡ some d → d < b + left
first_free-lt left b row d e = elim (first_free_cases left b row) [
  | inl (f, all) ↦ cc
  | inr (c, f, lo, hi, free, before) ↦ let same : c ≡ d = cc in omega arith
]

is_free-start : (row : Row) (size b : ℕ) → is_free (start row size) b ≡ is_free row b
unfolding start
is_free-start row size b = ground arith

is_free-set :
    (row : Row) (d c : ℕ)
    → d < length row.requested
    → is_free (record row { requested = set row.requested d true }) c
      ≡ (if c == d then false else is_free row c)
is_free-set row d c h = elim (Bool-cases (c == d)) [
  | inl e ↦
      let same : c ≡ d = (==_iff c d).0 e in
      rw e (
        rw same (ap (λ x. not x && not (bit row.received d)) (bit-set_self row.requested d true h)))
  | inr e ↦ rw e (
      ap (λ x. not x && not (bit row.received c))
        (bit-set_ne row.requested d c true (ground arith)))
]

-- A piece that is not complete either has no free block, and then nothing is handed out, or the
-- free block with the lowest number is: its place and its length are returned, it is not free any
-- more, and every other block is as free as it was.
pub reserve_block_lem :
    (row : Row) (size nb : ℕ)
    → length row.requested ≡ nb
    → row.state ≢ complete
    → ((reserve_block row size nb ≡ (start row size, none))
        × ((c : ℕ) → c < nb → is_free row c ≡ false))
      ⊎ ((d : ℕ) × ((reserve_block row size nb).1 ≡ some (block_at size d))
          × (d < nb)
          × (is_free row d ≡ true)
          × ((c : ℕ) → c < d → is_free row c ≡ false)
          × ((c : ℕ)
              → is_free (reserve_block row size nb).0 c
                ≡ (if c == d then false else is_free row c)))
unfolding reserve_block
reserve_block_lem row size nb l h =
    let open_ : is_state_complete row.state ≡ false = ground arith in
    elim (first_free_cases nb 0 (start row size)) [
      | inl (f, all) ↦
          inl (
            rw (open_, f),
            λ c k. sym (is_free-start row size c) ∙ all c (omega arith) (omega arith),
          )
      | inr (d, f, lo, hi, free, before) ↦ inr (
        d,
        rw (open_, f),
        omega arith,
        sym (is_free-start row size d) ∙ free,
        λ c k. sym (is_free-start row size c) ∙ before c (omega arith) k,
        λ c.
            rw (open_, f)
              (is_free-set (start row size) d c (omega (arith, ap length (start_same row size).0))
                ∙ ap (λ x. if c == d then false else x) (is_free-start row size c)),
      )
    ]

-- Giving a block of an unfinished piece back undoes its reservation: it is not requested any more,
-- and no other block is touched, nor what has arrived.
pub release_block_lem :
    (row : Row) (nb b : ℕ)
    → length row.requested ≡ nb
    → row.state ≢ complete
    → b < nb
    → (bit (release_block row (b * block_size)).requested b ≡ false)
      × ((c : ℕ)
          → c ≢ b
          → bit (release_block row (b * block_size)).requested c ≡ bit row.requested c)
      × ((release_block row (b * block_size)).received ≡ row.received)
unfolding release_block
release_block_lem row nb b l h k =
    let open_ : is_state_complete row.state ≡ false = ground arith in
    let index : b * block_size / block_size ≡ b = omega arith in
    let aligned : (b * block_size % block_size == 0) ≡ true = ground arith in
    let within : ltb (b * block_size / block_size) (length row.requested) ≡ true = ground arith in
    rw (open_, aligned, within, index)
      (
        bit-set-false row.requested b,
        λ c n. bit-set_ne row.requested b c false (λ e. n (sym e)),
        refl,
      )
