-- ===== src/Peer/Message/RoundTrip.antt =====
-- src/peer/message.rs: encoding and decoding of one message are inverse.
use rustytorrent.Base.{
  ℕ, ◌%◌, ◌^◌, ◌≤◌, ◌<◌, ◌≡◌, refl, sym, ap, ◌∙◌, inl, inr, Bool-cases, List, [], ◌∷◌, ◌++◌, arith,
  ltb, ◌!=◌, ◌||◌, ap₂, append-nil, length-drop, drop-All, subst, length, drop, ==_iff, ◌==◌, true,
  if◌then◌else◌,
}
use rustytorrent.Base.Bytes.{be32, of_be32-be32, be32-of_be32, AreBytes}
use rustytorrent.Base.Outcome.{Error, Result, ok, err, ◌>>◌}
use rustytorrent.Peer.Message.{
  Message, keep_alive, choke, unchoke, interested, not_interested, have, bitfield, request, piece,
  cancel, extended, have_all, have_none, reject_request, allowed_fast, suggest_piece, tag, encode,
  decode, decode_piece, decode_extended, decode_fast, ensure_empty, decode_body, u32_at,
}

-- The fields are what their Rust types hold.
abbrev pub IsWellTyped : Message → Type 0
IsWellTyped (have i) = i < 2 ^ 32
IsWellTyped (bitfield b) = AreBytes b
IsWellTyped (request i b n) = (i < 2 ^ 32) × (b < 2 ^ 32) × (n < 2 ^ 32)
IsWellTyped (piece i b block) = (i < 2 ^ 32) × (b < 2 ^ 32) × AreBytes block
IsWellTyped (cancel i b n) = (i < 2 ^ 32) × (b < 2 ^ 32) × (n < 2 ^ 32)
IsWellTyped (extended e p) = (e < 256) × AreBytes p
IsWellTyped (reject_request i b n) = (i < 2 ^ 32) × (b < 2 ^ 32) × (n < 2 ^ 32)
IsWellTyped (allowed_fast i) = i < 2 ^ 32
IsWellTyped (suggest_piece i) = i < 2 ^ 32
IsWellTyped _ = Unit

decode_triple :
    (f : ℕ → ℕ → ℕ → Message) (i b n : ℕ)
    → (i < 2 ^ 32) × (b < 2 ^ 32) × (n < 2 ^ 32)
    → let p = be32 i ++ (be32 b ++ be32 n) in f (u32_at p 0) (u32_at p 4) (u32_at p 8) ≡ f i b n
decode_triple f i b n h = rw (of_be32-be32 i h.0, of_be32-be32 b h.1, of_be32-be32 n h.2)

decode_piece_long :
    (p : List ℕ) → 8 ≤ length p → decode_piece p ≡ ok (piece (u32_at p 0) (u32_at p 4) (drop 8 p))
unfolding decode_piece
decode_piece_long p h = ground arith

-- A message of representable fields decodes, from its encoding without the length prefix, to
-- itself.
pub decode-encode : (m : Message) → IsWellTyped m → decode (drop 4 (encode m)) ≡ ok m
unfolding decode encode
decode-encode keep_alive h = refl
decode-encode (have i) h = ap (λ i. ok (have i)) (of_be32-be32 i h)
decode-encode (request i b n) h = ap ok (decode_triple request i b n h)
decode-encode (cancel i b n) h = ap ok (decode_triple cancel i b n h)
decode-encode (reject_request i b n) h = ap ok (decode_triple reject_request i b n h)
decode-encode (piece i b block) h =
    decode_piece_long (be32 i ++ (be32 b ++ block)) (omega arith)
    ∙ ap₂ (λ i b. ok (piece i b block)) (of_be32-be32 i h.0) (of_be32-be32 b h.1)
decode-encode (allowed_fast i) h = ap (λ i. ok (allowed_fast i)) (of_be32-be32 i h)
decode-encode (suggest_piece i) h = ap (λ i. ok (suggest_piece i)) (of_be32-be32 i h)
decode-encode _ h = refl

-- A decoded frame is the encoding of its message: `Canonical frame r` says so of the result r.
abbrev Canonical : List ℕ → Result Message → Type 0
Canonical frame r = (m : Message) → r ≡ ok m → encode m ≡ be32 (length frame % 2 ^ 32) ++ frame

split4 : (p : List ℕ) → AreBytes p → 4 ≤ length p → be32 (u32_at p 0) ++ drop 4 p ≡ p
split4 [] h l = absurd (omega arith)
split4 (a ∷ []) h l = absurd (omega arith)
split4 (a ∷ b ∷ []) h l = absurd (omega arith)
split4 (a ∷ b ∷ c ∷ []) h l = absurd (omega arith)
split4 (a ∷ b ∷ c ∷ d ∷ r) h l = ap (λ q. q ++ r) (be32-of_be32 a b c d h.0 h.1.0 h.1.1.0 h.1.1.1.0)

u32_at-drop : (p : List ℕ) → u32_at (drop 4 p) 0 ≡ u32_at p 4
u32_at-drop [] = refl
u32_at-drop (a ∷ []) = refl
u32_at-drop (a ∷ b ∷ []) = refl
u32_at-drop (a ∷ b ∷ c ∷ []) = refl
u32_at-drop (a ∷ b ∷ c ∷ d ∷ r) = refl

u32_at-drop_twice : (p : List ℕ) → u32_at (drop 4 (drop 4 p)) 0 ≡ u32_at p 8
u32_at-drop_twice [] = refl
u32_at-drop_twice (a ∷ []) = refl
u32_at-drop_twice (a ∷ b ∷ []) = refl
u32_at-drop_twice (a ∷ b ∷ c ∷ []) = refl
u32_at-drop_twice (a ∷ b ∷ c ∷ d ∷ r) = u32_at-drop r

drop-drop : (p : List ℕ) → drop 4 (drop 4 p) ≡ drop 8 p
drop-drop [] = refl
drop-drop (a ∷ []) = refl
drop-drop (a ∷ b ∷ []) = refl
drop-drop (a ∷ b ∷ c ∷ []) = refl
drop-drop (a ∷ b ∷ c ∷ d ∷ r) = refl

eq_nil : (p : List ℕ) → length p ≡ 0 → p ≡ []
eq_nil [] h = refl
eq_nil (a ∷ p) h = absurd (omega arith)

-- The payload of a `have`, of a block, and of the three messages with an index, a begin and a length.
single : (p : List ℕ) → AreBytes p → length p ≡ 4 → be32 (u32_at p 0) ≡ p
single p h l =
    sym (append-nil _)
    ∙ ap (◌++◌ (be32 (u32_at p 0))) (sym (eq_nil (drop 4 p) (omega (arith, length-drop 4 p))))
    ∙ split4 p h (omega arith)

pair :
    (p : List ℕ)
    → AreBytes p
    → 8 ≤ length p
    → be32 (u32_at p 0) ++ (be32 (u32_at p 4) ++ drop 8 p) ≡ p
pair p h l =
    let q = split4 (drop 4 p) (drop-All _ 4 p h) (omega (arith, length-drop 4 p)) in
    ap (λ r. be32 (u32_at p 0) ++ r) (rw (← u32_at-drop p, ← drop-drop p) q)
    ∙ split4 p h (omega arith)

triple :
    (p : List ℕ)
    → AreBytes p
    → length p ≡ 12
    → be32 (u32_at p 0) ++ (be32 (u32_at p 4) ++ be32 (u32_at p 8)) ≡ p
triple p h l =
    let last =
      single (drop 4 (drop 4 p)) (drop-All _ 4 _ (drop-All _ 4 p h))
        (omega (arith, length-drop 4 p, length-drop 4 (drop 4 p))) in
    ap (λ r. be32 (u32_at p 0) ++ (be32 (u32_at p 4) ++ r))
      (rw (← u32_at-drop_twice p) last ∙ drop-drop p)
    ∙ pair p h (omega arith)

Canonical-ok :
    (id : ℕ) (p q : List ℕ) (m₀ : Message)
    → encode m₀ ≡ tag id q
    → q ≡ p
    → Canonical (id ∷ p) (ok m₀)
unfolding tag
Canonical-ok id p q m₀ e f m g =
    let same : encode m ≡ encode m₀ = cc in
    same ∙ e ∙ ap (tag id) f ∙ ap (λ n. be32 (n % 2 ^ 32) ++ id ∷ p) (omega arith)

Canonical-empty :
    (id : ℕ) (p : List ℕ) (m₀ : Message)
    → encode m₀ ≡ tag id []
    → Canonical (id ∷ p) (ensure_empty p >> ok m₀)
unfolding ensure_empty
Canonical-empty id [] m₀ e = Canonical-ok id [] [] m₀ e refl
Canonical-empty id (b ∷ p) m₀ e = λ m g. cc

-- One arm of the `match id`: the frame starts with the arm's number, or the rest decides.
arm :
    (k id : ℕ) (p : List ℕ) {x y : Result Message}
    → Canonical (k ∷ p) x
    → Canonical (id ∷ p) y
    → Canonical (id ∷ p) (if id == k then x else y)
arm k id p {x} {y} hit miss = elim (Bool-cases (id == k)) [
  | inl e ↦ rw e (subst (λ j. Canonical (j ∷ p) x) (sym ((==_iff id k).0 e)) hit)
  | inr e ↦ rw e miss
]

-- An arm behind a check of the payload's length.
checked :
    (frame p : List ℕ) (n : ℕ) {x : Result Message}
    → (length p ≡ n → Canonical frame x)
    → Canonical frame (if length p != n then err Error.network else x)
checked frame p n {x} k = elim (Bool-cases (length p == n)) [
  | inl e ↦ rw e (k ((==_iff (length p) n).0 e))
  | inr e ↦ rw e (λ m g. cc)
]

three_fields-Canonical :
    (id : ℕ) (p : List ℕ) (f : ℕ → ℕ → ℕ → Message)
    → AreBytes p
    → ((i b n : ℕ) → encode (f i b n) ≡ tag id (be32 i ++ (be32 b ++ be32 n)))
    → length p ≡ 12
    → Canonical (id ∷ p) (ok (f (u32_at p 0) (u32_at p 4) (u32_at p 8)))
three_fields-Canonical id p f h e l = Canonical-ok id p _ _ (e _ _ _) (triple p h l)

one_field-Canonical :
    (id : ℕ) (p : List ℕ) (f : ℕ → Message)
    → AreBytes p
    → ((i : ℕ) → encode (f i) ≡ tag id (be32 i))
    → length p ≡ 4
    → Canonical (id ∷ p) (ok (f (u32_at p 0)))
one_field-Canonical id p f h e l = Canonical-ok id p _ _ (e _) (single p h l)

decode_piece-Canonical : (p : List ℕ) → AreBytes p → Canonical (7 ∷ p) (decode_piece p)
unfolding decode_piece encode
decode_piece-Canonical p h = elim (Bool-cases (ltb (length p) 8)) [
  | inl e ↦ rw e (λ m g. cc)
  | inr e ↦ rw e (Canonical-ok 7 p _ _ refl (pair p h (ground arith)))
]

decode_extended-Canonical : (p : List ℕ) → Canonical (20 ∷ p) (decode_extended p)
unfolding decode_extended encode
decode_extended-Canonical [] = λ m g. cc
decode_extended-Canonical (e ∷ p) = Canonical-ok 20 (e ∷ p) _ _ refl refl

-- Ids 17 and 13 share an arm, which looks at the id once more.
decode_fast-Canonical :
    (id : ℕ) (p : List ℕ)
    → AreBytes p
    → ((id == 17) || (id == 13)) ≡ true
    → Canonical (id ∷ p) (decode_fast id p)
unfolding decode_fast encode
decode_fast-Canonical id p h e = checked (id ∷ p) p 4 λ l. elim (Bool-cases (id == 17)) [
  | inl a ↦ rw a (
      subst (λ j. Canonical (j ∷ p) (ok (allowed_fast (u32_at p 0)))) (sym ((==_iff id 17).0 a))
        (one_field-Canonical 17 p allowed_fast h (λ i. refl) l))
  | inr a ↦ rw a (
      subst (λ j. Canonical (j ∷ p) (ok (suggest_piece (u32_at p 0))))
        (sym ((==_iff id 13).0 (rw a at e)))
        (one_field-Canonical 13 p suggest_piece h (λ i. refl) l))
]

decode_body-Canonical : (id : ℕ) (p : List ℕ) → AreBytes p → Canonical (id ∷ p) (decode_body id p)
unfolding decode_body encode
decode_body-Canonical id p h = arm 0 id p (Canonical-empty 0 p choke refl) (
    arm 1 id p (Canonical-empty 1 p unchoke refl) (
      arm 2 id p (Canonical-empty 2 p interested refl) (
        arm 3 id p (Canonical-empty 3 p not_interested refl) (
          arm 4 id p (checked (4 ∷ p) p 4 (one_field-Canonical 4 p have h (λ i. refl))) (
            arm 5 id p (Canonical-ok 5 p p (bitfield p) refl refl) (
              arm 6 id p
                (checked (6 ∷ p) p 12 (three_fields-Canonical 6 p request h (λ i b n. refl)))
                (arm 7 id p (decode_piece-Canonical p h) (
                  arm 8 id p
                    (checked (8 ∷ p) p 12 (three_fields-Canonical 8 p cancel h (λ i b n. refl)))
                    (arm 20 id p (decode_extended-Canonical p) (
                      arm 14 id p (Canonical-empty 14 p have_all refl) (
                        arm 15 id p (Canonical-empty 15 p have_none refl) (
                          arm 16 id p
                            (checked (16 ∷ p) p 12
                              (three_fields-Canonical 16 p reject_request h (λ i b n. refl)))
                            last_arm))))))))))))
  where
    last_arm :
        Canonical
          (id ∷ p)
          (if (id == 17) || (id == 13) then decode_fast id p else err Error.network)
    last_arm = elim (Bool-cases ((id == 17) || (id == 13))) [
      | inl e ↦ rw e (decode_fast-Canonical id p h e)
      | inr e ↦ rw e (λ m g. cc)
    ]

-- A frame of bytes that decodes to a message is that message's encoding without the length
-- prefix: behind the prefix, which holds the frame's length, `encode` prints the frame again.
pub encode-decode :
    (frame : List ℕ) (m : Message)
    → AreBytes frame
    → decode frame ≡ ok m
    → encode m ≡ be32 (length frame % 2 ^ 32) ++ frame
unfolding decode encode
encode-decode [] m h e = let same : encode m ≡ encode keep_alive = cc in same
encode-decode (id ∷ p) m h e = decode_body-Canonical id p h.1 m e
