-- ===== src/Tracker/Udp/Target/Order.antt =====
-- src/tracker/udp.rs: the order of socket addresses is a total one.
use rustytorrent.Base.{
  ℕ, ◌≡◌, refl, sym, ap, ap₂, ◌∙◌, inl, inr, true, false, List, [], ◌∷◌, arith, ◌==◌, Bool-cases,
}
use rustytorrent.Net.Screen.{IpAddr, v4, v6, SocketAddr}
use rustytorrent.Tracker.Udp.Target.{parts, lex_le, addr_le}

lex_le_total : (xs ys : List ℕ) → lex_le xs ys ≡ false → lex_le ys xs ≡ true
unfolding lex_le
lex_le_total [] ys h = cc
lex_le_total (x ∷ xs) [] h = refl
lex_le_total (x ∷ xs) (y ∷ ys) h = elim (Bool-cases (x == y)) [
  | inl same ↦
      let back : (y == x) ≡ true = ground arith in rw back (lex_le_total xs ys (rw same at h))
  | inr other ↦
      let back : (y == x) ≡ false = ground arith in
      let less = rw other at h in rw back (ground arith)
]

lex_le_antisym : (xs ys : List ℕ) → lex_le xs ys ≡ true → lex_le ys xs ≡ true → xs ≡ ys
unfolding lex_le
lex_le_antisym [] [] h k = refl
lex_le_antisym [] (y ∷ ys) h k = cc
lex_le_antisym (x ∷ xs) [] h k = cc
lex_le_antisym (x ∷ xs) (y ∷ ys) h k = elim (Bool-cases (x == y)) [
  | inl same ↦
      let back : (y == x) ≡ true = ground arith in
      ap₂ (λ z zs. z ∷ zs) (ground arith) (lex_le_antisym xs ys (rw same at h) (rw back at k))
  | inr other ↦
      let back : (y == x) ≡ false = ground arith in
      let less = rw other at h in let more = rw back at k in absurd (ground arith)
]

lex_le_trans : (xs ys zs : List ℕ) → lex_le xs ys ≡ true → lex_le ys zs ≡ true → lex_le xs zs ≡ true
unfolding lex_le
lex_le_trans [] ys zs h k = refl
lex_le_trans (x ∷ xs) [] zs h k = cc
lex_le_trans (x ∷ xs) (y ∷ ys) [] h k = cc
lex_le_trans (x ∷ xs) (y ∷ ys) (z ∷ zs) h k = elim (Bool-cases (x == y)) [
  | inl same ↦ elim (Bool-cases (y == z)) [
    | inl same' ↦
        let both : (x == z) ≡ true = ground arith in
        rw both (lex_le_trans xs ys zs (rw same at h) (rw same' at k))
    | inr other' ↦
        let diff : (x == z) ≡ false = ground arith in
        let less = rw other' at k in rw diff (ground arith)
  ]
  | inr other ↦
      let less = rw other at h in
      elim (Bool-cases (y == z)) [
        | inl same' ↦ let diff : (x == z) ≡ false = ground arith in rw diff (ground arith)
        | inr other' ↦
            let less' = rw other' at k in
            let diff : (x == z) ≡ false = ground arith in rw diff (ground arith)
      ]
]

abbrev of_parts : List ℕ → SocketAddr
of_parts (v ∷ a ∷ b ∷ c ∷ d ∷ p ∷ []) = record { ip = v4 a b c d; port = p }
of_parts (v ∷ a ∷ b ∷ c ∷ d ∷ e ∷ f ∷ g ∷ h ∷ p ∷ []) = record { ip = v6 a b c d e f g h; port = p }
of_parts _ = record { ip = v4 0 0 0 0; port = 0 }

of_parts-parts : (addr : SocketAddr) → of_parts (parts addr) ≡ addr
unfolding parts
of_parts-parts addr = of_ip addr.ip addr.port
  where
    of_ip :
        (ip : IpAddr) (port : ℕ)
        → of_parts (parts (record { ip = ip; port = port })) ≡ record { ip = ip; port = port }
    of_ip (v4 a b c d) port = refl
    of_ip (v6 a b c d e f g h) port = refl

pub addr_le_antisym : (a b : SocketAddr) → addr_le a b ≡ true → addr_le b a ≡ true → a ≡ b
unfolding addr_le
addr_le_antisym a b h k =
    sym (of_parts-parts a)
    ∙ (ap of_parts (lex_le_antisym (parts a) (parts b) h k) ∙ of_parts-parts b)

pub addr_le_trans :
    (a b c : SocketAddr) → addr_le a b ≡ true → addr_le b c ≡ true → addr_le a c ≡ true
unfolding addr_le
addr_le_trans a b c h k = lex_le_trans (parts a) (parts b) (parts c) h k

pub addr_le_total : (a b : SocketAddr) → addr_le a b ≡ false → addr_le b a ≡ true
unfolding addr_le
addr_le_total a b h = lex_le_total (parts a) (parts b) h

pub addr_le_refl : (a : SocketAddr) → addr_le a a ≡ true
addr_le_refl a = elim (Bool-cases (addr_le a a)) [ inl e ↦ e | inr e ↦ addr_le_total a a e ]
