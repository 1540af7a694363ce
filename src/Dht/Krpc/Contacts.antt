-- ===== src/Dht/Krpc/Contacts.antt =====
-- src/dht/krpc.rs: what of the contacts and addresses that are sent is received.
use rustytorrent.Base.{
  ℕ, zero, suc, ◌*◌, ◌/◌, ◌%◌, ◌^◌, ◌<◌, ◌≡◌, refl, ap, ◌∙◌, ◌⊎◌, inl, inr, Bool, true, false, not,
  ◌&&◌, List, [], ◌∷◌, ◌++◌, arith, ◌==◌, ◌!=◌, if◌then◌else◌, Bool-cases, length, drop, All,
  length-append, take-append_of, drop-append_of, append_assoc,
}
use rustytorrent.Base.Bytes.{be16, of_be16-be16}
use rustytorrent.Base.Outcome.{ok}
use rustytorrent.Net.Screen.{IpAddr, v4, v6, SocketAddr}
use rustytorrent.Dht.Bucket.{Contact}
use rustytorrent.Metainfo.Bencode.{item, bytes, as_bytes}
use rustytorrent.Dht.Krpc.{
  compact, nodes_to_bytes, with_addr, nodes_from, parse_nodes_bytes, values_items, values_to_list,
  values_from, parse_values_list,
}

abbrev pub is_v4 : IpAddr → Bool
is_v4 (v4 a b c d) = true
is_v4 (v6 a b c d e f g h) = false

-- An address that the compact form carries, and that the reader keeps.
abbrev pub is_received : SocketAddr → Bool
is_received addr = is_v4 addr.ip && not (addr.port == 0)

abbrev pub received_nodes : ℕ → List (Contact SocketAddr) → List (Contact SocketAddr)
received_nodes now [] = []
received_nodes now (c ∷ cs) =
    if is_received c.addr
    then record { id = c.id; addr = c.addr; last_seen = now } ∷ received_nodes now cs
    else received_nodes now cs

abbrev pub received_addrs : List SocketAddr → List SocketAddr
received_addrs [] = []
received_addrs (a ∷ addrs) =
    if is_received a then a ∷ received_addrs addrs else received_addrs addrs

abbrev pub FitsPort : SocketAddr → Type 0
FitsPort a = a.port < 2 ^ 16

abbrev pub FitsContact : Contact SocketAddr → Type 0
FitsContact c = (length c.id ≡ 20) × FitsPort c.addr

-- The parts of the address.
pub is_v4-cases :
    (ip : IpAddr)
    → ((a b c d : ℕ) × (ip ≡ v4 a b c d)) ⊎ ((a b c d e f g h : ℕ) × (ip ≡ v6 a b c d e f g h))
is_v4-cases (v4 a b c d) = inl (a, b, c, d, refl)
is_v4-cases (v6 a b c d e f g h) = inr (a, b, c, d, e, f, g, h, refl)

-- The six bytes of an address are read back, unless its port is zero.
with_addr-compact {ℓ} :
    {A : Type ℓ} (f : SocketAddr → A) (addr : SocketAddr) (a b c d : ℕ) (rest : List A)
    → FitsPort addr
    → addr.ip ≡ v4 a b c d
    → with_addr f (a ∷ b ∷ c ∷ d ∷ be16 addr.port) rest
      ≡ (if is_received addr then f addr ∷ rest else rest)
unfolding with_addr
with_addr-compact f addr a b c d rest fits e = elim (Bool-cases (addr.port == 0)) [
  | inl z ↦ rw (of_be16-be16 addr.port fits, e, z) refl
  | inr z ↦ rw (of_be16-be16 addr.port fits, e, z) refl
]

-- One round of the loop over the chunks.
nodes_from-chunk :
    (now n : ℕ) (id six rest : List ℕ)
    → length id ≡ 20
    → length six ≡ 6
    → nodes_from now (suc n) (id ++ (six ++ rest))
      ≡ with_addr
          (λ addr. record { id = id; addr = addr; last_seen = now })
          six
          (nodes_from now n rest)
unfolding nodes_from
nodes_from-chunk now n id six rest is20 is6 =
    let e₁ = take-append_of 20 id (six ++ rest) is20 in
    let e₂ = drop-append_of 20 id (six ++ rest) is20 in
    let e₃ = take-append_of 6 six rest is6 in
    let whole = length-append id six in
    let e₄ : drop 26 (id ++ (six ++ rest)) ≡ rest =
      rw (← append_assoc id six rest) (drop-append_of 26 (id ++ six) rest (omega arith)) in
    rw (e₁, e₂, e₃, e₄) refl

-- The bytes of the address of a contact, if it is of IPv4.
nodes_to_bytes-v4 :
    (c : Contact SocketAddr) (cs : List (Contact SocketAddr)) (a b d e : ℕ)
    → c.addr.ip ≡ v4 a b d e
    → nodes_to_bytes (c ∷ cs) ≡ c.id ++ ((a ∷ b ∷ d ∷ e ∷ be16 c.addr.port) ++ nodes_to_bytes cs)
unfolding nodes_to_bytes compact
nodes_to_bytes-v4 c cs a b d e ip = rw ip refl

nodes_to_bytes-v6 :
    (c : Contact SocketAddr) (cs : List (Contact SocketAddr)) (a b d e f g h i : ℕ)
    → c.addr.ip ≡ v6 a b d e f g h i
    → nodes_to_bytes (c ∷ cs) ≡ nodes_to_bytes cs
unfolding nodes_to_bytes compact
nodes_to_bytes-v6 c cs a b d e f g h i ip = rw ip refl

nodes_to_bytes-nil : (n : ℕ) → length (nodes_to_bytes []) ≡ 26 * suc n → ⊥
unfolding nodes_to_bytes
nodes_to_bytes-nil n h = omega arith

nodes_from-nodes_to_bytes :
    (now n : ℕ) (ns : List (Contact SocketAddr))
    → All FitsContact ns
    → length (nodes_to_bytes ns) ≡ 26 * n
    → nodes_from now n (nodes_to_bytes ns) ≡ received_nodes now ns
nodes_from-nodes_to_bytes now zero [] fits h = unfold nodes_from in refl
nodes_from-nodes_to_bytes now (suc n) [] fits h = absurd (nodes_to_bytes-nil n h)
nodes_from-nodes_to_bytes now n (c ∷ cs) fits h = elim (is_v4-cases c.addr.ip) [
  | inl (a, b, d, e, ip) ↦
      let packed = nodes_to_bytes-v4 c cs a b d e ip in
      rw packed (
        node n a b d e ip (rw packed at h)
          (λ k long. nodes_from-nodes_to_bytes now k cs fits.1 long))
  | inr (p, q, r, s, t, u, v, w, ip) ↦
      let packed = nodes_to_bytes-v6 c cs p q r s t u v w ip in
      rw (packed, ip) (nodes_from-nodes_to_bytes now n cs fits.1 (rw packed at h))
]
  where
    node :
        (n a b d e : ℕ)
        → c.addr.ip ≡ v4 a b d e
        → length (c.id ++ ((a ∷ b ∷ d ∷ e ∷ be16 c.addr.port) ++ nodes_to_bytes cs)) ≡ 26 * n
        → ((k : ℕ)
            → length (nodes_to_bytes cs) ≡ 26 * k
            → nodes_from now k (nodes_to_bytes cs) ≡ received_nodes now cs)
        → nodes_from now n (c.id ++ ((a ∷ b ∷ d ∷ e ∷ be16 c.addr.port) ++ nodes_to_bytes cs))
          ≡ received_nodes now (c ∷ cs)
    node zero a b d e ip long ih =
        let is20 = fits.0.0 in
        absurd (
          omega
            (arith, length-append c.id ((a ∷ b ∷ d ∷ e ∷ be16 c.addr.port) ++ nodes_to_bytes cs)))
    node (suc n) a b d e ip long ih =
        let six = a ∷ b ∷ d ∷ e ∷ be16 c.addr.port in
        let m = length-append c.id (six ++ nodes_to_bytes cs) in
        let is20 = fits.0.0 in
        let read : SocketAddr → Contact SocketAddr =
          λ addr. record { id = c.id; addr = addr; last_seen = now } in
        nodes_from-chunk now n c.id six (nodes_to_bytes cs) is20 refl
        ∙ (ap (with_addr read six) (ih n (omega arith))
            ∙ with_addr-compact read c.addr a b d e (received_nodes now cs) fits.0.1 ip)

-- The length counts the addresses of IPv4.
length-nodes_to_bytes :
    (ns : List (Contact SocketAddr))
    → All FitsContact ns
    → (n : ℕ) × (length (nodes_to_bytes ns) ≡ 26 * n)
length-nodes_to_bytes [] fits = (0, unfold nodes_to_bytes in refl)
length-nodes_to_bytes (c ∷ cs) fits =
    let (n, h) = length-nodes_to_bytes cs fits.1 in
    elim (is_v4-cases c.addr.ip) [
      | inl (a, b, d, e, ip) ↦
          let m = length-append c.id ((a ∷ b ∷ d ∷ e ∷ be16 c.addr.port) ++ nodes_to_bytes cs) in
          let is20 = fits.0.0 in
          let counted : length (c.id ++ ((a ∷ b ∷ d ∷ e ∷ be16 c.addr.port) ++ nodes_to_bytes cs))
              ≡ 26 * suc n =
            omega arith in
          (suc n, ap length (nodes_to_bytes-v4 c cs a b d e ip) ∙ counted)
      | inr (p, q, r, s, t, u, v, w, ip) ↦
          (n, ap length (nodes_to_bytes-v6 c cs p q r s t u v w ip) ∙ h)
    ]

pub parse_nodes_bytes-nodes_to_bytes :
    (now : ℕ) (ns : List (Contact SocketAddr))
    → All FitsContact ns
    → parse_nodes_bytes now (nodes_to_bytes ns) ≡ ok (received_nodes now ns)
unfolding parse_nodes_bytes
parse_nodes_bytes-nodes_to_bytes now ns fits =
    let (n, h) = length-nodes_to_bytes ns fits in
    let whole : (length (nodes_to_bytes ns) % 26 != 0) ≡ false = ground arith in
    let count : length (nodes_to_bytes ns) / 26 ≡ n = omega arith in
    rw (whole, count) (ap ok (nodes_from-nodes_to_bytes now n ns fits h))

pub values_items-v4 :
    (addr : SocketAddr) (addrs : List SocketAddr) (a b c d : ℕ)
    → addr.ip ≡ v4 a b c d
    → values_items (addr ∷ addrs)
      ≡ item (bytes (a ∷ b ∷ c ∷ d ∷ be16 addr.port)) (values_items addrs)
unfolding values_items compact
values_items-v4 addr addrs a b c d ip = rw ip refl

pub values_items-v6 :
    (addr : SocketAddr) (addrs : List SocketAddr) (a b c d e f g h : ℕ)
    → addr.ip ≡ v6 a b c d e f g h
    → values_items (addr ∷ addrs) ≡ values_items addrs
unfolding values_items compact
values_items-v6 addr addrs a b c d e f g h ip = rw ip refl

values_from-values_items :
    (addrs : List SocketAddr)
    → All FitsPort addrs
    → values_from (values_items addrs) ≡ ok (received_addrs addrs)
values_from-values_items [] fits = unfold values_from values_items in refl
values_from-values_items (addr ∷ addrs) fits =
    let rest = values_from-values_items addrs fits.1 in
    elim (is_v4-cases addr.ip) [
      | inl (a, b, c, d, ip) ↦
          ap values_from (values_items-v4 addr addrs a b c d ip)
          ∙ (one (a ∷ b ∷ c ∷ d ∷ be16 addr.port) rest
              ∙ ap ok (with_addr-compact (λ x. x) addr a b c d (received_addrs addrs) fits.0 ip))
      | inr (p, q, r, s, t, u, v, w, ip) ↦
          rw (values_items-v6 addr addrs p q r s t u v w ip, ip) rest
    ]
  where
    one :
        (six : List ℕ)
        → values_from (values_items addrs) ≡ ok (received_addrs addrs)
        → values_from (item (bytes six) (values_items addrs))
          ≡ ok (with_addr (λ x. x) six (received_addrs addrs))
    one six rest = unfold values_from as_bytes in rw rest refl

pub parse_values_list-values_to_list :
    (addrs : List SocketAddr)
    → All FitsPort addrs
    → parse_values_list (values_to_list addrs) ≡ ok (received_addrs addrs)
unfolding parse_values_list values_to_list
parse_values_list-values_to_list = values_from-values_items
