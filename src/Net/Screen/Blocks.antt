-- ===== src/Net/Screen/Blocks.antt =====
-- src/util.rs: the IPv4 screen as a list of address blocks. The list is the screen's own policy: it
-- is not the whole special-purpose registry of IANA, and has the multicast block besides.
use rustytorrent.Base.{
  ℕ, ◌+◌, ◌-◌, ◌*◌, ◌^◌, ◌<◌, ◌≤◌, ◌≡◌, ◌↔◌, refl, sym, ◌⊎◌, Bool, true, false, not, ◌&&◌, ◌||◌,
  List, [], ◌∷◌, arith, leb, ◌==◌, if◌then◌else◌, All, bit_and,
}
use rustytorrent.Base.Bits.{every_under, every_under→holds}
use rustytorrent.Net.Screen.{
  v4, canonical, is_loopback, is_unspecified, is_multicast, is_broadcast, is_link_local,
  is_documentation, is_private, cgnat, benchmarking, reserved, this_network, ietf_protocols,
  six_to_four_relay, refused_v4, accepted, is_dialable_ip,
}

-- An address as a number of 32 bits.
abbrev pub number : ℕ → ℕ → ℕ → ℕ → ℕ
number a b c d = ((a * 256 + b) * 256 + c) * 256 + d

-- The address lies outside the block of this first address and prefix length.
abbrev pub Outside : ℕ → ℕ × ℕ → Type 0
Outside n (base, prefix) = (n < base) ⊎ (base + 2 ^ (32 - prefix) ≤ n)

-- The blocks that no session dials.
abbrev pub refused_blocks : List (ℕ × ℕ)
refused_blocks =
    (number 127 0 0 0, 8)
    ∷ (number 224 0 0 0, 4)
    ∷ (number 169 254 0 0, 16)
    ∷ (number 100 64 0 0, 10)
    ∷ (number 198 18 0 0, 15)
    ∷ (number 192 0 2 0, 24)
    ∷ (number 198 51 100 0, 24)
    ∷ (number 203 0 113 0, 24)
    ∷ (number 240 0 0 0, 4)
    ∷ (number 0 0 0 0, 8)
    ∷ (number 192 0 0 0, 24)
    ∷ (number 192 88 99 0, 24)
    ∷ []

-- The blocks of local networks.
abbrev pub private_blocks : List (ℕ × ℕ)
private_blocks = (number 10 0 0 0, 8) ∷ (number 172 16 0 0, 12) ∷ (number 192 168 0 0, 16) ∷ []

agree : Bool → Bool → Bool
agree true y = y
agree false y = not y

agree_eq : (x y : Bool) → agree x y ≡ true → x ≡ y
unfolding agree
agree_eq true true h = refl
agree_eq false false h = refl
agree_eq true false h = sym h
agree_eq false true h = h

high_nibble : (a : ℕ) → a < 256 → (bit_and a 0xf0 == 240) ≡ leb 240 a
high_nibble a h = agree_eq _ _ (
    every_under→holds 256 (λ b. agree (bit_and b 0xf0 == 240) (leb 240 b)) a
      (unfold every_under agree in refl) h)

or_false : (x y : Bool) → (x || y ≡ false) → (x ≡ false) × (y ≡ false)
or_false true y h = absurd (let bad : true ≡ false = h in cc)
or_false false y h = (refl, h)

or_both : {x y : Bool} → x ≡ false → y ≡ false → (x || y) ≡ false
or_both e f = rw (e, f) refl

join_screen : (x y : Bool) → x ≡ false → y ≡ false → (if x then false else not y) ≡ true
join_screen x y e f = rw (e, f) refl

split_screen : (x y : Bool) → ((if x then false else not y) ≡ true) → (x ≡ false) × (y ≡ false)
split_screen true y h = absurd (let bad : false ≡ true = h in cc)
split_screen false true h = absurd (let bad : false ≡ true = h in cc)
split_screen false false h = (refl, refl)

strict_half : (strict x : Bool) → strict ≡ true → (strict && x) ≡ false → x ≡ false
strict_half true x e h = h
strict_half false x e h = absurd (let bad : false ≡ true = e in cc)

-- Each test of the source against its block.
module _ (a b c d : ℕ) (ha : a < 256) (hb : b < 256) (hc : c < 256) (hd : d < 256) where
  loopback_iff : (is_loopback (v4 a b c d) ≡ false) ↔ Outside (number a b c d) (number 127 0 0 0, 8)
  unfolding is_loopback
  loopback_iff = ground arith

  multicast_iff :
      (is_multicast (v4 a b c d) ≡ false) ↔ Outside (number a b c d) (number 224 0 0 0, 4)
  unfolding is_multicast
  multicast_iff = ground arith

  link_local_iff : (is_link_local a b ≡ false) ↔ Outside (number a b c d) (number 169 254 0 0, 16)
  unfolding is_link_local
  link_local_iff = ground arith

  cgnat_iff : (cgnat a b ≡ false) ↔ Outside (number a b c d) (number 100 64 0 0, 10)
  unfolding cgnat
  cgnat_iff = ground arith

  benchmarking_iff : (benchmarking a b ≡ false) ↔ Outside (number a b c d) (number 198 18 0 0, 15)
  unfolding benchmarking
  benchmarking_iff = ground arith

  this_network_iff : (this_network a ≡ false) ↔ Outside (number a b c d) (number 0 0 0 0, 8)
  unfolding this_network
  this_network_iff = ground arith

  ietf_protocols_iff :
      (ietf_protocols a b c ≡ false) ↔ Outside (number a b c d) (number 192 0 0 0, 24)
  unfolding ietf_protocols
  ietf_protocols_iff = ground arith

  six_to_four_relay_iff :
      (six_to_four_relay a b c ≡ false) ↔ Outside (number a b c d) (number 192 88 99 0, 24)
  unfolding six_to_four_relay
  six_to_four_relay_iff = ground arith

  documentation_iff : (is_documentation a b c ≡ false) ↔ (
      Outside (number a b c d) (number 192 0 2 0, 24)
      × Outside (number a b c d) (number 198 51 100 0, 24)
      × Outside (number a b c d) (number 203 0 113 0, 24))
  unfolding is_documentation
  documentation_iff = ground arith

  private_iff : (is_private a b ≡ false) ↔ All (Outside (number a b c d)) private_blocks
  unfolding is_private
  private_iff = ground arith

  reserved_iff :
      ((is_broadcast a b c d ≡ false) × (reserved a b c d ≡ false))
      ↔ Outside (number a b c d) (number 240 0 0 0, 4)
  unfolding is_broadcast reserved
  reserved_iff = rw (high_nibble a ha) (ground arith)

  unspecified_of : this_network a ≡ false → is_unspecified (v4 a b c d) ≡ false
  unfolding this_network is_unspecified
  unspecified_of h = rw h refl

  passes :
      (strict : Bool)
      → All (Outside (number a b c d)) refused_blocks
      → (strict ≡ true → All (Outside (number a b c d)) private_blocks)
      → is_dialable_ip (v4 a b c d) strict ≡ true
  unfolding is_dialable_ip canonical accepted refused_v4
  passes strict (lo, (mu, (ll, (cg, (be, (d1, (d2, (d3, (re, (tn, (ie, (sx, z)))))))))))) local =
      let r = reserved_iff.1 re in
      let zero = this_network_iff.1 tn in
      let unspecified = unspecified_of zero in
      let near = private_of strict local in
      let refused : refused_v4 strict a b c d ≡ false = or_both r.0 (
        or_both (link_local_iff.1 ll) (
          or_both (cgnat_iff.1 cg) (
            or_both (benchmarking_iff.1 be) (
              or_both (documentation_iff.1 (d1, d2, d3)) (
                or_both r.1 (
                  or_both zero (
                    or_both (ietf_protocols_iff.1 ie)
                      (or_both (six_to_four_relay_iff.1 sx) near)))))))) in
      join_screen _ _ (or_both (loopback_iff.1 lo) (or_both unspecified (multicast_iff.1 mu)))
        refused
    where
      private_of :
          (strict : Bool)
          → (strict ≡ true → All (Outside (number a b c d)) private_blocks)
          → (strict && is_private a b) ≡ false
      private_of true h = private_iff.1 (h refl)
      private_of false h = refl

  outside :
      (strict : Bool)
      → is_dialable_ip (v4 a b c d) strict ≡ true
      → All (Outside (number a b c d)) refused_blocks
        × (strict ≡ true → All (Outside (number a b c d)) private_blocks)
  unfolding is_dialable_ip canonical accepted refused_v4
  outside strict h =
      let screen = split_screen _ _ h in
      let lo = or_false _ _ screen.0 in
      let un = or_false _ _ lo.1 in
      let br = or_false _ _ screen.1 in
      let ll = or_false _ _ br.1 in
      let cg = or_false _ _ ll.1 in
      let be = or_false _ _ cg.1 in
      let doc = or_false _ _ be.1 in
      let re = or_false _ _ doc.1 in
      let tn = or_false _ _ re.1 in
      let ie = or_false _ _ tn.1 in
      let sx = or_false _ _ ie.1 in
      let documents = documentation_iff.0 doc.0 in
      (
        (
          loopback_iff.0 lo.0,
          (
            multicast_iff.0 un.1,
            (
              link_local_iff.0 ll.0,
              (
                cgnat_iff.0 cg.0,
                (
                  benchmarking_iff.0 be.0,
                  (
                    documents.0,
                    (
                      documents.1,
                      (
                        documents.2,
                        (
                          reserved_iff.0 (br.0, re.0),
                          (
                            this_network_iff.0 tn.0,
                            (ietf_protocols_iff.0 ie.0, (six_to_four_relay_iff.0 sx.0, tt)),
                          ),
                        ),
                      ),
                    ),
                  ),
                ),
              ),
            ),
          ),
        ),
        λ e. private_iff.0 (strict_half strict _ e sx.1),
      )

-- An IPv4 address of four octets passes the screen exactly if it lies outside the twelve blocks
-- 0.0.0.0/8, 100.64.0.0/10, 127.0.0.0/8, 169.254.0.0/16, 192.0.0.0/24, 192.0.2.0/24, 192.88.99.0/24,
-- 198.18.0.0/15, 198.51.100.0/24, 203.0.113.0/24, 224.0.0.0/4 and 240.0.0.0/4, and in strict mode
-- also outside 10.0.0.0/8, 172.16.0.0/12 and 192.168.0.0/16.
pub is_dialable_ip_iff :
    (a b c d : ℕ) (strict : Bool)
    → a < 256
    → b < 256
    → c < 256
    → d < 256
    → (is_dialable_ip (v4 a b c d) strict ≡ true) ↔ (
        All (Outside (number a b c d)) refused_blocks
        × (strict ≡ true → All (Outside (number a b c d)) private_blocks))
is_dialable_ip_iff a b c d strict ha hb hc hd =
    (outside a b c d ha hb hc hd strict, λ h. passes a b c d ha hb hc hd strict h.0 h.1)
