-- ===== src/Net/Screen/Policy.antt =====
-- src/util.rs: what the screens agree on, and the filter of resolved addresses.
use rustytorrent.Base.{
  ℕ, ◌+◌, ◌*◌, ◌/◌, ◌%◌, ◌<◌, ◌≡◌, refl, ap, ◌⊎◌, inl, inr, Bool, true, false, ◌||◌, List, [], ◌∷◌,
  arith, if◌then◌else◌, Bool-cases, All, of_if, is_empty,
}
use rustytorrent.Base.Outcome.{Error, ok, err}
use rustytorrent.Net.Screen.{
  IpAddr, v4, v6, SocketAddr, canonical, is_loopback, is_unspecified, is_multicast, accepted,
  is_dialable_ip, is_dialable_resolved_ip, kept_addrs, filter_dialable_addrs,
}

-- `::ffff:a.b.c.d`.
abbrev pub mapped : ℕ → ℕ → ℕ → ℕ → IpAddr
mapped a b c d = v6 0 0 0 0 0 0xffff (a * 256 + b) (c * 256 + d)

canonical-mapped : (a b c d : ℕ) → b < 256 → d < 256 → canonical (mapped a b c d) ≡ v4 a b c d
unfolding canonical
canonical-mapped a b c d hb hd =
    let e₁ : (a * 256 + b) / 256 ≡ a = omega arith in
    let e₂ : (a * 256 + b) % 256 ≡ b = omega arith in
    let e₃ : (c * 256 + d) / 256 ≡ c = omega arith in
    let e₄ : (c * 256 + d) % 256 ≡ d = omega arith in rw (e₁, e₂, e₃, e₄) refl

-- An IPv4 address in an IPv6 wrapper is judged like the address itself, by the screen of peers and
-- by the screen of resolved addresses.
pub is_dialable_ip-mapped :
    (a b c d : ℕ) (strict : Bool)
    → b < 256
    → d < 256
    → (is_dialable_ip (mapped a b c d) strict ≡ is_dialable_ip (v4 a b c d) strict)
      × (is_dialable_resolved_ip (mapped a b c d) strict
          ≡ is_dialable_resolved_ip (v4 a b c d) strict)
unfolding is_dialable_ip is_dialable_resolved_ip
is_dialable_ip-mapped a b c d strict hb hd =
    let e = canonical-mapped a b c d hb hd in
    (
      ap
          (λ ip.
            if is_loopback ip || (is_unspecified ip || is_multicast ip)
            then false
            else accepted strict ip)
          e,
      ap (λ ip. if is_loopback ip then true else is_dialable_ip ip strict) e,
    )

-- The filter of resolved addresses keeps, in order, those that pass.
abbrev AreDialable : Bool → List SocketAddr → Type 0
AreDialable strict = All (λ a. is_dialable_resolved_ip a.ip strict ≡ true)

kept_addrs-AreDialable :
    (strict : Bool) (addrs : List SocketAddr) → AreDialable strict (kept_addrs strict addrs)
unfolding kept_addrs
kept_addrs-AreDialable strict [] = tt
kept_addrs-AreDialable strict (a ∷ addrs) =
    of_if (AreDialable strict) (is_dialable_resolved_ip a.ip strict) (a ∷ kept_addrs strict addrs)
      (kept_addrs strict addrs) (λ e. (e, kept_addrs-AreDialable strict addrs))
      (λ _. kept_addrs-AreDialable strict addrs)

kept_addrs-nil :
    (strict : Bool) (addrs : List SocketAddr)
    → kept_addrs strict addrs ≡ []
    → All (λ a. is_dialable_resolved_ip a.ip strict ≡ false) addrs
unfolding kept_addrs
kept_addrs-nil strict [] h = tt
kept_addrs-nil strict (a ∷ addrs) h = elim (Bool-cases (is_dialable_resolved_ip a.ip strict)) [
  | inl e ↦ let bad = rw e at h in absurd (cons_nil a (kept_addrs strict addrs) bad)
  | inr e ↦ (e, kept_addrs-nil strict addrs (rw e at h))
]
  where
    cons_nil : (a : SocketAddr) (rest : List SocketAddr) → a ∷ rest ≡ [] → ⊥
    cons_nil a rest h = cc

is_empty-nil : (addrs : List SocketAddr) → is_empty addrs ≡ true → addrs ≡ []
is_empty-nil [] h = refl
is_empty-nil (a ∷ addrs) h = cc

-- The filter fails closed: it gives some addresses, all of which pass, or the tracker error, and
-- then none of them passes.
pub filter_dialable_addrs_lem :
    (addrs : List SocketAddr) (strict : Bool)
    → ((kept : List SocketAddr) × (filter_dialable_addrs addrs strict ≡ ok kept)
        × (is_empty kept ≡ false)
        × All (λ a. is_dialable_resolved_ip a.ip strict ≡ true) kept)
      ⊎ ((filter_dialable_addrs addrs strict ≡ err Error.tracker)
          × All (λ a. is_dialable_resolved_ip a.ip strict ≡ false) addrs)
unfolding filter_dialable_addrs
filter_dialable_addrs_lem addrs strict =
    let kept = kept_addrs strict addrs in
    elim (Bool-cases (is_empty kept)) [
      | inl e ↦ inr (rw e refl, kept_addrs-nil strict addrs (is_empty-nil kept e))
      | inr e ↦ inl (kept, rw e refl, e, kept_addrs-AreDialable strict addrs)
    ]
