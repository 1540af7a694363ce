-- ===== src/Tracker/Udp/Target/Choice.antt =====
-- src/tracker/udp.rs: which of the resolved addresses is announced to.
use rustytorrent.Base.{
  ℕ, zero, suc, ◌≡◌, refl, sym, ap, ◌∙◌, inl, inr, Bool, true, false, some, List, [], ◌∷◌,
  if◌then◌else◌, Bool-cases, is_empty, get_elem?, of_if, All,
}
use rustytorrent.Base.Outcome.{Error, Result, ok, err, ◌>>=◌}
use rustytorrent.Net.Screen.{SocketAddr, is_dialable_resolved_ip, kept_addrs, filter_dialable_addrs}
use rustytorrent.Tracker.Udp.Target.{addr_le, sort_addrs, first, pick_udp_addr}
use rustytorrent.Tracker.Udp.Target.Order.{addr_le_antisym, addr_le_refl}
use rustytorrent.Tracker.Udp.Target.Sorted.{
  AreSorted, All-weaken, sort_addrs-All, All-sort_addrs, sort_addrs-AreSorted,
}

-- The screen for an address that a name resolved to.
abbrev pub is_dialable : SocketAddr → Bool
is_dialable a = is_dialable_resolved_ip a.ip false

abbrev pub Occurs : SocketAddr → List SocketAddr → Type 0
Occurs a addrs = (i : ℕ) × (get_elem? addrs i ≡ some a)

-- The least of the addresses that pass; an error if none passes.
abbrev pub IsChoice : List SocketAddr → Result SocketAddr → Type 0
IsChoice addrs (ok a) =
    Occurs a addrs
    × (is_dialable a ≡ true)
    × ((b : SocketAddr) → Occurs b addrs → is_dialable b ≡ true → addr_le a b ≡ true)
IsChoice addrs (err e) =
    (e ≡ Error.tracker) × ((b : SocketAddr) → Occurs b addrs → is_dialable b ≡ false)

kept_addrs-All :
    (P : SocketAddr → Type 0) (addrs : List SocketAddr)
    → All P addrs
    → All (λ a. P a × (is_dialable a ≡ true)) (kept_addrs false addrs)
unfolding kept_addrs
kept_addrs-All P [] h = tt
kept_addrs-All P (a ∷ addrs) h =
    of_if (All (λ a. P a × (is_dialable a ≡ true))) (is_dialable a) _ _
      (λ e. ((h.0, e), kept_addrs-All P addrs h.1)) (λ _. kept_addrs-All P addrs h.1)

All-kept_addrs :
    (P : SocketAddr → Type 0) (addrs : List SocketAddr)
    → All P (kept_addrs false addrs)
    → All (λ a. is_dialable a ≡ true → P a) addrs
unfolding kept_addrs
All-kept_addrs P [] h = tt
All-kept_addrs P (a ∷ addrs) h = elim (Bool-cases (is_dialable a)) [
  | inl e ↦
      let (ha, hs) : P a × All P (kept_addrs false addrs) = rw e at h in
      ((λ _. ha), All-kept_addrs P addrs hs)
  | inr e ↦ ((λ k. cc), All-kept_addrs P addrs (rw e at h))
]

kept_addrs-AreSorted :
    (addrs : List SocketAddr) → AreSorted addrs → AreSorted (kept_addrs false addrs)
unfolding kept_addrs
kept_addrs-AreSorted [] h = tt
kept_addrs-AreSorted (a ∷ addrs) h =
    of_if AreSorted (is_dialable a) _ _
      (λ e. (
        All-weaken _ _ (kept_addrs false addrs) (λ b k. k.0)
            (kept_addrs-All (λ b. addr_le a b ≡ true) addrs h.0),
        kept_addrs-AreSorted addrs h.1,
      ))
      (λ _. kept_addrs-AreSorted addrs h.1)

All-at :
    (P : SocketAddr → Type 0) (addrs : List SocketAddr) (b : SocketAddr)
    → All P addrs
    → Occurs b addrs
    → P b
All-at P [] b h (i, e) = cc
All-at P (a ∷ addrs) b h (zero, e) = rw (of_some e) at h.0
  where
    of_some : some a ≡ some b → a ≡ b
    of_some e = cc
All-at P (a ∷ addrs) b h (suc i, e) = All-at P addrs b h.1 (i, e)

All-occur : (addrs : List SocketAddr) → All (λ a. Occurs a addrs) addrs
All-occur [] = tt
All-occur (a ∷ addrs) =
    ((zero, refl), All-weaken _ _ addrs (λ b k. (suc k.0, k.1)) (All-occur addrs))

-- What is picked of the addresses that the filter keeps.
of_kept-IsChoice :
    (addrs kept : List SocketAddr)
    → All (λ a. Occurs a addrs × (is_dialable a ≡ true)) kept
    → AreSorted kept
    → ((P : SocketAddr → Type 0) → All P kept → All (λ b. is_dialable b ≡ true → P b) addrs)
    → IsChoice addrs ((if is_empty kept then err Error.tracker else ok kept) >>= first)
unfolding first
of_kept-IsChoice addrs [] h sorted all = (
  refl,
  λ b o. elim (Bool-cases (is_dialable b)) [
    | inl e ↦ absurd (All-at (λ b. is_dialable b ≡ true → ⊥) addrs b (all (λ _. ⊥) tt) o e)
    | inr e ↦ e
  ],
)
of_kept-IsChoice addrs (a ∷ kept) h sorted all = (
  h.0.0,
  h.0.1,
  λ b.
      All-at (λ b. is_dialable b ≡ true → addr_le a b ≡ true) addrs b
        (all (λ b. addr_le a b ≡ true) (addr_le_refl a, sorted.0)),
)

pick_udp_addr-IsChoice : (addrs : List SocketAddr) → IsChoice addrs (pick_udp_addr addrs)
unfolding pick_udp_addr filter_dialable_addrs
pick_udp_addr-IsChoice addrs =
    let sorted = sort_addrs addrs in
    of_kept-IsChoice addrs (kept_addrs false sorted)
      (kept_addrs-All (λ a. Occurs a addrs) sorted
        (sort_addrs-All (λ a. Occurs a addrs) addrs (All-occur addrs)))
      (kept_addrs-AreSorted sorted (sort_addrs-AreSorted addrs))
      (λ P h. All-sort_addrs (λ b. is_dialable b ≡ true → P b) addrs (All-kept_addrs P sorted h))

-- The choice is the only one for lists with the same addresses.
IsChoice-unique :
    (xs ys : List SocketAddr) (r s : Result SocketAddr)
    → ((a : SocketAddr) → Occurs a xs → Occurs a ys)
    → ((a : SocketAddr) → Occurs a ys → Occurs a xs)
    → IsChoice xs r
    → IsChoice ys s
    → r ≡ s
IsChoice-unique xs ys (ok a) (ok b) f g (o, d, least) (o', d', least') =
    ap ok (addr_le_antisym a b (least b (g b o') d') (least' a (f a o) d))
IsChoice-unique xs ys (ok a) (err e) f g (o, d, least) (e', refused) =
    let bad = refused a (f a o) in cc
IsChoice-unique xs ys (err e) (ok b) f g (e', refused) (o, d, least) =
    let bad = refused b (g b o) in cc
IsChoice-unique xs ys (err e) (err e') f g (p, _) (q, _) = ap err (p ∙ sym q)

-- Of the addresses that a tracker's name resolved to, the least that passes the screen is taken;
-- if none passes, that is the tracker error. Another answer of the resolver with the same
-- addresses, in any order and however often each, gives the same result.
pub pick_udp_addr_lem :
    (xs ys : List SocketAddr)
    → ((a : SocketAddr) → Occurs a xs → Occurs a ys)
    → ((a : SocketAddr) → Occurs a ys → Occurs a xs)
    → IsChoice xs (pick_udp_addr xs) × (pick_udp_addr xs ≡ pick_udp_addr ys)
pick_udp_addr_lem xs ys f g =
    let choice = pick_udp_addr-IsChoice xs in
    (choice, IsChoice-unique xs ys _ _ f g choice (pick_udp_addr-IsChoice ys))
