-- ===== src/Tracker/Udp/Target/Sorted.antt =====
-- src/tracker/udp.rs: the sort puts the addresses in order, and keeps each.
use rustytorrent.Base.{◌≡◌, inl, inr, true, List, [], ◌∷◌, Bool-cases, of_if, All}
use rustytorrent.Net.Screen.{SocketAddr}
use rustytorrent.Tracker.Udp.Target.{addr_le, insert_addr, sort_addrs}
use rustytorrent.Tracker.Udp.Target.Order.{addr_le_trans, addr_le_total}

-- No later address comes before an earlier one.
abbrev pub AreSorted : List SocketAddr → Type 0
AreSorted [] = Unit
AreSorted (a ∷ addrs) = All (λ b. addr_le a b ≡ true) addrs × AreSorted addrs

-- A property of all of them, also in their order.
insert_addr-All :
    (P : SocketAddr → Type 0) (a : SocketAddr) (addrs : List SocketAddr)
    → P a
    → All P addrs
    → All P (insert_addr a addrs)
unfolding insert_addr
insert_addr-All P a [] h hs = (h, tt)
insert_addr-All P a (b ∷ bs) h hs =
    of_if (All P) (addr_le a b) _ _ (λ _. (h, hs)) (λ _. (hs.0, insert_addr-All P a bs h hs.1))

pub sort_addrs-All :
    (P : SocketAddr → Type 0) (addrs : List SocketAddr) → All P addrs → All P (sort_addrs addrs)
unfolding sort_addrs
sort_addrs-All P [] h = tt
sort_addrs-All P (a ∷ addrs) h =
    insert_addr-All P a (sort_addrs addrs) h.0 (sort_addrs-All P addrs h.1)

All-insert_addr :
    (P : SocketAddr → Type 0) (a : SocketAddr) (addrs : List SocketAddr)
    → All P (insert_addr a addrs)
    → P a × All P addrs
unfolding insert_addr
All-insert_addr P a [] h = h
All-insert_addr P a (b ∷ bs) h = elim (Bool-cases (addr_le a b)) [
  | inl e ↦ rw e at h
  | inr e ↦
      let (hb, hs) : P b × All P (insert_addr a bs) = rw e at h in
      let (ha, rest) = All-insert_addr P a bs hs in (ha, (hb, rest))
]

pub All-sort_addrs :
    (P : SocketAddr → Type 0) (addrs : List SocketAddr) → All P (sort_addrs addrs) → All P addrs
unfolding sort_addrs
All-sort_addrs P [] h = tt
All-sort_addrs P (a ∷ addrs) h =
    let (ha, hs) = All-insert_addr P a (sort_addrs addrs) h in (ha, All-sort_addrs P addrs hs)

pub All-weaken :
    (P Q : SocketAddr → Type 0) (addrs : List SocketAddr)
    → ((a : SocketAddr) → P a → Q a)
    → All P addrs
    → All Q addrs
All-weaken P Q [] f h = tt
All-weaken P Q (a ∷ addrs) f h = (f a h.0, All-weaken P Q addrs f h.1)

insert_addr-AreSorted :
    (a : SocketAddr) (addrs : List SocketAddr) → AreSorted addrs → AreSorted (insert_addr a addrs)
unfolding insert_addr
insert_addr-AreSorted a [] h = (tt, tt)
insert_addr-AreSorted a (b ∷ bs) h =
    of_if AreSorted (addr_le a b) _ _
      (λ e. ((e, All-weaken _ _ bs (λ c k. addr_le_trans a b c e k) h.0), h))
      (λ e. (insert_addr-All _ a bs (addr_le_total a b e) h.0, insert_addr-AreSorted a bs h.1))

pub sort_addrs-AreSorted : (addrs : List SocketAddr) → AreSorted (sort_addrs addrs)
unfolding sort_addrs
sort_addrs-AreSorted [] = tt
sort_addrs-AreSorted (a ∷ addrs) =
    insert_addr-AreSorted a (sort_addrs addrs) (sort_addrs-AreSorted addrs)
