-- ===== src/Dht/Bucket/Invariant.antt =====
-- src/dht/routing.rs: a k-bucket holds at most eight contacts, no two of one node, and `insert`
-- does what its comment says.
use rustytorrent.Base.{
  ℕ, ◌≤◌, ◌<◌, ◌≡◌, ◌⊎◌, refl, ap, inl, inr, Bool-cases, Bool, true, false, Option, none, some,
  List, [], ◌∷◌, ◌++◌, arith, length, ltb, All,
}
use rustytorrent.Dht.NodeId.{NodeId}
use rustytorrent.Dht.Bucket.{
  Contact, bucket_size, is_good, take_out, kept, has_id, is_stale, replace_stale, insert_found,
  insert,
}

module _ {Addr : Type 0} where
  -- No contact of the list has the id.
  abbrev pub Absent : NodeId → List (Contact Addr) → Type 0
  Absent id = All (λ c. has_id id c ≡ false)

  -- Each contact's id does not occur behind it.
  abbrev pub HasDistinctIds : List (Contact Addr) → Type 0
  HasDistinctIds [] = Unit
  HasDistinctIds (c ∷ cs) = Absent c.id cs × HasDistinctIds cs

  abbrev pub IsValid : List (Contact Addr) → Type 0
  IsValid cs = (length cs ≤ bucket_size) × HasDistinctIds cs

  -- What `take_out` finds: nothing, or the first contact with the property, between the ones
  -- before it, which lack it, and the ones behind.
  abbrev pub Splits :
      (Contact Addr → Bool)
      → List (Contact Addr)
      → Option (Contact Addr × List (Contact Addr))
      → Type 0
  Splits p cs none = All (λ c. p c ≡ false) cs
  Splits p cs (some (c, rest)) =
      (front : List (Contact Addr)) × (back : List (Contact Addr)) × (cs ≡ front ++ c ∷ back)
      × (rest ≡ front ++ back)
      × (p c ≡ true)
      × All (λ d. p d ≡ false) front

  kept-Splits :
      (p : Contact Addr → Bool) (c : Contact Addr) (cs : List (Contact Addr))
      (r : Option (Contact Addr × List (Contact Addr)))
      → p c ≡ false
      → Splits p cs r
      → Splits p (c ∷ cs) (kept c r)
  unfolding kept
  kept-Splits p c cs none e s = (e, s)
  kept-Splits p c cs (some (d, rest)) e (front, back, whole, left, hit, miss) =
      (c ∷ front, back, ap (◌∷◌ c) whole, ap (◌∷◌ c) left, hit, (e, miss))

  pub take_out-Splits :
      (p : Contact Addr → Bool) (cs : List (Contact Addr)) → Splits p cs (take_out p cs)
  unfolding take_out
  take_out-Splits p [] = tt
  take_out-Splits p (c ∷ cs) = elim (Bool-cases (p c)) [
    | inl e ↦ rw e ([], cs, refl, refl, e, tt)
    | inr e ↦ rw e (kept-Splits p c cs (take_out p cs) e (take_out-Splits p cs))
  ]

  -- The policy of `KBucket::insert`, as its comment states it: a known contact is refreshed and
  -- becomes the most recently seen; else a bucket with room takes the contact; else the oldest
  -- stale contact makes room for it; else it is refused and nothing changes.
  abbrev pub Follows : ℕ → List (Contact Addr) → Contact Addr → List (Contact Addr) × Bool → Type 0
  Follows now cs c r =
      ((front : List (Contact Addr)) × (back : List (Contact Addr)) × (known : Contact Addr) × (cs
          ≡ front ++ known ∷ back)
        × (has_id c.id known ≡ true)
        × Absent c.id front
        × (r ≡ (
          (front ++ back) ++ record known { last_seen = c.last_seen; addr = c.addr } ∷ [],
          true,
        )))
      ⊎ (Absent c.id cs × (length cs < bucket_size) × (r ≡ (cs ++ c ∷ [], true)))
      ⊎ ((front : List (Contact Addr)) × (back : List (Contact Addr)) × (stale : Contact Addr)
          × Absent c.id cs
          × (bucket_size ≤ length cs)
          × (cs ≡ front ++ stale ∷ back)
          × (is_good now stale ≡ false)
          × All (λ d. is_stale now d ≡ false) front
          × (r ≡ ((front ++ back) ++ c ∷ [], true)))
      ⊎ (Absent c.id cs
          × (bucket_size ≤ length cs)
          × All (λ d. is_stale now d ≡ false) cs
          × (r ≡ (cs, false)))

  replace-Follows :
      (now : ℕ) (cs : List (Contact Addr)) (c : Contact Addr)
      (o : Option (Contact Addr × List (Contact Addr)))
      → Absent c.id cs
      → bucket_size ≤ length cs
      → Splits (is_stale now) cs o
      → Follows now cs c (replace_stale cs c o)
  unfolding replace_stale
  replace-Follows now cs c none a l s = inr (inr (inr (a, l, s, refl)))
  replace-Follows now cs c (some (stale, rest)) a l (front, back, whole, left, old, before) =
      inr (inr (inl (front, back, stale, a, l, whole, ground arith, before, rw left refl)))

  found-Follows :
      (now : ℕ) (cs : List (Contact Addr)) (c : Contact Addr)
      (o : Option (Contact Addr × List (Contact Addr)))
      → Splits (has_id c.id) cs o
      → Follows now cs c (insert_found now cs c o)
  unfolding insert_found
  found-Follows now cs c (some (known, rest)) (front, back, whole, left, hit, before) =
      inl (front, back, known, whole, hit, before, rw left refl)
  found-Follows now cs c none a = elim (Bool-cases (ltb (length cs) bucket_size)) [
    | inl room ↦ rw room (inr (inl (a, ground arith, refl)))
    | inr full ↦ rw full (
        replace-Follows now cs c (take_out (is_stale now) cs) a (ground arith)
          (take_out-Splits (is_stale now) cs))
  ]

  -- `insert` follows the policy that its comment states, in every case.
  pub insert-Follows :
      (now : ℕ) (cs : List (Contact Addr)) (c : Contact Addr) → Follows now cs c (insert now cs c)
  unfolding insert
  insert-Follows now cs c =
      found-Follows now cs c (take_out (has_id c.id) cs) (take_out-Splits (has_id c.id) cs)
