-- ===== src/Dht/Routing/Closest.antt =====
-- src/dht/routing.rs: `closest` returns the nearest contacts, nearest first.
use mathlib.Core.List.{Perm}
use mathlib.Core.List.Perm
use rustytorrent.Base.{
  ℕ, zero, suc, ◌≡◌, refl, ap, ◌∙◌, inl, inr, Bool-cases, true, false, List, [], ◌∷◌, ◌++◌, arith,
  length, length-take, min, take, drop, All, take-append-drop,
}
use rustytorrent.Dht.NodeId.{NodeId, distance}
use rustytorrent.Dht.Bucket.{Contact}
use rustytorrent.Dht.Routing.{RoutingTable, flat, bytes_le, nearer, insert_sorted, sort, closest}

bytes_le_total : (a b : List ℕ) → bytes_le a b ≡ false → bytes_le b a ≡ true
unfolding bytes_le
bytes_le_total [] b e = cc
bytes_le_total (x ∷ a) [] e = refl
bytes_le_total (x ∷ a) (y ∷ b) e = ground (arith, bytes_le_total a b)

bytes_le_trans : (a b c : List ℕ) → bytes_le a b ≡ true → bytes_le b c ≡ true → bytes_le a c ≡ true
unfolding bytes_le
bytes_le_trans [] b c h k = refl
bytes_le_trans (x ∷ a) [] c h k = cc
bytes_le_trans (x ∷ a) (y ∷ b) [] h k = cc
bytes_le_trans (x ∷ a) (y ∷ b) (z ∷ c) h k = ground (arith, bytes_le_trans a b c)

module _ {Addr : Type 0} (target : NodeId) where
  -- c is at least as near to the target as every contact of the list.
  abbrev pub IsNearest : Contact Addr → List (Contact Addr) → Type 0
  IsNearest c = All (λ d. nearer target c d ≡ true)

  abbrev pub IsSorted : List (Contact Addr) → Type 0
  IsSorted [] = Unit
  IsSorted (c ∷ cs) = IsNearest c cs × IsSorted cs

  IsNearest-trans :
      (c d : Contact Addr) (cs : List (Contact Addr))
      → nearer target c d ≡ true
      → IsNearest d cs
      → IsNearest c cs
  IsNearest-trans c d [] h n = tt
  IsNearest-trans c d (x ∷ cs) h n = (
    unfold nearer in
        bytes_le_trans (distance c.id target) (distance d.id target) (distance x.id target) h n.0,
    IsNearest-trans c d cs h n.1,
  )

  insert_sorted-IsNearest :
      (b c : Contact Addr) (cs : List (Contact Addr))
      → nearer target b c ≡ true
      → IsNearest b cs
      → IsNearest b (insert_sorted target c cs)
  unfolding insert_sorted
  insert_sorted-IsNearest b c [] h n = (h, tt)
  insert_sorted-IsNearest b c (d ∷ cs) h n = elim (Bool-cases (nearer target c d)) [
    | inl e ↦ rw e (h, n)
    | inr e ↦ rw e (n.0, insert_sorted-IsNearest b c cs h n.1)
  ]

  insert_sorted-IsSorted :
      (c : Contact Addr) (cs : List (Contact Addr))
      → IsSorted cs
      → IsSorted (insert_sorted target c cs)
  unfolding insert_sorted
  insert_sorted-IsSorted c [] s = (tt, tt)
  insert_sorted-IsSorted c (d ∷ cs) s = elim (Bool-cases (nearer target c d)) [
    | inl e ↦ rw e ((e, IsNearest-trans c d cs e s.0), s)
    | inr e ↦
        rw e (insert_sorted-IsNearest d c cs (further c d e) s.0, insert_sorted-IsSorted c cs s.1)
  ]
    where
      further : (c d : Contact Addr) → nearer target c d ≡ false → nearer target d c ≡ true
      further c d e =
          unfold nearer in bytes_le_total (distance c.id target) (distance d.id target) e

  sort-IsSorted : (cs : List (Contact Addr)) → IsSorted (sort target cs)
  unfolding sort
  sort-IsSorted [] = tt
  sort-IsSorted (c ∷ cs) = insert_sorted-IsSorted c (sort target cs) (sort-IsSorted cs)

  insert_sorted-perm :
      (c : Contact Addr) (cs : List (Contact Addr)) → Perm (insert_sorted target c cs) (c ∷ cs)
  unfolding insert_sorted
  insert_sorted-perm c [] = Perm.rfl
  insert_sorted-perm c (d ∷ cs) = elim (Bool-cases (nearer target c d)) [
    | inl e ↦ rw e Perm.rfl
    | inr e ↦ rw e (Perm.trans (Perm.cons d (insert_sorted-perm c cs)) (Perm.swap c d cs))
  ]

  sort-perm : (cs : List (Contact Addr)) → Perm (sort target cs) cs
  unfolding sort
  sort-perm [] = Perm.rfl
  sort-perm (c ∷ cs) =
      Perm.trans (insert_sorted-perm c (sort target cs)) (Perm.cons c (sort-perm cs))

  length-insert_sorted :
      (c : Contact Addr) (cs : List (Contact Addr))
      → length (insert_sorted target c cs) ≡ suc (length cs)
  unfolding insert_sorted
  length-insert_sorted c [] = refl
  length-insert_sorted c (d ∷ cs) = elim (Bool-cases (nearer target c d)) [
    | inl e ↦ rw e refl
    | inr e ↦ rw e (ap suc (length-insert_sorted c cs))
  ]

  length-sort : (cs : List (Contact Addr)) → length (sort target cs) ≡ length cs
  unfolding sort
  length-sort [] = refl
  length-sort (c ∷ cs) = length-insert_sorted c (sort target cs) ∙ ap suc (length-sort cs)

  -- In a sorted list every one of the first n is at least as near as every one of the others.
  take-IsNearest :
      (n : ℕ) (cs : List (Contact Addr))
      → IsSorted cs
      → All (λ c. IsNearest c (drop n cs)) (take n cs)
  take-IsNearest zero cs s = tt
  take-IsNearest (suc n) [] s = tt
  take-IsNearest (suc n) (c ∷ cs) s = (drop-nearest n c cs s.0, take-IsNearest n cs s.1)
    where
      drop-nearest :
          (n : ℕ) (c : Contact Addr) (cs : List (Contact Addr))
          → IsNearest c cs
          → IsNearest c (drop n cs)
      drop-nearest zero c cs h = h
      drop-nearest (suc n) c [] h = tt
      drop-nearest (suc n) c (d ∷ cs) h = drop-nearest n c cs h.1

  take-IsSorted : (n : ℕ) (cs : List (Contact Addr)) → IsSorted cs → IsSorted (take n cs)
  take-IsSorted zero cs s = tt
  take-IsSorted (suc n) [] s = tt
  take-IsSorted (suc n) (c ∷ cs) s = (near n c cs s.0, take-IsSorted n cs s.1)
    where
      near :
          (n : ℕ) (c : Contact Addr) (cs : List (Contact Addr))
          → IsNearest c cs
          → IsNearest c (take n cs)
      near zero c cs h = tt
      near (suc n) c [] h = tt
      near (suc n) c (d ∷ cs) h = (h.0, near n c cs h.1)

  -- `closest` returns `count` contacts, or all if there are fewer, nearest first; with the ones
  -- left out they are the table's contacts, and none of those is nearer than one returned.
  pub closest_lem :
      (t : RoutingTable Addr) (count : ℕ)
      → (length (closest t target count) ≡ min count (length (flat t.buckets)))
        × IsSorted (closest t target count)
        × ((left_out : List (Contact Addr)) × Perm
              (closest t target count ++ left_out)
              (flat t.buckets)
            × All (λ c. IsNearest c left_out) (closest t target count))
  unfolding closest
  closest_lem t count =
      let all = sort target (flat t.buckets) in
      (
        length-take count all ∙ ap (min count) (length-sort (flat t.buckets)),
        take-IsSorted count all (sort-IsSorted (flat t.buckets)),
        (
          drop count all,
          rw (take-append-drop count all) (sort-perm (flat t.buckets)),
          take-IsNearest count all (sort-IsSorted (flat t.buckets)),
        ),
      )
