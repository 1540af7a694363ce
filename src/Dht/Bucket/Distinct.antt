-- ===== src/Dht/Bucket/Distinct.antt =====
-- src/dht/routing.rs: `KBucket::insert` keeps a bucket within its size and its nodes distinct.
use rustytorrent.Base.Bytes.{bytes_eq_comm}
use rustytorrent.Base.{
  ℕ, suc, ◌≡◌, ap, subst, ◌∙◌, inl, inr, Bool, false, List, [], ◌∷◌, ◌++◌, arith, length,
  length-append, All, All-append,
}
use rustytorrent.Dht.Bucket.{Contact, has_id, insert}
use rustytorrent.Dht.Bucket.Invariant.{Absent, HasDistinctIds, IsValid, Follows, insert-Follows}

pub All-remove {ℓ κ} :
    {A : Type ℓ} (P : A → Type κ) (front back : List A) (x : A)
    → All P (front ++ x ∷ back)
    → P x × All P (front ++ back)
All-remove P [] back x h = h
All-remove P (y ∷ front) back x h =
    let rest = All-remove P front back x h.1 in (rest.0, (h.0, rest.1))

module _ {Addr : Type 0} where
  HasDistinctIds-snoc :
      (cs : List (Contact Addr)) (c : Contact Addr)
      → HasDistinctIds cs
      → Absent c.id cs
      → HasDistinctIds (cs ++ c ∷ [])
  HasDistinctIds-snoc [] c d a = (tt, tt)
  HasDistinctIds-snoc (x ∷ cs) c d a = (
    All-append (λ y. has_id x.id y ≡ false) cs (c ∷ []) d.0 (bytes_eq_comm c.id x.id ∙ a.0, tt),
    HasDistinctIds-snoc cs c d.1 a.1,
  )

  HasDistinctIds-remove :
      (front back : List (Contact Addr)) (x : Contact Addr)
      → HasDistinctIds (front ++ x ∷ back)
      → HasDistinctIds (front ++ back) × Absent x.id (front ++ back)
  HasDistinctIds-remove [] back x d = (d.1, d.0)
  HasDistinctIds-remove (y ∷ front) back x d =
      let rest = HasDistinctIds-remove front back x d.1 in
      let here = All-remove (λ z. has_id y.id z ≡ false) front back x d.0 in
      ((here.1, rest.0), (bytes_eq_comm y.id x.id ∙ here.0, rest.1))

  length-remove :
      (front back : List (Contact Addr)) (x : Contact Addr)
      → length (front ++ x ∷ back) ≡ suc (length (front ++ back))
  length-remove front back x =
      omega (arith, length-append front (x ∷ back), length-append front back)

  -- After any insertion a bucket still holds at most eight contacts of distinct nodes.
  pub bucket_insert-IsValid :
      (now : ℕ) (cs : List (Contact Addr)) (c : Contact Addr)
      → IsValid cs
      → IsValid (insert now cs c).0
  bucket_insert-IsValid now cs c v = by_case (insert now cs c) (insert-Follows now cs c)
    where
      by_case : (r : List (Contact Addr) × Bool) → Follows now cs c r → IsValid r.0
      by_case r (inl (front, back, known, whole, hit, before, is_r)) =
          let d = HasDistinctIds-remove front back known (subst HasDistinctIds whole v.1) in
          rw is_r (
            omega (
              arith,
              ap length whole,
              length-remove front back known,
              length-append (front ++ back)
                  (record known { last_seen = c.last_seen; addr = c.addr } ∷ []),
              v.0,
            ),
            HasDistinctIds-snoc (front ++ back) _ d.0 d.1,
          )
      by_case r (inr (inl (a, room, is_r))) =
          rw is_r (omega (arith, length-append cs (c ∷ [])), HasDistinctIds-snoc cs c v.1 a)
      by_case r (inr (inr (inl (front, back, stale, a, full, whole, old, before, is_r)))) =
          let d = HasDistinctIds-remove front back stale (subst HasDistinctIds whole v.1) in
          let gone =
            All-remove (λ y. has_id c.id y ≡ false) front back stale
              (subst (Absent c.id) whole a) in
          rw is_r (
            omega (
              arith,
              ap length whole,
              length-remove front back stale,
              length-append (front ++ back) (c ∷ []),
              v.0,
            ),
            HasDistinctIds-snoc (front ++ back) c d.0 gone.1,
          )
      by_case r (inr (inr (inr (a, full, good, is_r)))) = rw is_r v
