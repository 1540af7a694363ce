-- ===== src/Dht/Routing/Invariant.antt =====
-- src/dht/routing.rs: each contact of the table stands in the bucket of its distance, buckets keep
-- within their size, and the node itself is never in its table.
use rustytorrent.Base.Bytes.{bytes_eq}
use rustytorrent.Base.{
  ℕ, zero, suc, ◌≡◌, ◌≢◌, ◌⊎◌, refl, ap, subst, ◌∙◌, inl, inr, Bool-cases, Option-cases, Bool, some,
  List, [], ◌∷◌, ◌++◌, arith, length, length-set, length-replicate, All, All-append, get_or, set,
  replicate,
}
use rustytorrent.Dht.NodeId.{NodeId, IsNodeId, bucket_index}
use rustytorrent.Dht.NodeId.Distance.{bucket_index-none_iff}
use rustytorrent.Dht.Bucket
use rustytorrent.Dht.Bucket.{Contact, has_id, is_stale}
use rustytorrent.Dht.Bucket.Invariant as BucketInvariant
use rustytorrent.Dht.Bucket.Distinct.{bucket_insert-IsValid, All-remove}
use rustytorrent.Dht.Routing.{RoutingTable, new, insert_at, insert}

module _ {Addr : Type 0} where
  -- The contacts of bucket i have the bucket index i.
  abbrev pub AreAt : NodeId → ℕ → List (Contact Addr) → Type 0
  AreAt local_id i = All (λ c. bucket_index local_id c.id ≡ some i)

  pub record IsValid (t : RoutingTable Addr) : Type 0 where
    pub count : length t.buckets ≡ 160
    pub bucket_valid : (i : ℕ) → BucketInvariant.IsValid (get_or t.buckets i [])
    pub placed : (i : ℕ) → AreAt t.local_id i (get_or t.buckets i [])

  get_or-set :
      (bs : List (List (Contact Addr))) (i j : ℕ) (b : List (Contact Addr))
      → (get_or (set bs i b) j [] ≡ get_or bs j []) ⊎ ((i ≡ j) × (get_or (set bs i b) j [] ≡ b))
  get_or-set [] i j b = inl refl
  get_or-set (x ∷ bs) zero zero b = inr (refl, refl)
  get_or-set (x ∷ bs) zero (suc j) b = inl refl
  get_or-set (x ∷ bs) (suc i) zero b = inl refl
  get_or-set (x ∷ bs) (suc i) (suc j) b = elim (get_or-set bs i j b) [
    | inl e ↦ inl e
    | inr (s, e) ↦ inr (ap suc s, e)
  ]

  -- An insertion puts into a bucket only contacts of its old ones' ids and the new one's.
  insert-AreAt :
      (local_id : NodeId) (i now : ℕ) (cs : List (Contact Addr)) (c : Contact Addr)
      → AreAt local_id i cs
      → bucket_index local_id c.id ≡ some i
      → AreAt local_id i (Bucket.insert now cs c).0
  insert-AreAt local_id i now cs c a e =
      by_case (Bucket.insert now cs c) (BucketInvariant.insert-Follows now cs c)
    where
      At : Contact Addr → Type 0
      At d = bucket_index local_id d.id ≡ some i

      by_case :
          (r : List (Contact Addr) × Bool)
          → BucketInvariant.Follows now cs c r
          → AreAt local_id i r.0
      by_case r (inl (front, back, known, whole, hit, before, is_r)) =
          let parts = All-remove At front back known (subst (AreAt local_id i) whole a) in
          rw is_r (All-append At (front ++ back) _ parts.1 (parts.0, tt))
      by_case r (inr (inl (absent, room, is_r))) = rw is_r (All-append At cs _ a (e, tt))
      by_case r (inr (inr (inl (front, back, stale, absent, full, whole, old, before, is_r)))) =
          let parts = All-remove At front back stale (subst (AreAt local_id i) whole a) in
          rw is_r (All-append At (front ++ back) _ parts.1 (e, tt))
      by_case r (inr (inr (inr (absent, full, good, is_r)))) = rw is_r a

  get_or-replicate :
      (n i : ℕ) → get_or (replicate n (let b : List (Contact Addr) = [] in b)) i [] ≡ []
  get_or-replicate zero i = refl
  get_or-replicate (suc n) zero = refl
  get_or-replicate (suc n) (suc i) = get_or-replicate n i

  pub table_new-IsValid : (local_id : NodeId) → IsValid (new {Addr = Addr} local_id)
  unfolding new
  table_new-IsValid local_id = record {
    count = length-replicate 160 (let b : List (Contact Addr) = [] in b);
    bucket_valid = λ i. rw (get_or-replicate 160 i) (omega arith, tt);
    placed = λ i. rw (get_or-replicate 160 i) tt;
  }

  -- Inserting any contact keeps the table well formed: 160 buckets, each within its size and with
  -- contacts of distinct nodes, and every contact in the bucket of its distance.
  pub table_insert-IsValid :
      (now : ℕ) (t : RoutingTable Addr) (c : Contact Addr) → IsValid t → IsValid (insert now t c).0
  unfolding insert
  table_insert-IsValid now t c v = elim (Bool-cases (bytes_eq c.id t.local_id)) [
    | inl own ↦ rw own v
    | inr other ↦ elim (Option-cases (bucket_index t.local_id c.id)) [
      | inl e ↦ rw (other, e) v
      | inr (i, e) ↦ rw (other, e) (put i e)
    ]
  ]
    where
      put : (i : ℕ) → bucket_index t.local_id c.id ≡ some i → IsValid (insert_at now t c (some i)).0
      put i e = record {
        count = length-set t.buckets i _ ∙ v.count;
        bucket_valid = λ j.
            elim (get_or-set t.buckets i j (Bucket.insert now (get_or t.buckets i []) c).0) [
              | inl same ↦ rw same (v.bucket_valid j)
              | inr (hit, new_one) ↦
                  rw new_one
                    (bucket_insert-IsValid now (get_or t.buckets i []) c (v.bucket_valid i))
            ];
        placed = λ j.
            elim (get_or-set t.buckets i j (Bucket.insert now (get_or t.buckets i []) c).0) [
              | inl same ↦ rw same (v.placed j)
              | inr (hit, new_one) ↦ rw new_one (
                  subst (λ k. AreAt t.local_id k (Bucket.insert now (get_or t.buckets i []) c).0)
                    hit (insert-AreAt t.local_id i now (get_or t.buckets i []) c (v.placed i) e))
            ];
      }

  -- A well-formed table of a node whose id is 20 bytes holds no contact with that id, in any bucket.
  pub own_id_absent :
      (t : RoutingTable Addr) (i : ℕ)
      → IsValid t
      → IsNodeId t.local_id
      → All (λ c. c.id ≢ t.local_id) (get_or t.buckets i [])
  own_id_absent t i v w = absent (get_or t.buckets i []) (v.placed i)
    where
      absent : (cs : List (Contact Addr)) → AreAt t.local_id i cs → All (λ c. c.id ≢ t.local_id) cs
      absent [] h = tt
      absent (c ∷ cs) h = (
        λ e.
            let none_here = (bucket_index-none_iff t.local_id t.local_id w w).1 refl in
            let here = subst (λ x. bucket_index t.local_id x ≡ some i) e h.0 in cc,
        absent cs h.1,
      )
