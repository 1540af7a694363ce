-- ===== src/Metainfo/Bencode/Slices.antt =====
-- src/metainfo/bencode.rs: a value is read off its own bytes, whatever stands behind them.
pub mod Calls
pub mod Tokens
pub mod Values
use rustytorrent.Base.{
  ℕ, zero, suc, ◌+◌, ◌*◌, ◌<◌, ◌≤◌, ◌≡◌, refl, sym, ap, ◌∙◌, ◌⊎◌, inl, inr, Bool, true, false, List,
  [], ◌∷◌, ◌++◌, Option, none, some, arith, ltb, ◌==◌, Bool-cases, length, of_test, length-take,
  take, drop, append_assoc, take-append-drop, take-length_append, drop-length_append, length-append,
}
use rustytorrent.Base.Decimal.{parse_usize}
use rustytorrent.Metainfo.Bencode.Totality.{Leaves, parse_value_ends}
use rustytorrent.Metainfo.Bencode.{
  BencodeValue, Items, Fields, no_items, no_fields, Parsed, parsed, refused, starved, ◌>>=◌, wrap,
  pure, until, int, bytes, list, dict, item, field, parse_int, int_of, split_at, parse_bytes, Kind,
  an_int, a_list, a_dict, a_string, unexpected, kind_of, is_end, is_too_deep, follows,
  parse_value_depth, parse_list, parse_dict, parse_value,
}

-- The input is a slice and the rest, and whatever stands behind the slice, P holds of both and of
-- what stands behind.
abbrev pub Spans : List ℕ → List ℕ → (List ℕ → List ℕ → Type 0) → Type 0
Spans input rest P = (s : List ℕ) × (input ≡ s ++ rest) × ((tail : List ℕ) → P (s ++ tail) tail)

-- The same where the slice has a byte at least.
abbrev pub SpansMore : List ℕ → List ℕ → (List ℕ → List ℕ → Type 0) → Type 0
SpansMore [] rest P = ⊥
SpansMore (c ∷ xs) rest P = Spans xs rest (λ full tail. P (c ∷ full) tail)

pub Spans-SpansMore :
    (input rest : List ℕ) (P : List ℕ → List ℕ → Type 0)
    → SpansMore input rest P
    → Spans input rest P
Spans-SpansMore [] rest P h = absurd h
Spans-SpansMore (c ∷ xs) rest P (s, e, h) = (c ∷ s, ap (λ l. c ∷ l) e, h)

module _ {A : Type 0} where
  abbrev pub Repeats : List ℕ → (A → List ℕ → List ℕ → Type 0) → Parsed A → Type 0
  Repeats input P (parsed a rest) = Spans input rest (P a)
  Repeats input P refused = Unit
  Repeats input P starved = Unit

  abbrev pub RepeatsMore : List ℕ → (A → List ℕ → List ℕ → Type 0) → Parsed A → Type 0
  RepeatsMore input P (parsed a rest) = SpansMore input rest (P a)
  RepeatsMore input P refused = Unit
  RepeatsMore input P starved = Unit

  pub Repeats-RepeatsMore :
      (input : List ℕ) (P : A → List ℕ → List ℕ → Type 0) (p : Parsed A)
      → RepeatsMore input P p
      → Repeats input P p
  Repeats-RepeatsMore input P (parsed a rest) h = Spans-SpansMore input rest (P a) h
  Repeats-RepeatsMore input P refused h = tt
  Repeats-RepeatsMore input P starved h = tt

  pub Repeats-map :
      (input : List ℕ) (P Q : A → List ℕ → List ℕ → Type 0) (p : Parsed A)
      → Repeats input P p
      → ((a : A) (full tail : List ℕ) → P a full tail → Q a full tail)
      → Repeats input Q p
  Repeats-map input P Q (parsed a rest) (s, e, h) g = (s, e, λ tail. g a (s ++ tail) tail (h tail))
  Repeats-map input P Q refused h g = tt
  Repeats-map input P Q starved h g = tt

  -- The first byte belongs to the slice.
  pub Repeats-cons :
      (c : ℕ) (xs : List ℕ) (P Q : A → List ℕ → List ℕ → Type 0) (p : Parsed A)
      → Repeats xs P p
      → ((a : A) (full tail : List ℕ) → P a full tail → Q a (c ∷ full) tail)
      → RepeatsMore (c ∷ xs) Q p
  Repeats-cons c xs P Q (parsed a rest) (s, e, h) g = (s, e, λ tail. g a (s ++ tail) tail (h tail))
  Repeats-cons c xs P Q refused h g = tt
  Repeats-cons c xs P Q starved h g = tt

  pub Repeats-uncons :
      (c : ℕ) (xs : List ℕ) (P : A → List ℕ → List ℕ → Type 0) (p : Parsed A)
      → RepeatsMore (c ∷ xs) P p
      → Repeats xs (λ a full tail. P a (c ∷ full) tail) p
  Repeats-uncons c xs P (parsed a rest) h = h
  Repeats-uncons c xs P refused h = tt
  Repeats-uncons c xs P starved h = tt

module _ {A B : Type 0} where
  pub Repeats-wrap :
      (input : List ℕ) (P : A → List ℕ → List ℕ → Type 0) (Q : B → List ℕ → List ℕ → Type 0)
      (g : A → B) (p : Parsed A)
      → Repeats input P p
      → ((a : A) (full tail : List ℕ) → P a full tail → Q (g a) full tail)
      → Repeats input Q (wrap g p)
  Repeats-wrap input P Q g (parsed a rest) (s, e, h) k =
      (s, e, λ tail. k a (s ++ tail) tail (h tail))
  Repeats-wrap input P Q g refused h k = tt
  Repeats-wrap input P Q g starved h k = tt

  pub Repeats-cons_wrap :
      (c : ℕ) (xs : List ℕ) (P : A → List ℕ → List ℕ → Type 0) (Q : B → List ℕ → List ℕ → Type 0)
      (g : A → B) (p : Parsed A)
      → Repeats xs P p
      → ((a : A) (full tail : List ℕ) → P a full tail → Q (g a) (c ∷ full) tail)
      → RepeatsMore (c ∷ xs) Q (wrap g p)
  Repeats-cons_wrap c xs P Q g (parsed a rest) (s, e, h) k =
      (s, e, λ tail. k a (s ++ tail) tail (h tail))
  Repeats-cons_wrap c xs P Q g refused h k = tt
  Repeats-cons_wrap c xs P Q g starved h k = tt

  pub RepeatsMore-wrap :
      (c : ℕ) (xs : List ℕ) (P : A → List ℕ → List ℕ → Type 0) (Q : B → List ℕ → List ℕ → Type 0)
      (g : A → B) (p : Parsed A)
      → RepeatsMore (c ∷ xs) P p
      → ((a : A) (full tail : List ℕ) → P a (c ∷ full) tail → Q (g a) (c ∷ full) tail)
      → RepeatsMore (c ∷ xs) Q (wrap g p)
  RepeatsMore-wrap c xs P Q g (parsed a rest) (s, e, h) k =
      (s, e, λ tail. k a (s ++ tail) tail (h tail))
  RepeatsMore-wrap c xs P Q g refused h k = tt
  RepeatsMore-wrap c xs P Q g starved h k = tt

  -- One parser behind another.
  pub Repeats-bind :
      (input : List ℕ) (P : A → List ℕ → List ℕ → Type 0) (R : B → List ℕ → List ℕ → Type 0)
      (p : Parsed A) (k : A → List ℕ → Parsed B)
      → Repeats input P p
      → ((a : A) (rest : List ℕ)
          → Repeats rest (λ b mid tail. (full : List ℕ) → P a full mid → R b full tail) (k a rest))
      → Repeats input R (p >>= k)
  Repeats-bind input P R (parsed a rest) k (s, e, h) next = of_next (k a rest) (next a rest)
    where
      of_next :
          (q : Parsed B)
          → Repeats rest (λ b mid tail. (full : List ℕ) → P a full mid → R b full tail) q
          → Repeats input R q
      of_next (parsed b rest') (s', e', h') = (
        s ++ s',
        e ∙ ap (λ l. s ++ l) e' ∙ sym (append_assoc s s' rest'),
        λ tail. rw (append_assoc s s' tail) (h' tail (s ++ (s' ++ tail)) (h (s' ++ tail))),
      )
      of_next refused h' = tt
      of_next starved h' = tt
  Repeats-bind input P R refused k h next = tt
  Repeats-bind input P R starved k h next = tt

  pub Repeats-bind_more :
      (c : ℕ) (xs : List ℕ) (P : A → List ℕ → List ℕ → Type 0) (R : B → List ℕ → List ℕ → Type 0)
      (p : Parsed A) (k : A → List ℕ → Parsed B)
      → RepeatsMore (c ∷ xs) P p
      → ((a : A) (rest : List ℕ)
          → Repeats rest
              (λ b mid tail. (full : List ℕ) → P a (c ∷ full) mid → R b (c ∷ full) tail)
              (k a rest))
      → RepeatsMore (c ∷ xs) R (p >>= k)
  Repeats-bind_more c xs P R p k h next =
      Repeats-cons c xs (λ b full tail. R b (c ∷ full) tail) R (p >>= k)
        (Repeats-bind xs (λ a full tail. P a (c ∷ full) tail) (λ b full tail. R b (c ∷ full) tail) p
          k (Repeats-uncons c xs P p h) next)
        (λ b full tail r. r)
