-- ===== src/Metainfo/Bencode/Slices/Tokens.antt =====
-- src/metainfo/bencode.rs: integers and strings are read off their own bytes.
use rustytorrent.Base.{
  ℕ, ◌≡◌, refl, sym, ap, ◌∙◌, inl, inr, false, List, [], ◌∷◌, ◌++◌, Option, none, some, arith, ltb,
  ◌==◌, Bool-cases, length, length-take, take, take-append-drop, take-length_append,
  drop-length_append, length-append,
}
use rustytorrent.Base.Decimal.{parse_usize}
use rustytorrent.Metainfo.Bencode.{
  parsed, ◌>>=◌, pure, until, int, parse_int, int_of, split_at, parse_bytes,
}
use rustytorrent.Metainfo.Bencode.Slices.{
  Repeats, RepeatsMore, Repeats-RepeatsMore, Repeats-map, Repeats-cons, Repeats-wrap,
  Repeats-cons_wrap, Repeats-bind, Repeats-bind_more,
}

-- The leaves: a delimiter, a length, an integer and a string.
until-RepeatsMore :
    (b c : ℕ) (xs : List ℕ)
    → Repeats xs (λ front full tail. until b full ≡ parsed front tail) (until b xs)
    → RepeatsMore (c ∷ xs) (λ front full tail. until b full ≡ parsed front tail) (until b (c ∷ xs))
unfolding until
until-RepeatsMore b c xs h = elim (Bool-cases (c == b)) [
  | inl e ↦ rw (RepeatsMore, e) ([], refl, λ tail. rw e refl)
  | inr e ↦
      rw (RepeatsMore, e)
        (Repeats-cons_wrap c xs (λ front full tail. until b full ≡ parsed front tail)
          (λ front full tail. until b full ≡ parsed front tail) (λ front. c ∷ front) (until b xs) h
          (λ front full tail q. rw (e, q) refl))
]

until-Repeats :
    (b : ℕ) (xs : List ℕ)
    → Repeats xs (λ front full tail. until b full ≡ parsed front tail) (until b xs)
until-Repeats b [] = unfold until in tt
until-Repeats b (c ∷ xs) =
    Repeats-RepeatsMore (c ∷ xs) (λ front full tail. until b full ≡ parsed front tail)
      (until b (c ∷ xs)) (until-RepeatsMore b c xs (until-Repeats b xs))

split_at-append : (s tail : List ℕ) → split_at (length s) (s ++ tail) ≡ parsed s tail
unfolding split_at
split_at-append s tail =
    let enough : ltb (length (s ++ tail)) (length s) ≡ false =
      (let n = length-append s tail in ground arith) in
    rw (enough, take-length_append s tail, drop-length_append s tail) refl

split_at-Repeats :
    (len : ℕ) (xs : List ℕ)
    → Repeats xs (λ b full tail. split_at len full ≡ parsed b tail) (split_at len xs)
unfolding split_at
split_at-Repeats len xs = elim (Bool-cases (ltb (length xs) len)) [
  | inl e ↦ rw e tt
  | inr e ↦
      let n : length (take len xs) ≡ len = (let m = length-take len xs in ground arith) in
      rw e (
        take len xs,
        sym (take-append-drop len xs),
        λ tail.
            ap (λ n. split_at n (take len xs ++ tail)) (sym n) ∙ split_at-append (take len xs) tail,
      )
]

pure-Repeats :
    {A : Type 0} (o : Option A) (rest : List ℕ)
    → Repeats rest (λ a mid tail. pure o mid ≡ parsed a tail) (pure o rest)
pure-Repeats none rest = tt
pure-Repeats (some a) rest = ([], refl, λ tail. refl)

-- `split_at`, if there is a length.
sized-Repeats :
    (o : Option ℕ) (rest : List ℕ)
    → Repeats rest
        (λ b mid tail. (pure o mid >>= split_at) ≡ parsed b tail)
        (pure o rest >>= split_at)
sized-Repeats none rest = tt
sized-Repeats (some len) rest = split_at-Repeats len rest

pub parse_int-RepeatsMore :
    (c : ℕ) (xs : List ℕ)
    → RepeatsMore (c ∷ xs) (λ v full tail. parse_int full ≡ parsed v tail) (parse_int (c ∷ xs))
unfolding parse_int
parse_int-RepeatsMore c xs =
    Repeats-cons c xs (λ v full tail. parse_int (c ∷ full) ≡ parsed v tail)
      (λ v full tail. parse_int full ≡ parsed v tail) (parse_int (c ∷ xs))
      (Repeats-bind xs (λ digits full tail. until 101 full ≡ parsed digits tail)
        (λ v full tail. parse_int (c ∷ full) ≡ parsed v tail) (until 101 xs) _
        (until-Repeats 101 xs)
        λ digits rest.
          Repeats-wrap rest (λ i mid tail. pure (int_of digits) mid ≡ parsed i tail)
            (λ v mid tail.
              (full : List ℕ)
              → until 101 full ≡ parsed digits mid
              → parse_int (c ∷ full) ≡ parsed v tail)
            int (pure (int_of digits) rest) (pure-Repeats (int_of digits) rest)
            λ i mid tail q full e. rw (e, q) refl)
      λ v full tail q. q

pub parse_bytes-RepeatsMore :
    (c : ℕ) (xs : List ℕ)
    → RepeatsMore (c ∷ xs) (λ b full tail. parse_bytes full ≡ parsed b tail) (parse_bytes (c ∷ xs))
unfolding parse_bytes
parse_bytes-RepeatsMore c xs =
    Repeats-bind_more c xs (λ digits full tail. until 58 full ≡ parsed digits tail)
      (λ b full tail. parse_bytes full ≡ parsed b tail) (until 58 (c ∷ xs)) _
      (until-RepeatsMore 58 c xs (until-Repeats 58 xs))
      λ digits rest.
        Repeats-map rest
          (λ b mid tail. (pure (parse_usize digits) mid >>= split_at) ≡ parsed b tail)
          (λ b mid tail.
            (full : List ℕ)
            → until 58 (c ∷ full) ≡ parsed digits mid
            → parse_bytes (c ∷ full) ≡ parsed b tail)
          _ (sized-Repeats (parse_usize digits) rest) λ b mid tail q full e. rw (e, q) refl
