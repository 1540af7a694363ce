-- ===== src/Storage/Layout/Ranges.antt =====
-- src/storage/layout.rs: the slices of a range hold exactly the range's bytes.
use rustytorrent.Base.{
  ℕ, zero, suc, ◌+◌, ◌-◌, ◌≤◌, ◌≡◌, refl, sym, ap, ap₂, ◌∙◌, inl, inr, Bool-cases, List, [], ◌∷◌,
  ◌++◌, arith, leb, leb→le, min, max, length, length-drop, take, drop,
}
use rustytorrent.Storage.Layout.{FileSpan, Layout, end_of, slices_from, slices}

-- The files lie one behind the other from the offset on, and file number i + k holds the bytes
-- `content (i + k)`, as many as its length says.
abbrev pub Holds : (ℕ → List ℕ) → ℕ → ℕ → List FileSpan → Type 0
Holds content i offset [] = Unit
Holds content i offset (f ∷ fs) =
    (f.start ≡ offset)
    × (length (content i) ≡ f.length)
    × Holds content (i + 1) (offset + f.length) fs

-- The torrent's bytes: the files' one behind the other.
abbrev pub stream : (ℕ → List ℕ) → ℕ → List FileSpan → List ℕ
stream content i [] = []
stream content i (f ∷ fs) = content i ++ stream content (i + 1) fs

-- What is read from the files at the slices.
abbrev pub read_slices : (ℕ → List ℕ) → List (ℕ × ℕ × ℕ) → List ℕ
read_slices content [] = []
read_slices content ((i, off, n) ∷ ss) = take n (drop off (content i)) ++ read_slices content ss

take_all : (n : ℕ) (xs : List ℕ) → length xs ≤ n → take n xs ≡ xs
take_all zero [] h = refl
take_all zero (x ∷ xs) h = absurd (omega arith)
take_all (suc n) [] h = refl
take_all (suc n) (x ∷ xs) h = ap (◌∷◌ x) (take_all n xs (omega arith))

drop_all : (n : ℕ) (xs : List ℕ) → length xs ≤ n → drop n xs ≡ []
drop_all zero [] h = refl
drop_all zero (x ∷ xs) h = absurd (omega arith)
drop_all (suc n) [] h = refl
drop_all (suc n) (x ∷ xs) h = drop_all n xs (omega arith)

drop-take : (a b d : ℕ) (xs : List ℕ) → d ≡ b - a → drop a (take b xs) ≡ take d (drop a xs)
drop-take zero b d xs e = ap (λ k. take k xs) (let same : b ≡ d = omega arith in same)
drop-take (suc a) zero zero [] e = refl
drop-take (suc a) zero zero (x ∷ xs) e = refl
drop-take (suc a) zero (suc d) xs e = absurd (omega arith)
drop-take (suc a) (suc b) zero [] e = refl
drop-take (suc a) (suc b) (suc d) [] e = refl
drop-take (suc a) (suc b) d (x ∷ xs) e = drop-take a b d xs (omega arith)

take_nil : (n : ℕ) → take n (let none_left : List ℕ = [] in none_left) ≡ []
take_nil zero = refl
take_nil (suc n) = refl

drop_nil : (n : ℕ) → drop n (let none_left : List ℕ = [] in none_left) ≡ []
drop_nil zero = refl
drop_nil (suc n) = refl

-- A range of two parts is its range of the first, then its range of the second.
range-append :
    (a b k m : ℕ) (c r : List ℕ)
    → k ≡ a - length c
    → m ≡ b - length c
    → drop a (take b (c ++ r)) ≡ drop a (take b c) ++ drop k (take m r)
range-append a b k m [] r ek em =
    let same_a : a ≡ k = omega arith in
    let same_b : b ≡ m = omega arith in
    ap₂ (λ x y. drop x (take y r)) same_a same_b
    ∙ sym (ap (λ x. x ++ drop k (take m r)) (ap (drop a) (take_nil b) ∙ drop_nil a))
range-append zero zero k m (x ∷ c) r ek em =
    let none_left : m ≡ 0 = omega arith in
    sym (ap (drop k) (ap (λ y. take y r) none_left) ∙ drop_nil k)
range-append zero (suc b) k m (x ∷ c) r ek em =
    ap (◌∷◌ x) (range-append zero b k m c r (omega arith) (omega arith))
range-append (suc a) zero k m (x ∷ c) r ek em =
    let none_left : m ≡ 0 = omega arith in
    sym (ap (drop k) (ap (λ y. take y r) none_left) ∙ drop_nil k)
range-append (suc a) (suc b) k m (x ∷ c) r ek em =
    range-append a b k m c r (omega arith) (omega arith)

module _ (content : ℕ → List ℕ) (start end : ℕ) where
  -- The range's part of the bytes that begin at the offset.
  abbrev part : ℕ → List ℕ → List ℕ
  part offset bytes = drop (start - offset) (take (end - offset) bytes)

  part-append :
      (offset n : ℕ) (c r : List ℕ)
      → length c ≡ n
      → part offset (c ++ r) ≡ part offset c ++ part (offset + n) r
  part-append offset n c r e =
      range-append (start - offset) (end - offset) _ _ c r (omega arith) (omega arith)

  -- A range that ends before the bytes, begins behind them or is empty has no part of them.
  part_empty :
      (offset : ℕ) (c : List ℕ)
      → min end (offset + length c) ≤ max start offset
      → part offset c ≡ []
  part_empty offset c h =
      drop-take (start - offset) (end - offset) _ c refl
      ∙ elim (Bool-cases (leb (length c) (start - offset))) [
        | inl short ↦ ap (take _) (drop_all (start - offset) c (leb→le _ _ short)) ∙ take_nil _
        | inr long ↦
            let none_left : end - offset - (start - offset) ≡ 0 = ground arith in
            ap (λ k. take k (drop (start - offset) c)) none_left
      ]

  -- Otherwise it is what the slice reads.
  part_slice :
      (offset : ℕ) (c : List ℕ)
      → part offset c
        ≡ take (min end (offset + length c) - max start offset) (drop (max start offset - offset) c)
  part_slice offset c =
      let skip : start - offset ≡ max start offset - offset = omega arith in
      drop-take (start - offset) (end - offset) _ c refl
      ∙ ap (λ k. take (end - offset - (start - offset)) (drop k c)) skip
      ∙ elim (Bool-cases (leb end (offset + length c))) [
        | inl inside ↦
            let same : end - offset - (start - offset)
                ≡ min end (offset + length c) - max start offset =
              ground arith in
            ap (λ k. take k (drop (max start offset - offset) c)) same
        | inr beyond ↦
            let size = length-drop (max start offset - offset) c in
            take_all _ (drop (max start offset - offset) c) (ground (arith, size))
            ∙ sym (take_all _ (drop (max start offset - offset) c) (ground (arith, size)))
      ]

  slices_step :
      (i offset : ℕ) (f : FileSpan) (fs : List FileSpan)
      → f.start ≡ offset
      → length (content i) ≡ f.length
      → read_slices content (slices_from (i + 1) fs start end)
        ≡ part (offset + f.length) (stream content (i + 1) fs)
      → read_slices content (slices_from i (f ∷ fs) start end)
        ≡ part offset (content i ++ stream content (i + 1) fs)
  unfolding slices_from
  slices_step i offset f fs at_ size later = elim (Bool-cases (leb (end_of f) start)) [
    | inl before ↦ rw before (skipped (ground arith))
    | inr reaches ↦ elim (Bool-cases (leb end f.start)) [
      | inl behind ↦
          rw (reaches, behind)
            (let none_left : end - offset ≡ 0 = ground arith in
              sym (
                ap (λ k. drop (start - offset) (take k (content i ++ stream content (i + 1) fs)))
                  none_left
                ∙ drop_nil (start - offset)))
      | inr begins ↦ elim (Bool-cases (leb (min end (end_of f)) (max start f.start))) [
        | inl empty ↦ rw (reaches, begins, empty) (skipped (ground arith))
        | inr some_bytes ↦
            rw (reaches, begins, some_bytes)
              (ap₂ ◌++◌ (rw (at_, ← size) (sym (part_slice offset (content i)))) later
                ∙ sym (part-append offset f.length (content i) _ size))
      ]
    ]
  ]
    where
      skipped :
          min end (offset + length (content i)) ≤ max start offset
          → read_slices content (slices_from (i + 1) fs start end)
            ≡ part offset (content i ++ stream content (i + 1) fs)
      skipped h =
          later
          ∙ sym (
              part-append offset f.length (content i) _ size
              ∙ ap (λ x. x ++ part (offset + f.length) (stream content (i + 1) fs))
                  (part_empty offset (content i) h))

  slices_from_lem :
      (i offset : ℕ) (fs : List FileSpan)
      → Holds content i offset fs
      → read_slices content (slices_from i fs start end) ≡ part offset (stream content i fs)
  unfolding slices_from
  slices_from_lem i offset [] h = sym (ap (drop (start - offset)) (take_nil _) ∙ drop_nil _)
  slices_from_lem i offset (f ∷ fs) (at_, size, h) =
      slices_step i offset f fs at_ size (slices_from_lem (i + 1) (offset + f.length) fs h)

-- Reading the files at the slices of a range gives the range's bytes of the torrent, no more and no
-- less and in their order, when the files lie one behind the other and hold as many bytes as their
-- lengths say.
pub slices_lem :
    (content : ℕ → List ℕ) (l : Layout) (global_start n : ℕ)
    → Holds content 0 0 l.files
    → read_slices content (slices l global_start n)
      ≡ take n (drop global_start (stream content 0 l.files))
unfolding slices
slices_lem content l global_start n h =
    slices_from_lem content global_start (global_start + n) 0 0 l.files h
    ∙ drop-take (global_start - 0) (global_start + n - 0) n (stream content 0 l.files) (omega arith)
    ∙ ap (λ k. take n (drop k (stream content 0 l.files)))
        (let same : global_start - 0 ≡ global_start = omega arith in same)
