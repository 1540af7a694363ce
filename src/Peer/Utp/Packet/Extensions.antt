-- ===== src/Peer/Utp/Packet/Extensions.antt =====
-- src/peer/utp/packet.rs: the extension chain, printed and read.
use rustytorrent.Base.{
  ℕ, zero, suc, ◌%◌, ◌≤◌, ◌<◌, ◌≡◌, ◌≢◌, refl, ap, ap₂, ◌∙◌, inl, inr, Bool-cases, true, false,
  List, [], ◌∷◌, ◌++◌, arith, length, take, drop, All, append_assoc, length-append, length-drop,
  length-take, take-append-drop, take-length_append, drop-length_append, drop-All, ltb, ◌==◌,
}
use rustytorrent.Base.Bytes.{AreBytes}
use rustytorrent.Base.Outcome.{Result, ok, Result-cases, ◌>>=◌}
use rustytorrent.Peer.Utp.Packet.{
  Extension, ext_none, first_kind, encode_extension_chain, decode_extensions,
}

-- Kind 0 ends the chain, and the length byte holds at most 255.
abbrev pub IsEncodable : Extension → Type 0
IsEncodable e = (e.kind ≢ 0) × (length e.body < 256)

-- One round of the decoder's loop, at an entry that is there in full.
decode_entry :
    (fuel kind next : ℕ) (body behind : List ℕ)
    → kind ≢ 0
    → decode_extensions (suc fuel) kind (next ∷ length body ∷ (body ++ behind)) ≡ (
        decode_extensions fuel next behind >>= λ (es, tail).
        ok (record { kind = kind; body = body } ∷ es, tail))
unfolding decode_extensions
decode_entry fuel kind next body behind h =
    rw (not_last, header, fits, take-length_append body behind, drop-length_append body behind) refl
  where
    not_last : (kind == ext_none) ≡ false
    not_last = ground arith

    header : ltb (suc (suc (length (body ++ behind)))) 2 ≡ false
    header = ground arith

    fits : ltb (length (body ++ behind)) (length body) ≡ false
    fits = ground (arith, length-append body behind)

-- A printed chain is read back, whatever stands behind it.
pub decode_extensions-encode :
    (es : List Extension) (fuel : ℕ) (rest : List ℕ)
    → All IsEncodable es
    → length es ≤ fuel
    → decode_extensions fuel (first_kind es) (encode_extension_chain es ++ rest) ≡ ok (es, rest)
unfolding first_kind encode_extension_chain
decode_extensions-encode [] zero rest h l = unfold decode_extensions in refl
decode_extensions-encode [] (suc fuel) rest h l = unfold decode_extensions in refl
decode_extensions-encode (e ∷ es) zero rest h l = absurd (omega arith)
decode_extensions-encode (e ∷ es) (suc fuel) rest h l =
    let byte_fits : length e.body % 256 ≡ length e.body = omega (arith, h.0.1) in
    ap₂ (λ n b. decode_extensions (suc fuel) e.kind (first_kind es ∷ n ∷ b)) byte_fits
      (append_assoc e.body (encode_extension_chain es) rest)
    ∙ decode_entry fuel e.kind (first_kind es) e.body (encode_extension_chain es ++ rest) h.0.0
    ∙ ap
        (λ r.
          ◌>>=◌ {A = List Extension × List ℕ} {B = List Extension × List ℕ} r
            (λ (fs, tail). ok (e ∷ fs, tail)))
        (decode_extensions-encode es fuel rest h.1 (omega arith))

-- The fuel does not matter once there is as much as there are bytes: the loop ends by itself.
pub decode_extensions_fuel :
    (f g next : ℕ) (rest : List ℕ)
    → length rest ≤ f
    → length rest ≤ g
    → decode_extensions f next rest ≡ decode_extensions g next rest
unfolding decode_extensions
decode_extensions_fuel zero zero next rest h k = refl
decode_extensions_fuel zero (suc g) next [] h k = refl
decode_extensions_fuel zero (suc g) next (x ∷ rest) h k = absurd (omega arith)
decode_extensions_fuel (suc f) zero next [] h k = refl
decode_extensions_fuel (suc f) zero next (x ∷ rest) h k = absurd (omega arith)
decode_extensions_fuel (suc f) (suc g) next [] h k = refl
decode_extensions_fuel (suc f) (suc g) next (x ∷ []) h k = refl
decode_extensions_fuel (suc f) (suc g) next (x ∷ n ∷ rest) h k = rw (
    decode_extensions_fuel f g x (drop n rest) (omega (arith, length-drop n rest))
      (omega (arith, length-drop n rest)))

last :
    (next : ℕ) (rest : List ℕ) (es : List Extension) (tail : List ℕ)
    → (next == 0) ≡ true
    → ◌≡◌ {A = Result (List Extension × List ℕ)} (ok ([], rest)) (ok (es, tail))
    → (first_kind es ≡ next) × (encode_extension_chain es ++ tail ≡ rest)
unfolding first_kind encode_extension_chain
last next rest es tail z e = ground arith

rebuild :
    (next x n : ℕ) (r : List ℕ) (fs : List Extension) (t : List ℕ) (es : List Extension)
    (tail : List ℕ)
    → ◌≡◌ {A = Result (List Extension × List ℕ)}
        (ok (record { kind = next; body = take n r } ∷ fs, t))
        (ok (es, tail))
    → first_kind fs ≡ x
    → encode_extension_chain fs ++ t ≡ drop n r
    → n < 256
    → n ≤ length r
    → (first_kind es ≡ next) × (encode_extension_chain es ++ tail ≡ x ∷ n ∷ r)
unfolding first_kind encode_extension_chain
rebuild next x n r fs t es tail e k c b l =
    let entry : Extension = record { kind = next; body = take n r } in
    let is_es : es ≡ entry ∷ fs = cc in
    let is_tail : tail ≡ t = cc in
    let size : length (take n r) % 256 ≡ n = omega (arith, length-take n r) in
    rw (is_es, is_tail)
      (
        refl,
        ap₂ (λ h m. h ∷ m ∷ ((take n r ++ encode_extension_chain fs) ++ t)) k size
            ∙ ap (λ q. x ∷ n ∷ q)
                (append_assoc (take n r) (encode_extension_chain fs) t
                  ∙ ap (◌++◌ (take n r)) c
                  ∙ take-append-drop n r),
      )

-- A chain that is read is the print of its entries.
pub decode_extensions_sound :
    (fuel next : ℕ) (rest : List ℕ) (es : List Extension) (tail : List ℕ)
    → AreBytes rest
    → decode_extensions fuel next rest ≡ ok (es, tail)
    → (first_kind es ≡ next) × (encode_extension_chain es ++ tail ≡ rest)
unfolding decode_extensions encode_extension_chain first_kind
decode_extensions_sound zero next rest es tail b e = elim (Bool-cases (next == 0)) [
  | inl z ↦ last next rest es tail z (rw (z, decode_extensions) at e)
  | inr z ↦ let bad = rw (z, decode_extensions) at e in cc
]
decode_extensions_sound (suc fuel) next [] es tail b e = elim (Bool-cases (next == 0)) [
  | inl z ↦ last next [] es tail z (rw (z, decode_extensions) at e)
  | inr z ↦ let bad = rw (z, decode_extensions) at e in cc
]
decode_extensions_sound (suc fuel) next (x ∷ []) es tail b e = elim (Bool-cases (next == 0)) [
  | inl z ↦ last next (x ∷ []) es tail z (rw (z, decode_extensions) at e)
  | inr z ↦ let bad = rw (z, decode_extensions) at e in cc
]
decode_extensions_sound (suc fuel) next (x ∷ n ∷ r) es tail b e =
    let header : ltb (suc (suc (length r))) 2 ≡ false = ground arith in
    elim (Bool-cases (next == 0)) [
      | inl z ↦ last next (x ∷ n ∷ r) es tail z (rw (z, decode_extensions) at e)
      | inr z ↦ elim (Bool-cases (ltb (length r) n)) [
        | inl short ↦ let bad = rw (z, header, short, decode_extensions) at e in cc
        | inr fits ↦ elim (Result-cases (decode_extensions fuel x (drop n r))) [
          | inl ((fs, t), f) ↦
              let ih = decode_extensions_sound fuel x (drop n r) fs t (drop-All _ n r b.1.1) f in
              rebuild next x n r fs t es tail (rw (z, header, fits, f, decode_extensions) at e) ih.0
                ih.1 b.1.0 (ground arith)
          | inr (y, f) ↦ let bad = rw (z, header, fits, f, decode_extensions) at e in cc
        ]
      ]
    ]
