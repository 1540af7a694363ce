-- ===== src/Examples/Bencoding.antt =====
-- src/metainfo/bencode.rs: the theorems at concrete values.
use rustytorrent.Base.{ℕ, ◌-◌, ◌≤◌, ◌≡◌, refl, List, [], ◌∷◌, ◌++◌, arith, length, replicate}
use rustytorrent.Base.Decimal.{
  pos, negsuc, is_digit, parse_usize, magnitude, value_from, at_most, parse_i64, positive, negative,
  negate,
}
use rustytorrent.Metainfo.Bencode.{
  BencodeValue, int, bytes, list, dict, no_items, item, no_fields, field, parsed, refused, to_bytes,
  parse_value, bytes_lt, follows, parse_value_depth, kind_of, is_end, is_too_deep, parse_bytes,
  until, split_at, parse_int, int_of, has_leading_zero,
}
use rustytorrent.Metainfo.Bencode.Totality.{Leaves, parse_value_ends}
use rustytorrent.Metainfo.Bencode.Validity.{height, IsValid}
use rustytorrent.Metainfo.Bencode.RoundTrip.{parse_value-to_bytes}
use rustytorrent.Metainfo.Bencode.Sound.{parse_value_sound}
use rustytorrent.Metainfo.Bencode.Nesting.{parse_value_refuses}

-- {"a": -3, "ab": ["hi", 0]}
abbrev info : BencodeValue
info = dict (
    field (97 ∷ []) (int (negsuc 2)) (
      field (97 ∷ 98 ∷ []) (list (item (bytes (104 ∷ 105 ∷ [])) (item (int (pos 0)) no_items)))
        no_fields))

info-IsValid : IsValid info
unfolding IsValid follows bytes_lt
info-IsValid =
    (omega arith, refl, omega arith, (omega arith, refl, (omega arith, (omega arith, tt)), tt))

info_shallow : height info ≤ 100
unfolding height
info_shallow = omega arith

-- "d1:ai-3e2:abl2:hii0eee"
printed : List ℕ
printed =
    100 ∷ 49 ∷ 58 ∷ 97 ∷ 105 ∷ 45 ∷ 51 ∷ 101 ∷ 50 ∷ 58 ∷ 97 ∷ 98 ∷ 108 ∷ 50 ∷ 58 ∷ 104 ∷ 105 ∷ 105
    ∷ 48 ∷ 101 ∷ 101 ∷ 101 ∷ []

parses : parse_value printed ≡ parsed info []
unfolding parse_value printed parse_value_depth kind_of is_digit is_end is_too_deep parse_bytes
    until parse_usize magnitude value_from at_most split_at follows bytes_lt parse_int int_of
    has_leading_zero parse_i64 positive negative negate
parses = refl

parse_value_ends_example : Leaves (length printed - 1) (parse_value printed)
parse_value_ends_example = parse_value_ends printed

parse_value-to_bytes_example : parse_value (to_bytes info ++ 1 ∷ 2 ∷ []) ≡ parsed info (1 ∷ 2 ∷ [])
parse_value-to_bytes_example = parse_value-to_bytes info (1 ∷ 2 ∷ []) info-IsValid info_shallow

parse_value_sound_example : IsValid info × (height info ≤ 100)
parse_value_sound_example = parse_value_sound printed [] info parses

parse_value_refuses_example : parse_value (replicate 102 108 ++ 101 ∷ []) ≡ refused
parse_value_refuses_example = parse_value_refuses 102 (101 ∷ []) (omega arith)
