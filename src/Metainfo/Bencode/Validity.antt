-- ===== src/Metainfo/Bencode/Validity.antt =====
-- src/metainfo/bencode.rs: the values that the printer and the parser have in common.
use rustytorrent.Base.{ℕ, suc, ◌^◌, ◌<◌, max, ◌≡◌, true, List, Option, none, some, length}
use rustytorrent.Base.Decimal.{IsI64}
use rustytorrent.Metainfo.Bencode.{
  BencodeValue, Items, Fields, no_items, no_fields, int, bytes, list, dict, item, field, follows,
}

unfoldable mutual
  -- Inside how many containers the deepest value lies. An empty container has none in it.
  pub height : BencodeValue → ℕ
  height (int i) = 0
  height (bytes b) = 0
  height (list xs) = items_height xs
  height (dict fs) = fields_height fs

  pub items_height : Items → ℕ
  items_height no_items = 0
  items_height (item v xs) = max (suc (height v)) (items_height xs)

  pub fields_height : Fields → ℕ
  fields_height no_fields = 0
  fields_height (field k v fs) = max (suc (height v)) (fields_height fs)

unfoldable mutual
  unfolding follows

  -- The integers are of 64 bits, the lengths fit a `usize`, the keys of each dictionary increase.
  pub IsValid : BencodeValue → Type 0
  IsValid (int i) = IsI64 i
  IsValid (bytes b) = length b < 2 ^ 64
  IsValid (list xs) = ItemsAreValid xs
  IsValid (dict fs) = FieldsAreValid fs none

  pub ItemsAreValid : Items → Type 0
  ItemsAreValid no_items = Unit
  ItemsAreValid (item v xs) = IsValid v × ItemsAreValid xs

  pub FieldsAreValid : Fields → Option (List ℕ) → Type 0
  FieldsAreValid no_fields previous = Unit
  FieldsAreValid (field k v fs) previous =
      (length k < 2 ^ 64) × (follows previous k ≡ true) × IsValid v × FieldsAreValid fs (some k)
