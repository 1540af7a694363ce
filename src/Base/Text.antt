-- ===== src/Base/Text.antt =====
-- `str::from_utf8` of the standard library: which bytes are text; and the bytes of a literal.
use Prim.Native.Char.{code}
use Prim.Native.String.{String}
use rustytorrent.Base.{
  ℕ, Bool, true, false, ◌&&◌, List, [], ◌∷◌, Option, none, some, leb, ◌==◌, if◌then◌else◌,
}

-- The bytes of an ASCII literal.
abbrev pub codes : String → List ℕ
codes String.[] = []
codes (String.◌∷◌ c s) = code c ∷ codes s

-- The range of a byte that must follow.
abbrev pub Range : Type 0
Range = ℕ × ℕ

abbrev any : Range
any = (0x80, 0xbf)

-- What must follow a first byte, if it may stand first. The narrower ranges leave out overlong
-- forms, surrogates and what lies beyond U+10FFFF.
unfoldable pub followers : ℕ → Option (List Range)
followers b =
    if leb b 0x7f
    then some []
    else if leb 0xc2 b && leb b 0xdf
    then some (any ∷ [])
    else if b == 0xe0
    then some ((0xa0, 0xbf) ∷ any ∷ [])
    else if b == 0xed
    then some ((0x80, 0x9f) ∷ any ∷ [])
    else if leb 0xe1 b && leb b 0xef
    then some (any ∷ any ∷ [])
    else if b == 0xf0
    then some ((0x90, 0xbf) ∷ any ∷ any ∷ [])
    else if leb 0xf1 b && leb b 0xf3
    then some (any ∷ any ∷ any ∷ [])
    else if b == 0xf4
    then some ((0x80, 0x8f) ∷ any ∷ any ∷ [])
    else none

unfoldable pub utf8_from : List Range → List ℕ → Bool
unfolding followers
utf8_from [] [] = true
utf8_from (r ∷ rs) [] = false
utf8_from ((low, high) ∷ rs) (b ∷ bs) = leb low b && (leb b high && utf8_from rs bs)
utf8_from [] (b ∷ bs) = elim (followers b) [ none ↦ false | some rs ↦ utf8_from rs bs ]

unfoldable pub is_utf8 : List ℕ → Bool
unfolding utf8_from
is_utf8 bs = utf8_from [] bs
