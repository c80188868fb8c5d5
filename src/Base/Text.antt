-- ===== src/Base/Text.antt =====
-- Go strings as byte sequences.
use Prim.Native.Char.{code}
use Prim.Native.String.{String}
use mathlib.Core.List.{reverse}
use pigeongram_chat.Base.{
  ℕ, zero, suc, ◌+◌, ◌/◌, ◌%◌, Bool, true, false, ◌&&◌, ◌||◌, List, [], ◌∷◌, ◌++◌, map,
  if◌then◌else◌, ltb, leb, ◌==◌, nat_eq, length, drop,
}

abbrev pub Text : Type 0
Text = List ℕ

-- The UTF-8 bytes of a code point.
abbrev utf8 : ℕ → Text
utf8 c =
    if ltb c 0x80
    then c ∷ []
    else if ltb c 0x800
    then (0xc0 + c / 64) ∷ (0x80 + c % 64) ∷ []
    else if ltb c 0x10000
    then (0xe0 + c / 4096) ∷ (0x80 + (c / 64) % 64) ∷ (0x80 + c % 64) ∷ []
    else (0xf0 + c / 262144)
      ∷ (0x80 + (c / 4096) % 64)
      ∷ (0x80 + (c / 64) % 64)
      ∷ (0x80 + c % 64)
      ∷ []

-- A string literal of the source.
abbrev pub bytes : String → Text
bytes String.[] = []
bytes (String.◌∷◌ c s) = utf8 (code c) ++ bytes s

-- `strings.HasPrefix`
unfoldable pub has_prefix : Text → Text → Bool
has_prefix s [] = true
has_prefix [] (p ∷ ps) = false
has_prefix (c ∷ s) (p ∷ ps) = c == p && has_prefix s ps

-- The byte length of the white space that the text begins with, 0 if there is none. The table holds
-- Unicode's white space as `unicode.IsSpace` reads it; `at_end` has each encoding backwards.
abbrev is_ascii_space : ℕ → Bool
is_ascii_space c = (leb 9 c && leb c 13) || c == 32

wide_spaces : List Text
wide_spaces =
    (0xc2 ∷ 0x85 ∷ [])
    ∷ (0xc2 ∷ 0xa0 ∷ [])
    ∷ (0xe1 ∷ 0x9a ∷ 0x80 ∷ [])
    ∷ (0xe2 ∷ 0x80 ∷ 0x80 ∷ [])
    ∷ (0xe2 ∷ 0x80 ∷ 0x81 ∷ [])
    ∷ (0xe2 ∷ 0x80 ∷ 0x82 ∷ [])
    ∷ (0xe2 ∷ 0x80 ∷ 0x83 ∷ [])
    ∷ (0xe2 ∷ 0x80 ∷ 0x84 ∷ [])
    ∷ (0xe2 ∷ 0x80 ∷ 0x85 ∷ [])
    ∷ (0xe2 ∷ 0x80 ∷ 0x86 ∷ [])
    ∷ (0xe2 ∷ 0x80 ∷ 0x87 ∷ [])
    ∷ (0xe2 ∷ 0x80 ∷ 0x88 ∷ [])
    ∷ (0xe2 ∷ 0x80 ∷ 0x89 ∷ [])
    ∷ (0xe2 ∷ 0x80 ∷ 0x8a ∷ [])
    ∷ (0xe2 ∷ 0x80 ∷ 0xa8 ∷ [])
    ∷ (0xe2 ∷ 0x80 ∷ 0xa9 ∷ [])
    ∷ (0xe2 ∷ 0x80 ∷ 0xaf ∷ [])
    ∷ (0xe2 ∷ 0x81 ∷ 0x9f ∷ [])
    ∷ (0xe3 ∷ 0x80 ∷ 0x80 ∷ [])
    ∷ []

-- The length of the first entry that the text begins with.
prefix_width : List Text → Text → ℕ
prefix_width [] s = 0
prefix_width (p ∷ ps) s = if has_prefix s p then length p else prefix_width ps s

space_width : List Text → Text → ℕ
space_width wide [] = 0
space_width wide (c ∷ s) = if is_ascii_space c then 1 else prefix_width wide (c ∷ s)

-- Drop white space from the front; the counter holds the bytes of a space that are still to go.
trim_front : List Text → ℕ → Text → Text
trim_front wide n [] = []
trim_front wide (suc n) (c ∷ s) = trim_front wide n s
trim_front wide zero (c ∷ s) = elim (space_width wide (c ∷ s)) [
  | zero ↦ c ∷ s
  | suc k ↦ trim_front wide k s
]

-- `strings.TrimSpace`
unfoldable pub trim_space : Text → Text
unfolding trim_front space_width prefix_width wide_spaces has_prefix
trim_space s =
    reverse (trim_front (map reverse wide_spaces) 0 (reverse (trim_front wide_spaces 0 s)))

-- What encoding/json compares of a field's name: letters without their case, with the two code
-- points outside ASCII that fold to a letter (U+017F to s, U+212A to k).
unfoldable pub fold_key : Text → Text
unfolding has_prefix
fold_key [] = []
fold_key (c ∷ s) =
    let rest = fold_key s in
    if leb b'A' c && leb c b'Z'
    then (c + 32) ∷ rest
    else if c == 0xc5 && has_prefix rest (0xbf ∷ [])
    then b's' ∷ drop 1 rest
    else if c == 0xe2 && has_prefix rest (0x84 ∷ 0xaa ∷ [])
    then b'k' ∷ drop 2 rest
    else c ∷ rest
