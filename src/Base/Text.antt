-- ===== src/Base/Text.antt =====
-- Go's `strings.TrimSpace` over native texts.
use Prim.Native.Nat.{ℕ, ◌+◌}
use Prim.Native.Char.{code}
use Prim.Native.String.{String, len}
use mathlib.Core.Bool.{Bool, true, false, ◌&&◌, ◌||◌}
use fishyume.Base.Tests.{leb, ltb, ◌==◌, if◌then◌else◌}

-- `unicode.IsSpace`: U+0009 to U+000D, space, U+0085, U+00A0 and the category Z code points.
unfoldable pub is_space : ℕ → Bool
is_space c =
    (leb 0x9 c && leb c 0xd)
    || c == 0x20
    || c == 0x85
    || c == 0xa0
    || c == 0x1680
    || (leb 0x2000 c && leb c 0x200a)
    || c == 0x2028
    || c == 0x2029
    || c == 0x202f
    || c == 0x205f
    || c == 0x3000

abbrev pub is_empty : String → Bool
is_empty String.[] = true
is_empty (String.◌∷◌ c s) = false

trim_left : String → String
trim_left String.[] = String.[]
trim_left (String.◌∷◌ c s) =
    let rest = trim_left s in if is_space (code c) then rest else String.◌∷◌ c s

trim_right : String → String
trim_right String.[] = String.[]
trim_right (String.◌∷◌ c s) =
    let rest = trim_right s in
    if is_space (code c) && is_empty rest then String.[] else String.◌∷◌ c rest

unfoldable pub trim_space : String → String
unfolding trim_left trim_right is_space
trim_space s = trim_right (trim_left s)

-- `strings.TrimSpace(s) == ""`
unfoldable pub is_blank : String → Bool
unfolding trim_space
is_blank s = is_empty (trim_space s)

utf8_width : ℕ → ℕ
utf8_width c = if ltb c 0x80 then 1 else if ltb c 0x800 then 2 else if ltb c 0x10000 then 3 else 4

-- `len([]byte(s))` of a text in UTF-8.
unfoldable pub byte_length : String → ℕ
unfolding utf8_width
byte_length String.[] = 0
byte_length (String.◌∷◌ c s) = utf8_width (code c) + byte_length s

-- `strings.HasPrefix(s, prefix)`
unfoldable pub has_prefix : (s prefix : String) → Bool
has_prefix s String.[] = true
has_prefix String.[] (String.◌∷◌ p ps) = false
has_prefix (String.◌∷◌ c s) (String.◌∷◌ p ps) = code c == code p && has_prefix s ps

-- `strings.Contains(s, part)`
unfoldable pub contains_text : (s part : String) → Bool
unfolding has_prefix
contains_text String.[] part = is_empty part
contains_text (String.◌∷◌ c s) part = has_prefix (String.◌∷◌ c s) part || contains_text s part

abbrev pub is_letter : ℕ → Bool
is_letter c = (leb b'a' c && leb c b'z') || (leb b'A' c && leb c b'Z')

-- The character class `[A-Za-z0-9_-]`.
abbrev pub is_name_rest : ℕ → Bool
is_name_rest c = is_letter c || (leb b'0' c && leb c b'9') || c == b'_' || c == b'-'

unfoldable pub all_name_rest : String → Bool
all_name_rest String.[] = true
all_name_rest (String.◌∷◌ c s) = is_name_rest (code c) && all_name_rest s

-- The pattern `^[A-Za-z][A-Za-z0-9_-]{0,most}$`; its characters are all ASCII, so `len` counts them.
unfoldable pub name_matches : (most : ℕ) → String → Bool
unfolding all_name_rest
name_matches most String.[] = false
name_matches most (String.◌∷◌ c s) = is_letter (code c) && all_name_rest s && leb (len s) most
