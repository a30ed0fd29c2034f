-- ===== src/Base/Texts.antt =====
-- Go strings: the native `String` where the program compares or joins them, and the list of code
-- points (the bytes, if the text is ASCII) where it walks them.
use Prim.Native.Nat.{ℕ, ◌+◌}
use Prim.Native.Char.{code}
use Prim.Native.String.{String}
use mathlib.Core.Bool.{Bool, true, false, not, ◌&&◌, ◌||◌}
use mathlib.Core.List.{List, [], ◌∷◌}
use rungpu_agent.Base.Tests.{leb, ◌==◌, nat_eq, list_eq, if◌then◌else◌}

abbrev pub codes : String → List ℕ
codes String.[] = []
codes (String.◌∷◌ first rest) = code first ∷ codes rest

abbrev pub Text : Type 0
Text = List ℕ

-- strings.HasPrefix on code points.
unfoldable pub has_prefix : List ℕ → List ℕ → Bool
has_prefix s [] = true
has_prefix [] (p ∷ ps) = false
has_prefix (c ∷ cs) (p ∷ ps) = c == p && has_prefix cs ps

abbrev pub is_digit : ℕ → Bool
is_digit c = leb b'0' c && leb c b'9'

abbrev pub is_lower : ℕ → Bool
is_lower c = leb b'a' c && leb c b'z'

abbrev pub is_upper : ℕ → Bool
is_upper c = leb b'A' c && leb c b'Z'

-- A digit of hexadecimal text, as Go's hex decoder takes it.
abbrev pub is_hex : ℕ → Bool
is_hex c = is_digit c || (leb b'a' c && leb c b'f') || (leb b'A' c && leb c b'F')

-- unicode.IsSpace.
abbrev pub is_space : ℕ → Bool
is_space c =
    (leb 9 c && leb c 13)
    || c == 32
    || c == 133
    || c == 160
    || c == 5760
    || (leb 8192 c && leb c 8202)
    || c == 8232
    || c == 8233
    || c == 8239
    || c == 8287
    || c == 12288

-- strings.TrimSpace.
abbrev trim_left : Text → Text
trim_left [] = []
trim_left (c ∷ s) = if is_space c then trim_left s else c ∷ s

abbrev trim_right : Text → Text
trim_right [] = []
trim_right (c ∷ s) = let rest = trim_right s in if is_space c && rest == [] then [] else c ∷ rest

unfoldable pub trim_space : Text → Text
trim_space s = trim_left (trim_right s)

-- unicode.ToLower as far as its result is ASCII: besides A to Z, only the dotted capital I and the
-- Kelvin sign have an ASCII letter as their lower case. Other code points are kept.
abbrev pub lower : ℕ → ℕ
lower c = if is_upper c then c + 32 else if c == 304 then b'i' else if c == 8490 then b'k' else c

-- strings.ToLower, for a comparison with ASCII text.
unfoldable pub to_lower : Text → Text
to_lower [] = []
to_lower (c ∷ s) = lower c ∷ to_lower s

-- strings.FieldsFunc: the maximal runs of characters that are not separators.
abbrev add_to_head : ℕ → List Text → List Text
add_to_head c [] = (c ∷ []) ∷ []
add_to_head c (w ∷ ws) = (c ∷ w) ∷ ws

-- Whether the text begins inside a field.
abbrev starts_field : (ℕ → Bool) → Text → Bool
starts_field sep [] = false
starts_field sep (c ∷ s) = not (sep c)

unfoldable pub fields : (ℕ → Bool) → Text → List Text
fields sep [] = []
fields sep (c ∷ s) =
    let rest = fields sep s in
    if sep c then rest else if starts_field sep s then add_to_head c rest else (c ∷ []) ∷ rest
