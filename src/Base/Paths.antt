-- ===== src/Base/Paths.antt =====
-- filepath.Clean on Unix, on code points.
use Prim.Native.Nat.{ℕ}
use mathlib.Core.Bool.{Bool, true, false, ◌&&◌, ◌||◌}
use mathlib.Core.List.{List, [], ◌∷◌, ◌++◌}
use rungpu_agent.Base.Tests.{◌==◌, nat_eq, list_eq, if◌then◌else◌}
use rungpu_agent.Base.Texts.{Text, codes}

-- strings.Split at a character.
abbrev prepend : ℕ → List Text → List Text
prepend c [] = (c ∷ []) ∷ []
prepend c (w ∷ ws) = (c ∷ w) ∷ ws

abbrev pub split : ℕ → Text → List Text
split sep [] = [] ∷ []
split sep (c ∷ s) = let rest = split sep s in if c == sep then [] ∷ rest else prepend c rest

-- strings.Join with "/".
abbrev pub join : List Text → Text
join [] = []
join (s ∷ []) = s
join (s ∷ t ∷ rest) = s ++ b'/' ∷ join (t ∷ rest)

-- The segments so far, the last first. "." and empty segments go; ".." takes the one before it, and
-- at the beginning it goes from a rooted path and stays in another.
abbrev pub add_segment : Bool → List Text → Text → List Text
add_segment rooted [] s =
    if s == [] || s == codes "." || (s == codes ".." && rooted) then [] else s ∷ []
add_segment rooted (last ∷ before) s =
    if s == [] || s == codes "."
    then last ∷ before
    else if s == codes ".."
    then if last == codes ".." then s ∷ last ∷ before else before
    else s ∷ last ∷ before

unfoldable pub clean_segments : Bool → List Text → List Text → List Text
clean_segments rooted done [] = done
clean_segments rooted done (s ∷ rest) = clean_segments rooted (add_segment rooted done s) rest

abbrev turned : List Text → List Text → List Text
turned [] out = out
turned (s ∷ rest) out = turned rest (s ∷ out)

abbrev cleaned : Bool → List Text → Text
cleaned true segments = b'/' ∷ join segments
cleaned false [] = codes "."
cleaned false (s ∷ rest) = join (s ∷ rest)

abbrev pub is_rooted : Text → Bool
is_rooted [] = false
is_rooted (c ∷ s) = c == b'/'

unfoldable pub clean : Text → Text
clean path =
    cleaned (is_rooted path) (turned (clean_segments (is_rooted path) [] (split b'/' path)) [])
