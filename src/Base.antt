-- ===== src/Base.antt =====
-- The names that the other modules share: the libraries', passed on, and those of the children
-- below. No code of the agent is modelled here but Go's maps, integers and texts.
mod Tests
mod Lists
mod Texts
mod Maps
mod Int
mod Checks
mod Paths
pub use Tests.*
pub use Lists.*
pub use Texts.*
pub use Maps.*
unfoldable pub use Lists.{remove}
unfoldable pub use Maps.{lookup, insert, delete}
unfoldable pub use Texts.{has_prefix, trim_space, to_lower, fields}
pub use Int.*
pub use Checks.*
pub use Paths.*
unfoldable pub use Paths.{clean_segments, clean}
pub use Prim.Native.Nat.{ℕ, zero, suc, ◌+◌, ◌-◌, ◌*◌, ◌/◌, ◌%◌, ◌^◌, ◌≤◌, ◌<◌, min}
pub use Prim.Native.String.{String, ◌++◌ as ◌<>◌}
pub use mathlib.Core.Path.{◌≡◌, refl, sym, ap, ◌∙◌, subst}
pub use mathlib.Core.Logic.{◌≢◌, ◌↔◌, ◌⊎◌, inl, inr}
pub use mathlib.Core.Bool.{Bool, true, false, not, ◌&&◌, ◌||◌}
pub use mathlib.Core.Option.{Option, none, some}
pub use mathlib.Core.List.{List, [], ◌∷◌, ◌++◌, map, reverse}
pub use native.Mathlib.Omega.{arith}
