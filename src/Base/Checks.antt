-- ===== src/Base/Checks.antt =====
-- Checks in a row that return the first error, `none` if all pass.
use mathlib.Core.Path.{◌≡◌}
use mathlib.Core.Logic.{◌↔◌}
use mathlib.Core.Bool.{Bool, true, false, ◌||◌}
use mathlib.Core.Option.{Option, none, some}
use native.Mathlib.Omega.{arith}
use rungpu_agent.Base.Tests.{if◌then◌else◌}

pub or_false : (a b : Bool) → ((a || b) ≡ false) ↔ ((a ≡ false) × (b ≡ false))
or_false a b = ground arith

module _ {ℓ} {E : Type ℓ} where
  pub if_error :
      (b : Bool) (e : E) (rest : Option E)
      → ((if b then some e else rest) ≡ none) ↔ ((b ≡ false) × (rest ≡ none))
  if_error true e rest = ground arith
  if_error false e rest = ground arith

  pub option_error :
      (first rest : Option E)
      → ((elim first [ some e ↦ some e | none ↦ rest ]) ≡ none) ↔ ((first ≡ none) × (rest ≡ none))
  option_error none rest = ground arith
  option_error (some e) rest = ground arith

  -- A check that is made in some cases only.
  pub if_checked :
      (b : Bool) (check : Option E)
      → ((if b then check else none) ≡ none) ↔ (b ≡ true → check ≡ none)
  if_checked true check = ground arith
  if_checked false check = ground arith
