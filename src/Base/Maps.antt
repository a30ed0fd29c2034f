-- ===== src/Base/Maps.antt =====
-- A Go map with string keys: an association list, whose order is the one in which a `range`
-- visits it. `insert` writes in place or at the end, `delete` drops the key.
use Prim.Native.Nat.{suc, ◌≤◌}
use Prim.Native.String.{String}
use text.Mathlib.TextEquality.{eq_iff}
use mathlib.Core.Path.{◌≡◌, refl}
use mathlib.Core.Logic.{◌≢◌, inl, inr}
use mathlib.Core.Option.{Option, none, some}
use mathlib.Core.List.{List, [], ◌∷◌, map}
use native.Mathlib.Omega.{arith}
use rungpu_agent.Base.Tests.{◌==◌, string_eq, if◌then◌else◌, Bool-cases}
use rungpu_agent.Base.Lists.{length, All}

abbrev pub Map {ℓ} : Type ℓ → Type ℓ
Map V = List (String × V)

module _ {ℓ} {V : Type ℓ} where
  unfoldable pub lookup : String → Map V → Option V
  lookup key [] = none
  lookup key ((here, value) ∷ rest) = if here == key then some value else lookup key rest

  unfoldable pub insert : String → V → Map V → Map V
  insert key new [] = (key, new) ∷ []
  insert key new ((here, value) ∷ rest) =
      if here == key then (key, new) ∷ rest else (here, value) ∷ insert key new rest

  unfoldable pub delete : String → Map V → Map V
  delete key [] = []
  delete key ((here, value) ∷ rest) =
      if here == key then delete key rest else (here, value) ∷ delete key rest

  abbrev pub keys : Map V → List String
  keys = map (λ entry. entry.0)

  pub lookup-insert :
      (key other : String) (new : V) (m : Map V)
      → lookup other (insert key new m) ≡ (if key == other then some new else lookup other m)
  unfolding insert lookup
  lookup-insert key other new [] = refl
  lookup-insert key other new ((here, value) ∷ rest) = ground (
    arith,
    eq_iff here key,
    eq_iff here other,
    eq_iff key other,
    lookup-insert key other new rest,
  )

  pub lookup-insert_self : (k : String) (v : V) (m : Map V) → lookup k (insert k v m) ≡ some v
  lookup-insert_self k v m = ground (arith, lookup-insert k k v m, eq_iff k k)

  pub lookup-insert_ne :
      (k j : String) (v : V) (m : Map V) → k ≢ j → lookup j (insert k v m) ≡ lookup j m
  lookup-insert_ne k j v m h = ground (arith, lookup-insert k j v m, eq_iff k j)

  pub lookup-delete :
      (key other : String) (m : Map V)
      → lookup other (delete key m) ≡ (if key == other then none else lookup other m)
  unfolding lookup delete
  lookup-delete key other [] = ground arith
  lookup-delete key other ((here, value) ∷ rest) =
      ground
        (arith, eq_iff key other, eq_iff here key, eq_iff here other, lookup-delete key other rest)

  -- An insertion adds one entry at most, and none where the key was present.
  pub length-insert : (k : String) (v : V) (m : Map V) → length (insert k v m) ≤ suc (length m)
  unfolding insert
  length-insert k v [] = omega arith
  length-insert k v ((j, w) ∷ m) = ground (arith, length-insert k v m)

  pub length-insert_present :
      (k : String) (v : V) (m : Map V) → lookup k m ≢ none → length (insert k v m) ≡ length m
  unfolding insert lookup
  length-insert_present k v [] h = absurd (h refl)
  length-insert_present k v ((j, w) ∷ m) h = ground (arith, length-insert_present k v m)

  pub length-insert_absent :
      (k : String) (v : V) (m : Map V) → lookup k m ≡ none → length (insert k v m) ≡ suc (length m)
  unfolding insert lookup
  length-insert_absent k v [] h = refl
  length-insert_absent k v ((j, w) ∷ m) h = ground (arith, length-insert_absent k v m)

  pub length-delete : (k : String) (m : Map V) → length (delete k m) ≤ length m
  unfolding delete
  length-delete k [] = omega arith
  length-delete k ((j, w) ∷ m) = ground (arith, length-delete k m)

  pub All-insert {κ} :
      (P : String × V → Type κ) (k : String) (v : V) (m : Map V)
      → P (k, v)
      → All P m
      → All P (insert k v m)
  unfolding insert
  All-insert P k v [] new old = (new, old)
  All-insert P k v ((j, w) ∷ m) new (o, old) = elim (Bool-cases (j == k)) [
    | inl same ↦ rw same (new, old)
    | inr other ↦ rw other (o, All-insert P k v m new old)
  ]

  pub All-delete {κ} :
      (P : String × V → Type κ) (k : String) (m : Map V) → All P m → All P (delete k m)
  unfolding delete
  All-delete P k [] old = old
  All-delete P k ((j, w) ∷ m) (o, old) = elim (Bool-cases (j == k)) [
    | inl same ↦ rw same (All-delete P k m old)
    | inr other ↦ rw other (o, All-delete P k m old)
  ]
