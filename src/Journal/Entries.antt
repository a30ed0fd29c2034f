-- ===== src/Journal/Entries.antt =====
-- Laws of the lists and maps that the journal's files and sets are: insertion in order, in place
-- and at the end.
use text.Mathlib.TextEquality.{eq_iff}
use rungpu_agent.Base.{
  String, false, ◌||◌, List, [], ◌∷◌, ◌++◌, none, Map, lookup, insert, contains, length, All, ◌==◌,
  string_eq, ◌≡◌, refl, ap, ◌∙◌, arith, suc, Bool-cases, inl, inr,
}
use rungpu_agent.Journal.Records.{is_some}
use rungpu_agent.Journal.Store.{Stored, intact, damaged, insert_sorted}

-- No key twice.
abbrev pub Distinct {ℓ} : {V : Type ℓ} → Map V → Type ℓ
Distinct [] = Unit
Distinct ((k, v) ∷ m) = (lookup k m ≡ none) × Distinct m

abbrev pub DistinctKeys : List String → Type 0
DistinctKeys [] = Unit
DistinctKeys (k ∷ ks) = (contains k ks ≡ false) × DistinctKeys ks

-- ------------------------------------------------------------------ sorted insertion

pub contains-insert_sorted :
    (k j : String) (xs : List String) → contains j (insert_sorted k xs) ≡ (k == j || contains j xs)
contains-insert_sorted k j [] = refl
contains-insert_sorted k j (x ∷ xs) = ground (arith, contains-insert_sorted k j xs)

pub length-insert_sorted :
    (k : String) (xs : List String) → length (insert_sorted k xs) ≡ suc (length xs)
length-insert_sorted k [] = refl
length-insert_sorted k (x ∷ xs) = ground (arith, length-insert_sorted k xs)

pub DistinctKeys-insert_sorted :
    (k : String) (xs : List String)
    → contains k xs ≡ false
    → DistinctKeys xs
    → DistinctKeys (insert_sorted k xs)
DistinctKeys-insert_sorted k [] new d = (refl, tt)
DistinctKeys-insert_sorted k (x ∷ xs) new d = ground (
  arith,
  eq_iff x k,
  eq_iff k x,
  contains-insert_sorted k x xs,
  DistinctKeys-insert_sorted k xs (ground arith) d.1,
)

pub All-insert_sorted :
    (P : String → Type 0) (k : String) (xs : List String)
    → P k
    → All P xs
    → All P (insert_sorted k xs)
All-insert_sorted P k [] p all = (p, tt)
All-insert_sorted P k (x ∷ xs) p all = ground (arith, All-insert_sorted P k xs p all.1)

-- ------------------------------------------------------------------ maps

module _ {ℓ} {V : Type ℓ} where
  pub insert_new :
      (k : String) (v : V) (m : Map V) → lookup k m ≡ none → insert k v m ≡ m ++ (k, v) ∷ []
  unfolding insert lookup
  insert_new k v [] h = refl
  insert_new k v ((j, w) ∷ m) h = ground (arith, insert_new k v m)

  pub lookup-append :
      (k : String) (m n : Map V) → lookup k m ≡ none → lookup k (m ++ n) ≡ lookup k n
  unfolding lookup
  lookup-append k [] n h = refl
  lookup-append k ((j, w) ∷ m) n h = ground (arith, lookup-append k m n)

  pub Distinct-insert : (k : String) (v : V) (m : Map V) → Distinct m → Distinct (insert k v m)
  unfolding insert lookup
  Distinct-insert k v [] d = (refl, tt)
  Distinct-insert k v ((j, w) ∷ m) d = elim (Bool-cases (j == k)) [
    | inl hit ↦ rw (hit, insert) (rw ((eq_iff j k).0 hit) at d.0, d.1)
    | inr miss ↦
        rw (miss, insert) (lookup-insert_miss j k v m miss ∙ d.0, Distinct-insert k v m d.1)
  ]
    where
      lookup-insert_miss :
          (j k : String) (v : V) (m : Map V)
          → (j == k) ≡ false
          → lookup j (insert k v m) ≡ lookup j m
      lookup-insert_miss j k v [] e = ground (arith, eq_iff j k, eq_iff k j)
      lookup-insert_miss j k v ((i, w) ∷ m) e =
          ground
            (arith, eq_iff j k, eq_iff k j, eq_iff i k, eq_iff i j, lookup-insert_miss j k v m e)

  pub All-insert {κ} :
      (P : String × V → Type κ) (k : String) (v : V) (m : Map V)
      → P (k, v)
      → All P m
      → All P (insert k v m)
  unfolding insert
  All-insert P k v [] p all = (p, tt)
  All-insert P k v ((j, w) ∷ m) p all = elim (Bool-cases (j == k)) [
    | inl hit ↦ rw (hit, insert) (p, all.1)
    | inr miss ↦ rw (miss, insert) (all.0, All-insert P k v m p all.1)
  ]

-- The files that hold the records of a map.
abbrev pub stored : {A : Type 0} → Map A → Map (Stored A)
stored [] = []
stored ((k, a) ∷ m) = (k, intact a) ∷ stored m

-- What the intact files hold.
abbrev pub contents : {A : Type 0} → Map (Stored A) → Map A
contents [] = []
contents ((k, intact a) ∷ m) = (k, a) ∷ contents m
contents ((k, damaged) ∷ m) = contents m

module _ {A : Type 0} where
  pub insert-stored :
      (k : String) (a : A) (m : Map A) → insert k (intact a) (stored m) ≡ stored (insert k a m)
  unfolding insert
  insert-stored k a [] = refl
  insert-stored k a ((j, b) ∷ m) = ground (arith, insert-stored k a m)

  pub lookup-stored :
      (k : String) (m : Map A) → is_some (lookup k (stored m)) ≡ is_some (lookup k m)
  unfolding lookup
  lookup-stored k [] = refl
  lookup-stored k ((j, b) ∷ m) = ground (arith, lookup-stored k m)

  pub length-stored : (m : Map A) → length (stored m) ≡ length m
  length-stored [] = refl
  length-stored ((j, b) ∷ m) = ap suc (length-stored m)

  pub contents-stored : (m : Map A) → contents (stored m) ≡ m
  contents-stored [] = refl
  contents-stored ((j, b) ∷ m) = ap (◌∷◌ (j, b)) (contents-stored m)
