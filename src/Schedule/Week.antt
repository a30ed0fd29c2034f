-- ===== src/Schedule/Week.antt =====
-- internal/config/schedule.go: a full week in normalizeDays, which seven distinct names make.
use rungpu_agent.Base.{
  or_false, ℕ, suc, ◌+◌, ◌≤◌, ◌<◌, ◌≡◌, refl, sym, subst, inl, inr, Bool, true, false, ◌||◌, List,
  [], ◌∷◌, Text, contains, length, if◌then◌else◌, ◌==◌, list_eq, nat_eq, Eq, arith, Bool-cases,
}
use rungpu_agent.Schedule.Weekdays.{weekday_name, weekday_names}
use rungpu_agent.Schedule.Names.{IsName, each_weekday, Fresh}

-- How many of the seven names are not in the list.
abbrev missing_in : List Text → List Text → ℕ
missing_in seen [] = 0
missing_in seen (name ∷ names) = (if contains name seen then 0 else 1) + missing_in seen names

unfoldable missing : List Text → ℕ
missing seen = missing_in seen weekday_names

missing-weekday :
    (seen : List Text) (d : ℕ)
    → d < 7
    → contains (weekday_name d) seen ≡ false
    → suc (missing (weekday_name d ∷ seen)) ≤ missing seen
unfolding missing
missing-weekday seen =
    each_weekday
      (λ d.
        contains (weekday_name d) seen ≡ false
        → suc (missing (weekday_name d ∷ seen)) ≤ missing seen)
      (λ h. ground arith) (λ h. ground arith) (λ h. ground arith) (λ h. ground arith)
      (λ h. ground arith) (λ h. ground arith) (λ h. ground arith)

missing-name :
    (seen : List Text) (name : Text)
    → IsName name
    → contains name seen ≡ false
    → suc (missing (name ∷ seen)) ≤ missing seen
missing-name seen name (d, lt, e) =
    subst (λ n. contains n seen ≡ false → suc (missing (n ∷ seen)) ≤ missing seen) (sym e)
      (missing-weekday seen d lt)

length-Fresh : (seen days : List Text) → Fresh seen days → length days ≤ missing seen
length-Fresh seen [] h = omega arith
length-Fresh seen (name ∷ days) (n, new, h) =
    omega (arith, missing-name seen name n new, length-Fresh (name ∷ seen) days h)

false_or : (a b : Bool) → a ≡ false → b ≡ false → (a || b) ≡ false
false_or a b h k = ground arith

beq_sym {ℓ} : {A : Type ℓ} ⦃e : Eq A⦄ (a b : A) → (a == b) ≡ false → (b == a) ≡ false
beq_sym ⦃e⦄ a b h = ground (arith, e.beq_iff a b, e.beq_iff b a)

-- Whatever `larger` has besides `seen` is the name a.
abbrev Extends : Text → List Text → List Text → Type 0
Extends a seen larger =
    (b : Text) → contains b seen ≡ false → (b == a) ≡ false → contains b larger ≡ false

Extends-cons :
    (a name : Text) (seen larger : List Text)
    → Extends a seen larger
    → Extends a (name ∷ seen) (name ∷ larger)
Extends-cons a name seen larger grow b out other =
    let (differs, absent) = (or_false (name == b) (contains b seen)).0 out in
    false_or (name == b) (contains b larger) differs (grow b absent other)

-- Days without the name a that are distinct from `seen` are distinct from a, too.
Fresh-without :
    (a : Text) (seen larger days : List Text)
    → Extends a seen larger
    → contains a days ≡ false
    → Fresh seen days
    → Fresh larger days
Fresh-without a seen larger [] grow out h = tt
Fresh-without a seen larger (name ∷ days) grow out (n, new, h) =
    let (differs, absent) = (or_false (name == a) (contains a days)).0 out in
    (
      n,
      grow name new differs,
      Fresh-without a (name ∷ seen) (name ∷ larger) days (Extends-cons a name seen larger grow)
          absent h,
    )

Extends-single : (a : Text) → Extends a [] (a ∷ [])
Extends-single a b out other = false_or (a == b) false (beq_sym b a other) refl

six_left : (d : ℕ) → d < 7 → missing (weekday_name d ∷ []) ≡ 6
unfolding missing
six_left = each_weekday (λ d. missing (weekday_name d ∷ []) ≡ 6) refl refl refl refl refl refl refl

-- Seven distinct names are all of them.
pub full_week :
    (days : List Text) (d : ℕ)
    → Fresh [] days
    → length days ≡ 7
    → d < 7
    → contains (weekday_name d) days ≡ true
full_week days d h seven lt = elim (Bool-cases (contains (weekday_name d) days)) [
  | inl e ↦ e
  | inr e ↦
      let name = weekday_name d in
      let without = Fresh-without name [] (name ∷ []) days (Extends-single name) e h in
      absurd (omega (arith, seven, six_left d lt, length-Fresh (name ∷ []) days without))
]
