-- ===== src/Schedule/Names.antt =====
-- internal/config/schedule.go: parseWeekday and the days that normalizeDays collects.
use rungpu_agent.Base.{
  ℕ, zero, suc, ◌<◌, ◌≡◌, refl, ◌⊎◌, inl, inr, Bool, true, false, List, [], ◌∷◌, Text, contains,
  if◌then◌else◌, ◌==◌, list_eq, nat_eq, trim_space, to_lower, arith, Bool-cases, beq_refl,
}
use rungpu_agent.Schedule.Weekdays.{
  weekday_name, weekday_of, is_one_of, parse_weekday, is_skipped, collect_days,
}

-- One of the seven names.
abbrev pub IsName : Text → Type 0
IsName name = (d : ℕ) × (d < 7) × (name ≡ weekday_name d)

IsName-of_day : (d : ℕ) → d < 7 → IsName (weekday_name d)
IsName-of_day d h = (d, h, refl)

either {ℓ κ} :
    {A : Type ℓ} (P : A → Type κ) (b : Bool) {x y : A} → P x → P y → P (if b then x else y)
either P true px py = px
either P false px py = py

abbrev pub IsResult : Text → Type 0
IsResult value = (value ≡ []) ⊎ IsName value

pub IsResult-weekday_of : (value : Text) → IsResult (weekday_of value)
unfolding weekday_of
IsResult-weekday_of value = either IsResult _ (inr (IsName-of_day 0 (omega arith))) (
    either IsResult _ (inr (IsName-of_day 1 (omega arith))) (
      either IsResult _ (inr (IsName-of_day 2 (omega arith))) (
        either IsResult _ (inr (IsName-of_day 3 (omega arith))) (
          either IsResult _ (inr (IsName-of_day 4 (omega arith))) (
            either IsResult _ (inr (IsName-of_day 5 (omega arith)))
              (either IsResult _ (inr (IsName-of_day 6 (omega arith))) (inl refl)))))))

IsResult-parse_weekday : (raw : Text) → IsResult (parse_weekday raw)
unfolding parse_weekday
IsResult-parse_weekday raw = IsResult-weekday_of (to_lower (trim_space raw))

-- A property of the seven weekdays.
pub each_weekday {ℓ} :
    (P : ℕ → Type ℓ) → P 0 → P 1 → P 2 → P 3 → P 4 → P 5 → P 6 → (d : ℕ) → d < 7 → P d
each_weekday P a b c d e f g zero h = a
each_weekday P a b c d e f g (suc zero) h = b
each_weekday P a b c d e f g (suc (suc zero)) h = c
each_weekday P a b c d e f g (suc (suc (suc zero))) h = d
each_weekday P a b c d e f g (suc (suc (suc (suc zero)))) h = e
each_weekday P a b c d e f g (suc (suc (suc (suc (suc zero))))) h = f
each_weekday P a b c d e f g (suc (suc (suc (suc (suc (suc zero)))))) h = g
each_weekday P a b c d e f g (suc (suc (suc (suc (suc (suc (suc n))))))) h = absurd (omega arith)

pub parse_weekday-weekday_name : (d : ℕ) → d < 7 → parse_weekday (weekday_name d) ≡ weekday_name d
unfolding parse_weekday weekday_of is_one_of trim_space to_lower
parse_weekday-weekday_name =
    each_weekday (λ d. parse_weekday (weekday_name d) ≡ weekday_name d) refl refl refl refl refl
      refl refl

pub weekday_name-nonempty : (d : ℕ) → d < 7 → (weekday_name d == []) ≡ false
weekday_name-nonempty =
    each_weekday (λ d. (weekday_name d == []) ≡ false) refl refl refl refl refl refl refl

-- Distinct names, none of them in `seen`.
abbrev pub Fresh : List Text → List Text → Type 0
Fresh seen [] = Unit
Fresh seen (d ∷ ds) = IsName d × (contains d seen ≡ false) × Fresh (d ∷ seen) ds

collected_day :
    (name : Text) (seen rest : List Text)
    → IsResult name
    → is_skipped name seen ≡ false
    → Fresh (name ∷ seen) rest
    → Fresh seen (name ∷ rest)
unfolding is_skipped
collected_day name seen rest (inl e) h fresh = absurd (cc (beq_refl name, e, h))
collected_day name seen rest (inr n) h fresh = (n, ground (arith, h), fresh)

pub collect_days-Fresh : (seen days : List Text) → Fresh seen (collect_days seen days)
unfolding collect_days
collect_days-Fresh seen [] = tt
collect_days-Fresh seen (raw ∷ days) = elim (Bool-cases (is_skipped (parse_weekday raw) seen)) [
  | inl e ↦ rw (collect_days, e) (collect_days-Fresh seen days)
  | inr e ↦
      rw (collect_days, e)
        (collected_day (parse_weekday raw) seen _ (IsResult-parse_weekday raw) e
          (collect_days-Fresh (parse_weekday raw ∷ seen) days))
]

name_is_taken :
    (name : Text) (seen : List Text)
    → IsName name
    → contains name seen ≡ false
    → (parse_weekday name ≡ name) × (is_skipped (parse_weekday name) seen ≡ false)
unfolding is_skipped
name_is_taken name seen (d, lt, e) new = (
  cc (parse_weekday-weekday_name d lt, e),
  ground (arith, parse_weekday-weekday_name d lt, weekday_name-nonempty d lt, e, new),
)

pub collect_days-of_Fresh :
    (seen days : List Text) → Fresh seen days → collect_days seen days ≡ days
unfolding collect_days
collect_days-of_Fresh seen [] h = refl
collect_days-of_Fresh seen (name ∷ days) (n, new, h) =
    let (same, kept) = name_is_taken name seen n new in
    rw (collect_days, kept, same, collect_days-of_Fresh (name ∷ seen) days h)
