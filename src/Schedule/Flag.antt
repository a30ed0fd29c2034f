-- ===== src/Schedule/Flag.antt =====
-- internal/config/schedule.go: the days that ParseDaysFlag takes from the command line.
use rungpu_agent.Base.{
  ℕ, ◌<◌, ◌≡◌, ◌≢◌, ◌↔◌, ◌⊎◌, refl, inl, inr, Bool-cases, true, false, ◌||◌, Option, some, List, [],
  ◌∷◌, any, map, contains, arith, if◌then◌else◌, ◌==◌, string_eq, list_eq, nat_eq, bool_eq, Text,
  trim_space, fields,
}
use rungpu_agent.Schedule.Weekdays.{
  parse_weekday, day_matches, weekday_name, normalize_days, collect_days, drop_full_week,
  is_day_separator, days_or_error, parse_days_flag,
}
use rungpu_agent.Schedule.Collected.{
  normalize_days_lem, collect_days-unrecognised, drop_full_week-nil, is_recognised,
  day_matches-named,
}
use rungpu_agent.Schedule.Normal.{day_matches-normalize_days}
use rungpu_agent.Schedule.Windows.{}

not_empty : (t : List Text) → ((t == []) ≡ false) ↔ (t ≢ [])
not_empty [] = ground arith
not_empty (c ∷ t) = ground arith

pub flag_parts : Text → List Text
flag_parts raw = fields is_day_separator (trim_space raw)

days_or_error-some :
    (days parts result : List Text)
    → days_or_error days parts ≡ some result
    → (result ≡ days) × ((parts ≡ []) ⊎ ((days == []) ≡ false))
days_or_error-some [] [] result h = (cc h, inl refl)
days_or_error-some [] (p ∷ parts) result h = absurd (ground (arith, h))
days_or_error-some (d ∷ days) parts result h = (ground (arith, h), inr refl)

Taken : List Text → List Text → Type 0
Taken parts days =
    (days ≡ normalize_days parts) × ((parts ≡ []) ⊎ ((normalize_days parts == []) ≡ false))

-- The body of ParseDaysFlag, at the trimmed text.
flag_of_text : Text → Option (List Text)
flag_of_text text =
    let parts = fields is_day_separator text in
    if text == [] then some [] else days_or_error (normalize_days parts) parts

Taken-flag_of_text :
    (text : Text) (days : List Text)
    → flag_of_text text ≡ some days
    → Taken (fields is_day_separator text) days
unfolding flag_of_text Taken fields normalize_days collect_days drop_full_week
Taken-flag_of_text [] days h = (ground (arith, h), inl refl)
Taken-flag_of_text (c ∷ t) days h = days_or_error-some _ (fields is_day_separator (c ∷ t)) days h

Taken-parse_days_flag :
    (raw : Text) (days : List Text) → parse_days_flag raw ≡ some days → Taken (flag_parts raw) days
unfolding parse_days_flag flag_parts flag_of_text
Taken-parse_days_flag raw days h = Taken-flag_of_text (trim_space raw) days h

day_matches-nil : (d : ℕ) → day_matches [] d ≡ true
unfolding day_matches normalize_days collect_days drop_full_week
day_matches-nil d = refl

normalize_days-nil : normalize_days [] ≡ []
unfolding normalize_days collect_days drop_full_week
normalize_days-nil = refl

normalize_days-unrecognised :
    (parts : List Text) → any is_recognised parts ≡ false → normalize_days parts ≡ []
normalize_days-unrecognised parts e =
    cc (normalize_days_lem parts, collect_days-unrecognised parts e, drop_full_week-nil)

recognised_if_normal :
    (parts : List Text) → (normalize_days parts == []) ≡ false → any is_recognised parts ≡ true
recognised_if_normal parts h = elim (Bool-cases (any is_recognised parts)) [
  | inl e ↦ e
  | inr e ↦ absurd ((not_empty _).0 h (normalize_days-unrecognised parts e))
]

Taken-matches :
    (parts days : List Text) (d : ℕ)
    → d < 7
    → Taken parts days
    → day_matches days d ≡ (parts == [] || contains (weekday_name d) (map parse_weekday parts))
unfolding Taken
Taken-matches [] days d lt (e, h) = cc (e, normalize_days-nil, day_matches-nil d)
Taken-matches (p ∷ parts) days d lt (e, inl h) = absurd (ground (arith, h))
Taken-matches (p ∷ parts) days d lt (e, inr h) = cc (
  e,
  day_matches-normalize_days (p ∷ parts) d,
  day_matches-named (p ∷ parts) d lt (recognised_if_normal (p ∷ parts) h),
)

-- The days that ParseDaysFlag returns match the weekdays that some field of the flag names, and
-- all of them if the flag has no field.
pub parse_days_flag-matches :
    (raw : Text) (days : List Text) (d : ℕ)
    → d < 7
    → parse_days_flag raw ≡ some days
    → day_matches days d
      ≡ (flag_parts raw == [] || contains (weekday_name d) (map parse_weekday (flag_parts raw)))
parse_days_flag-matches raw days d lt h =
    Taken-matches (flag_parts raw) days d lt (Taken-parse_days_flag raw days h)
