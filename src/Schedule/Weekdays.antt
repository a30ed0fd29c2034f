-- ===== src/Schedule/Weekdays.antt =====
-- internal/config/schedule.go: the names of weekdays (parseWeekday, normalizeDays, dayMatches).
use rungpu_agent.Base.{
  ℕ, zero, suc, ◌-◌, Option, none, some, Bool, true, false, List, [], ◌∷◌, Text, codes, trim_space,
  to_lower, fields, contains, length, if◌then◌else◌, ◌==◌, nat_eq, list_eq, ◌||◌, ◌&&◌, not,
}

abbrev pub weekday_names : List Text
weekday_names =
    codes "sun"
    ∷ codes "mon"
    ∷ codes "tue"
    ∷ codes "wed"
    ∷ codes "thu"
    ∷ codes "fri"
    ∷ codes "sat"
    ∷ []

abbrev pub name_at : ℕ → List Text → Text
name_at i [] = []
name_at zero (name ∷ names) = name
name_at (suc i) (name ∷ names) = name_at i names

-- time.Weekday is a number below 7: Sunday is 0.
abbrev pub weekday_name : ℕ → Text
weekday_name weekday = name_at weekday weekday_names

unfoldable pub is_one_of : Text → List Text → Bool
is_one_of value names = contains value names

-- The switch of parseWeekday. The empty text is no weekday.
unfoldable pub weekday_of : Text → Text
weekday_of value =
    if is_one_of value (codes "sun" ∷ codes "sunday" ∷ codes "0" ∷ codes "7" ∷ [])
    then codes "sun"
    else if is_one_of value (codes "mon" ∷ codes "monday" ∷ codes "1" ∷ [])
    then codes "mon"
    else if is_one_of value (codes "tue" ∷ codes "tues" ∷ codes "tuesday" ∷ codes "2" ∷ [])
    then codes "tue"
    else if is_one_of value (codes "wed" ∷ codes "wednesday" ∷ codes "3" ∷ [])
    then codes "wed"
    else if is_one_of value
        (codes "thu" ∷ codes "thur" ∷ codes "thurs" ∷ codes "thursday" ∷ codes "4" ∷ [])
    then codes "thu"
    else if is_one_of value (codes "fri" ∷ codes "friday" ∷ codes "5" ∷ [])
    then codes "fri"
    else if is_one_of value (codes "sat" ∷ codes "saturday" ∷ codes "6" ∷ [])
    then codes "sat"
    else []

unfoldable pub parse_weekday : Text → Text
parse_weekday raw = weekday_of (to_lower (trim_space raw))

unfoldable pub is_skipped : Text → List Text → Bool
is_skipped name seen = name == [] || contains name seen

-- The loop of normalizeDays; `seen` holds the names that the map `seen` has as keys.
unfoldable pub collect_days : List Text → List Text → List Text
collect_days seen [] = []
collect_days seen (raw ∷ days) =
    let name = parse_weekday raw in
    elim (is_skipped name seen) [
      | true ↦ collect_days seen days
      | false ↦ name ∷ collect_days (name ∷ seen) days
    ]

unfoldable pub drop_full_week : List Text → List Text
drop_full_week days = if length days == 7 then [] else days

-- The empty list stands for every day.
unfoldable pub normalize_days : List Text → List Text
normalize_days days = drop_full_week (collect_days [] days)

unfoldable pub day_matches : List Text → ℕ → Bool
day_matches days weekday =
    let wanted = normalize_days days in wanted == [] || contains (weekday_name weekday) wanted

unfoldable pub previous_weekday : ℕ → ℕ
previous_weekday day = if day == 0 then 6 else day - 1

-- ParseDaysFlag: `none` is its error.
abbrev pub is_day_separator : ℕ → Bool
is_day_separator c = c == b',' || c == b' '

abbrev pub days_or_error : List Text → List Text → Option (List Text)
days_or_error days parts = if days == [] && not (parts == []) then none else some days

unfoldable pub parse_days_flag : Text → Option (List Text)
parse_days_flag raw =
    let text = trim_space raw in
    let parts = fields is_day_separator text in
    if text == [] then some [] else days_or_error (normalize_days parts) parts
