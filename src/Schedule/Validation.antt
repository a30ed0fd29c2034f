-- ===== src/Schedule/Validation.antt =====
-- internal/config/schedule.go: what ValidateSchedule accepts, and what ParseDaysFlag refuses.
use rungpu_agent.Base.{
  or_false, if_error, option_error, ℕ, ℤ, pos, negsuc, ◌<◌, ◌≡◌, ◌≢◌, ◌↔◌, ◌⊎◌, refl, String, Bool,
  true, false, ◌&&◌, ◌||◌, none, List, [], ◌∷◌, All, arith, ◌==◌, ◌/=◌, string_eq, list_eq, nat_eq,
  bool_eq, Text,
}
use text.Mathlib.TextEquality.{eq_iff}
use rungpu_agent.Types.{ScheduleWindow, ScheduleConfig}
use rungpu_agent.Schedule.Weekdays.{parse_weekday}
use rungpu_agent.Schedule.Collected.{}
use rungpu_agent.Schedule.Windows.{
  invalid_timezone, is_hour_out_of_range, windows_or_own, validate_days, validate_windows,
  validate_schedule,
}

pub IsHour : ℤ → Type 0
IsHour h = (n : ℕ) × (n < 24) × (h ≡ pos n)

-- What a valid window is.
unfoldable pub IsWindow : ScheduleWindow → Type 0
IsWindow win =
    IsHour win.start_hour × IsHour win.end_hour × All (λ day. parse_weekday day ≢ []) win.days

out_of_range : (h : ℤ) → (is_hour_out_of_range h ≡ false) ↔ IsHour h
unfolding IsHour
out_of_range (pos n) = (λ h. (n, ground (arith, h), refl), λ (m, lt, e). in_range n m lt e)
  where
    in_range : (n m : ℕ) → m < 24 → pos n ≡ pos m → is_hour_out_of_range (pos n) ≡ false
    in_range n m lt e = ground (arith, lt, e)
out_of_range (negsuc n) =
    (λ h. absurd (ground (arith, h)), λ (m, lt, e). absurd (ground (arith, e)))

not_empty : (t : Text) → ((t == []) ≡ false) ↔ (t ≢ [])
not_empty [] = ground arith
not_empty (c ∷ t) = ground arith

validate_days-none :
    (days : List Text) → (validate_days days ≡ none) ↔ All (λ day. parse_weekday day ≢ []) days
unfolding validate_days
validate_days-none [] = (λ h. tt, λ h. refl)
validate_days-none (day ∷ days) =
    let test = if_error (parse_weekday day == []) _ (validate_days days) in
    let rest = validate_days-none days in
    let name = not_empty (parse_weekday day) in
    (
      λ h. let (known, others) = test.0 h in (name.0 known, rest.0 others),
      λ (known, others). test.1 (name.1 known, rest.1 others),
    )

validate_windows-none :
    (wins : List ScheduleWindow) → (validate_windows wins ≡ none) ↔ All IsWindow wins
unfolding validate_windows IsWindow
validate_windows-none [] = (λ h. tt, λ h. refl)
validate_windows-none (win ∷ wins) =
    let rest = validate_windows-none wins in
    let outer =
      if_error (is_hour_out_of_range win.start_hour || is_hour_out_of_range win.end_hour) _ _ in
    let hours =
      or_false (is_hour_out_of_range win.start_hour) (is_hour_out_of_range win.end_hour) in
    let inner = option_error (validate_days win.days) (validate_windows wins) in
    let days = validate_days-none win.days in
    let start = out_of_range win.start_hour in
    let end = out_of_range win.end_hour in
    (
      λ h.
          let (in_range, others) = outer.0 h in
          let (s, e) = hours.0 in_range in
          let (d, r) = inner.0 others in ((start.0 s, end.0 e, days.0 d), rest.0 r),
      λ ((s, e, d), r). outer.1 (hours.1 (start.1 s, end.1 e), inner.1 (days.1 d, rest.1 r)),
    )

known_location :
    (is_location : String → Bool) (zone : String)
    → ((zone /= "" && is_location zone == false) ≡ false)
      ↔ ((zone ≡ "") ⊎ (is_location zone ≡ true))
known_location is_location zone = ground (arith, eq_iff zone "")

-- ValidateSchedule accepts a schedule exactly if its timezone is empty or a location that
-- time.LoadLocation knows, and each of its windows (its own hours, if it has none) starts and ends
-- at an hour of the day and names only weekdays that parseWeekday recognises.
pub validate_schedule-none :
    (is_location : String → Bool) (sched : ScheduleConfig)
    → (validate_schedule is_location sched ≡ none) ↔ (
        ((sched.timezone ≡ "") ⊎ (is_location sched.timezone ≡ true))
        × All IsWindow (windows_or_own sched sched.windows))
unfolding validate_schedule
validate_schedule-none is_location sched =
    let wins = validate_windows-none (windows_or_own sched sched.windows) in
    let outer =
      if_error (sched.timezone /= "" && is_location sched.timezone == false) invalid_timezone
        (validate_windows (windows_or_own sched sched.windows)) in
    let zone = known_location is_location sched.timezone in
    (λ h. let (z, w) = outer.0 h in (zone.0 z, wins.0 w), λ (z, w). outer.1 (zone.1 z, wins.1 w))
