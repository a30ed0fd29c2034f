-- ===== src/Schedule/Examples.antt =====
-- internal/config/schedule.go: a schedule of weekday nights, at which the theorems are applied.
use rungpu_agent.Base.{
  ℕ, pos, ◌≤◌, if◌then◌else◌, string_eq, ◌≡◌, ◌↔◌, refl, String, Bool, true, false, ◌||◌, Option,
  none, some, [], ◌∷◌, map, contains, codes, All, arith, ◌==◌, list_eq, nat_eq, ◌⊎◌, trim_space,
  to_lower, fields,
}
use rungpu_agent.Types.{ScheduleWindow, ScheduleConfig}
use rungpu_agent.Schedule.Weekdays.{
  weekday_name, parse_weekday, weekday_of, is_one_of, is_skipped, collect_days, normalize_days,
  drop_full_week, day_matches, parse_days_flag, previous_weekday,
}
use rungpu_agent.Schedule.Windows.{
  windows_or_own, schedule_windows, normalize_schedule, clamp_hour, active_between, window_active,
  is_open, validate_schedule,
}
use rungpu_agent.Schedule.Clock.{Location, next_transition}
use rungpu_agent.Schedule.Earning.{EarningConfig}
use rungpu_agent.Schedule.Normal.{normalize_schedule-normalize_schedule, is_open-schedule_windows}
use rungpu_agent.Schedule.Coverage.{Covered, window_active-Covered}
use rungpu_agent.Schedule.Transition.{size}
use rungpu_agent.Schedule.Found.{IsChange, IsChange-next_transition}
use rungpu_agent.Schedule.Validation.{IsWindow, validate_schedule-none}
use rungpu_agent.Schedule.Flag.{flag_parts, parse_days_flag-matches}

abbrev nights : ScheduleWindow
nights = record {
  start_hour = pos 22;
  end_hour = pos 6;
  days = codes " Friday" ∷ codes "SAT" ∷ codes "fri" ∷ codes "someday" ∷ [];
}

abbrev sched : ScheduleConfig
sched = record {
  enabled = true;
  start_hour = pos 0;
  end_hour = pos 0;
  timezone = "UTC";
  windows = nights ∷ [];
}

abbrev utc : Location
utc t = record { offset = pos 0; since = 0; till = 18446744073709551615 }

abbrev load_location : String → Option Location
load_location name = if name == "UTC" then some utc else none

abbrev is_utc : String → Bool
is_utc zone = zone == "UTC"

abbrev cfg : EarningConfig
cfg = record { is_paused = false; schedule = sched }

-- Saturday, 3 January 2026, 23:30.
abbrev saturday_night : ℕ
saturday_night = 1767483000

size_utc : size (pos 0) ≤ 86400
unfolding size
size_utc = omega arith

days_of_nights : normalize_days nights.days ≡ codes "fri" ∷ codes "sat" ∷ []
unfolding normalize_days drop_full_week collect_days is_skipped parse_weekday weekday_of is_one_of
    to_lower trim_space
days_of_nights = refl

-- The window is active on Sunday morning, the end of the night of Saturday, not on Friday morning.
sunday_morning : is_open (nights ∷ []) 5 0 ≡ true
unfolding is_open window_active active_between clamp_hour day_matches previous_weekday
    normalize_days drop_full_week collect_days is_skipped parse_weekday weekday_of is_one_of
    to_lower trim_space
sunday_morning = refl

friday_morning : is_open (nights ∷ []) 5 5 ≡ false
unfolding is_open window_active active_between clamp_hour day_matches previous_weekday
    normalize_days drop_full_week collect_days is_skipped parse_weekday weekday_of is_one_of
    to_lower trim_space
friday_morning = refl

-- A flag that names all seven weekdays is refused, as if it named none.
every_day_flag : parse_days_flag (codes "sun,mon,tue,wed,thu,fri,sat") ≡ none
unfolding parse_days_flag fields normalize_days drop_full_week collect_days is_skipped parse_weekday
    weekday_of is_one_of to_lower trim_space
every_day_flag = refl

weekend_flag : parse_days_flag (codes " Sat, sunday ") ≡ some (codes "sat" ∷ codes "sun" ∷ [])
unfolding parse_days_flag fields normalize_days drop_full_week collect_days is_skipped parse_weekday
    weekday_of is_one_of to_lower trim_space
weekend_flag = refl

normalize_schedule-normalize_schedule_example :
    normalize_schedule (normalize_schedule sched) ≡ normalize_schedule sched
normalize_schedule-normalize_schedule_example = normalize_schedule-normalize_schedule sched

is_open-schedule_windows_example :
    is_open (schedule_windows (normalize_schedule sched)) 5 0
    ≡ is_open (windows_or_own sched sched.windows) 5 0
is_open-schedule_windows_example = is_open-schedule_windows sched 5 0

window_active-Covered_example :
    (window_active nights 5 0 ≡ true) ↔ Covered 22 6 (day_matches nights.days) 5 0
window_active-Covered_example =
    window_active-Covered nights 22 6 5 0 refl refl (omega arith) (omega arith) (omega arith)
      (omega arith)

IsChange-next_transition_example :
    IsChange utc
      (nights ∷ [])
      false
      saturday_night
      (next_transition utc (nights ∷ []) false saturday_night)
IsChange-next_transition_example =
    IsChange-next_transition utc (pos 0) (λ t. refl) saturday_night size_utc (omega arith)
      (nights ∷ []) false 5 5 (omega arith) (omega arith) friday_morning

validate_schedule-none_example :
    (validate_schedule is_utc sched ≡ none)
    ↔ (((◌≡◌ {A = String} "UTC" "") ⊎ (is_utc "UTC" ≡ true)) × All IsWindow (nights ∷ []))
validate_schedule-none_example = validate_schedule-none is_utc sched

parse_days_flag-matches_example : day_matches (codes "sat" ∷ codes "sun" ∷ []) 6 ≡ (
    flag_parts (codes " Sat, sunday ") == []
    || contains (weekday_name 6) (map parse_weekday (flag_parts (codes " Sat, sunday "))))
parse_days_flag-matches_example =
    parse_days_flag-matches (codes " Sat, sunday ") (codes "sat" ∷ codes "sun" ∷ []) 6 (omega arith)
      weekend_flag
