-- ===== src/Schedule/Windows.antt =====
-- internal/config/schedule.go: the windows of a schedule and their normal form.
use rungpu_agent.Base.{
  ℕ, ℤ, pos, negsuc, ltb, ltb_ℤ, leb_ℤ, int_eq, nat_eq, string_eq, bool_eq, Bool, false, List, [],
  ◌∷◌, map, any, Text, String, Option, none, some, if◌then◌else◌, ◌==◌, ◌/=◌, list_eq, ◌||◌, ◌&&◌,
}
use rungpu_agent.Types.{ScheduleWindow, ScheduleConfig}
use rungpu_agent.Schedule.Weekdays.{normalize_days, parse_weekday, day_matches, previous_weekday}

unfoldable pub clamp_hour : ℤ → ℤ
clamp_hour (negsuc n) = pos 0
clamp_hour (pos n) = if ltb 23 n then pos 23 else pos n

unfoldable pub normalize_window : ScheduleWindow → ScheduleWindow
normalize_window win = record win {
  start_hour = clamp_hour win.start_hour;
  end_hour = clamp_hour win.end_hour;
  days = normalize_days win.days;
}

-- A schedule without windows has the one of its own hours, on every day.
abbrev pub own_window : ScheduleConfig → ScheduleWindow
own_window sched = record { start_hour = sched.start_hour; end_hour = sched.end_hour; days = [] }

abbrev pub windows_or_own : ScheduleConfig → List ScheduleWindow → List ScheduleWindow
windows_or_own sched [] = own_window sched ∷ []
windows_or_own sched (win ∷ wins) = win ∷ wins

unfoldable pub schedule_windows : ScheduleConfig → List ScheduleWindow
schedule_windows sched = map normalize_window (windows_or_own sched sched.windows)

abbrev pub with_windows : ScheduleConfig → List ScheduleWindow → ScheduleConfig
with_windows sched [] = record sched {
  start_hour = clamp_hour sched.start_hour;
  end_hour = clamp_hour sched.end_hour;
  windows = [];
}
with_windows sched (win ∷ wins) = record sched {
  start_hour = win.start_hour;
  end_hour = win.end_hour;
  windows = win ∷ wins;
}

unfoldable pub normalize_schedule : ScheduleConfig → ScheduleConfig
normalize_schedule sched = with_windows sched (schedule_windows sched)

pub data ScheduleError : Type 0 where
  invalid_timezone : ScheduleError
  hours_out_of_range : ScheduleError
  invalid_weekday : Text → ScheduleError

abbrev pub is_hour_out_of_range : ℤ → Bool
is_hour_out_of_range h = ltb_ℤ h (pos 0) || ltb_ℤ (pos 23) h

unfoldable pub validate_days : List Text → Option ScheduleError
validate_days [] = none
validate_days (day ∷ days) =
    if parse_weekday day == [] then some (invalid_weekday day) else validate_days days

unfoldable pub validate_windows : List ScheduleWindow → Option ScheduleError
validate_windows [] = none
validate_windows (win ∷ wins) =
    let rest = validate_windows wins in
    if is_hour_out_of_range win.start_hour || is_hour_out_of_range win.end_hour
    then some hours_out_of_range
    else elim (validate_days win.days) [ some e ↦ some e | none ↦ rest ]

-- time.LoadLocation is given by what it knows; `none` is a schedule without error.
unfoldable pub validate_schedule : (String → Bool) → ScheduleConfig → Option ScheduleError
validate_schedule is_location sched =
    if sched.timezone /= "" && is_location sched.timezone == false
    then some invalid_timezone
    else validate_windows (windows_or_own sched sched.windows)

-- windowActive, at an hour of the day and a weekday.
unfoldable pub active_between : ℤ → ℤ → (ℕ → Bool) → ℕ → ℕ → Bool
active_between start end matches hour day =
    if start == end
    then matches day
    else if ltb_ℤ start end
    then leb_ℤ start (pos hour) && ltb_ℤ (pos hour) end && matches day
    else if leb_ℤ start (pos hour)
    then matches day
    else if ltb_ℤ (pos hour) end
    then matches (previous_weekday day)
    else false

unfoldable pub window_active : ScheduleWindow → ℕ → ℕ → Bool
window_active win hour day =
    active_between (clamp_hour win.start_hour) (clamp_hour win.end_hour) (day_matches win.days) hour
      day

unfoldable pub is_open : List ScheduleWindow → ℕ → ℕ → Bool
is_open windows hour day = any (λ win. window_active win hour day) windows
