-- ===== src/Schedule/Clock.antt =====
-- internal/config/schedule.go: instants and the next change of a schedule. Of Go's time package, an
-- instant is the whole seconds of its Unix time (a fraction never changes a comparison with a full
-- hour), and a location is its table of zones, which is data outside the repository. Instants
-- before 1970, to which ℕ stops, do not occur.
use rungpu_agent.Base.{
  ℕ, zero, suc, ℤ, pos, negsuc, ◌+◌, ◌-◌, ◌*◌, ◌/◌, ◌%◌, ltb, Bool, not, List, if◌then◌else◌, ◌==◌,
  ◌||◌, bool_eq,
}
use rungpu_agent.Types.{ScheduleWindow}
use rungpu_agent.Schedule.Windows.{is_open}

-- What `lookup` of time.Location returns: the seconds east of UTC, and since when and until when.
pub record Zone : Type 0 where
  pub offset : ℤ
  pub since : ℕ
  pub till : ℕ

abbrev pub Location : Type 0
Location = ℕ → Zone

abbrev pub east : ℕ → ℤ → ℕ
east t (pos n) = t + n
east t (negsuc n) = t - suc n

abbrev pub west : ℕ → ℤ → ℕ
west t (pos n) = t - n
west t (negsuc n) = t + suc n

-- The seconds that the wall clock of the location shows.
unfoldable pub wall_clock : Location → ℕ → ℕ
wall_clock loc t = east t (loc t).offset

abbrev pub hour_at : ℕ → ℕ
hour_at wall = wall / 3600 % 24

-- The first of January 1970 was a Thursday.
abbrev pub weekday_at : ℕ → ℕ
weekday_at wall = (wall / 86400 + 4) % 7

-- time.Date: the instant at which the wall clock shows the given seconds.
abbrev in_zone : Location → ℕ → Zone → ℕ
in_zone loc wall z =
    let utc = west wall z.offset in
    if ltb utc z.since || not (ltb utc z.till) then west wall (loc utc).offset else utc

unfoldable pub date : Location → ℕ → ℕ
date loc wall = in_zone loc wall (loc wall)

-- scheduleOpen at an instant.
unfoldable pub schedule_open : Location → List ScheduleWindow → ℕ → Bool
schedule_open loc windows t =
    let wall = wall_clock loc t in is_open windows (hour_at wall) (weekday_at wall)

-- The loop of nextTransition, over the remaining rounds.
unfoldable pub find_transition : (ℕ → Bool) → Bool → ℕ → ℕ → ℕ
find_transition opens want zero cursor = cursor
find_transition opens want (suc rounds) cursor =
    let later = find_transition opens want rounds (cursor + 3600) in
    if opens cursor == want then cursor else later

abbrev pub full_hour : ℕ → ℕ
full_hour wall = wall / 3600 * 3600

-- The cursor before the loop: the full hour of now, or an hour later unless that is after now.
unfoldable pub first_cursor : Location → ℕ → ℕ
first_cursor loc now =
    let cursor = date loc (full_hour (wall_clock loc now)) in
    if not (ltb now cursor) then cursor + 3600 else cursor

abbrev pub rounds : ℕ
rounds = 24 * 8

unfoldable pub next_transition : Location → List ScheduleWindow → Bool → ℕ → ℕ
next_transition loc windows want now =
    find_transition (schedule_open loc windows) want rounds (first_cursor loc now)
