-- ===== src/Schedule/Status.antt =====
-- internal/config/schedule.go: when EvaluateEarning says that the machine earns, and what
-- ValidateSchedule accepts.
use rungpu_agent.Base.{
  ℕ, String, Bool, true, false, not, ◌&&◌, ◌||◌, Option, none, if◌then◌else◌, string_eq, list_eq,
  nat_eq, bool_eq,
}
use rungpu_agent.Types.{ScheduleConfig}
use rungpu_agent.Schedule.Windows.{windows_or_own, is_open}
use rungpu_agent.Schedule.Clock.{Location, wall_clock, hour_at, weekday_at}
use rungpu_agent.Schedule.Earning.{
  EarningConfig, EarningStatus, EarningMode, earning, paused, scheduled_pause, schedule_location,
}

-- The mode that goes with the answer whether the machine earns.
abbrev pub status_mode : Bool → Bool → EarningMode
status_mode owner_paused true = earning
status_mode owner_paused false = if owner_paused then paused else scheduled_pause

abbrev status_of_parts : Bool → Bool → EarningStatus → EarningStatus
status_of_parts owner_paused enabled st =
    if owner_paused
    then record { mode = paused; is_open = false; change = none }
    else if enabled
    then st
    else record { mode = earning; is_open = true; change = none }

module _ (load_location : String → Option Location) (local : Location) where
  -- The windows as they are written, at the hour and weekday that the wall clock of the location shows.
  unfoldable pub written_open : ScheduleConfig → ℕ → Bool
  written_open sched now =
      let wall = wall_clock (schedule_location load_location local sched) now in
      is_open (windows_or_own sched sched.windows) (hour_at wall) (weekday_at wall)

  unfoldable pub earns : EarningConfig → ℕ → Bool
  earns cfg now = not cfg.is_paused && (not cfg.schedule.enabled || written_open cfg.schedule now)
