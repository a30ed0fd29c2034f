-- ===== src/Schedule/Earning.antt =====
-- internal/config/schedule.go: EvaluateEarning. Of the texts Summary and NextLabel the model keeps
-- the instant that both name.
use rungpu_agent.Base.{
  ℕ, String, Bool, true, false, Option, none, some, if◌then◌else◌, ◌/=◌, string_eq, List,
}
use rungpu_agent.Types.{ScheduleConfig, ScheduleWindow}
use rungpu_agent.Schedule.Windows.{normalize_schedule, schedule_windows}
use rungpu_agent.Schedule.Clock.{Location, schedule_open, next_transition}

-- EarningOn, EarningPaused, EarningScheduledOff and EarningStopped.
pub data EarningMode : Type 0 where
  earning : EarningMode
  paused : EarningMode
  scheduled_pause : EarningMode
  stopped : EarningMode

pub record EarningStatus : Type 0 where
  pub mode : EarningMode
  pub is_open : Bool
  pub change : Option ℕ

-- The two fields of a configuration that decide whether it earns.
pub record EarningConfig : Type 0 where
  pub is_paused : Bool
  pub schedule : ScheduleConfig

unfoldable pub scheduled_status : Location → List ScheduleWindow → ℕ → EarningStatus
scheduled_status loc windows now =
    if schedule_open loc windows now
    then record {
      mode = earning;
      is_open = true;
      change = some (next_transition loc windows false now);
    }
    else record {
      mode = scheduled_pause;
      is_open = false;
      change = some (next_transition loc windows true now);
    }

module _ (load_location : String → Option Location) (local : Location) where
  unfoldable pub schedule_location : ScheduleConfig → Location
  schedule_location sched =
      if sched.timezone /= ""
      then elim (load_location sched.timezone) [ some loc ↦ loc | none ↦ local ]
      else local

  abbrev status_of_schedule : ScheduleConfig → ℕ → EarningStatus
  status_of_schedule sched now =
      if sched.enabled
      then scheduled_status (schedule_location sched) (schedule_windows sched) now
      else record { mode = earning; is_open = true; change = none }

  -- `none` is the nil configuration.
  unfoldable pub evaluate_earning : Option EarningConfig → ℕ → EarningStatus
  evaluate_earning none now = record { mode = stopped; is_open = false; change = none }
  evaluate_earning (some cfg) now =
      if cfg.is_paused
      then record { mode = paused; is_open = false; change = none }
      else status_of_schedule (normalize_schedule cfg.schedule) now
