-- ===== src/Schedule/Normal.antt =====
-- internal/config/schedule.go: the normal form of a schedule, and that it means the same.
use rungpu_agent.Base.{
  ℕ, ℤ, pos, negsuc, ◌≡◌, refl, sym, subst, ap, ◌∙◌, inl, inr, Bool-cases, ◌≤◌, ltb, List, [], ◌∷◌,
  map, arith, Text,
}
use rungpu_agent.Types.{ScheduleWindow, ScheduleConfig}
use rungpu_agent.Schedule.Weekdays.{normalize_days, day_matches}
use rungpu_agent.Schedule.Windows.{
  clamp_hour, normalize_window, own_window, windows_or_own, schedule_windows, with_windows,
  normalize_schedule, window_active, is_open,
}
use rungpu_agent.Schedule.Collected.{normalize_days-normalize_days}

pub clamp_hour-cases : (h : ℤ) → (n : ℕ) × (n ≤ 23) × (clamp_hour h ≡ pos n)
unfolding clamp_hour
clamp_hour-cases (negsuc n) = (0, omega arith, refl)
clamp_hour-cases (pos n) = elim (Bool-cases (ltb 23 n)) [
  | inl e ↦ (23, omega arith, rw (e) refl)
  | inr e ↦ (n, ground (arith, e), rw (e) refl)
]

pub clamp_hour-clamp_hour : (h : ℤ) → clamp_hour (clamp_hour h) ≡ clamp_hour h
unfolding clamp_hour
clamp_hour-clamp_hour (negsuc n) = refl
clamp_hour-clamp_hour (pos n) = ground arith

normalize_window-normalize_window :
    (win : ScheduleWindow) → normalize_window (normalize_window win) ≡ normalize_window win
unfolding normalize_window
normalize_window-normalize_window win =
    rw
      (
        clamp_hour-clamp_hour win.start_hour,
        clamp_hour-clamp_hour win.end_hour,
        normalize_days-normalize_days win.days,
      )
      refl

map-normalize_window :
    (wins : List ScheduleWindow)
    → map normalize_window (map normalize_window wins) ≡ map normalize_window wins
map-normalize_window [] = refl
map-normalize_window (win ∷ wins) =
    cc (normalize_window-normalize_window win, map-normalize_window wins)

pub day_matches-normalize_days :
    (days : List Text) (d : ℕ) → day_matches (normalize_days days) d ≡ day_matches days d
unfolding day_matches
day_matches-normalize_days days d = rw (normalize_days-normalize_days days) refl

day_matches-normal : (days : List Text) → day_matches (normalize_days days) ≡ day_matches days
day_matches-normal days = λ i d. day_matches-normalize_days days d i

window_active-normalize_window :
    (win : ScheduleWindow) (hour day : ℕ)
    → window_active (normalize_window win) hour day ≡ window_active win hour day
unfolding window_active normalize_window
window_active-normalize_window win hour day =
    rw
      (
        clamp_hour-clamp_hour win.start_hour,
        clamp_hour-clamp_hour win.end_hour,
        day_matches-normal win.days,
      )
      refl

schedule_windows_lem :
    (sched : ScheduleConfig)
    → schedule_windows sched ≡ map normalize_window (windows_or_own sched sched.windows)
unfolding schedule_windows
schedule_windows_lem sched = refl

normalize_schedule_lem :
    (sched : ScheduleConfig)
    → normalize_schedule sched ≡ with_windows sched (schedule_windows sched)
unfolding normalize_schedule
normalize_schedule_lem sched = refl

schedule_windows-normal :
    (sched : ScheduleConfig)
    → map normalize_window (schedule_windows sched) ≡ schedule_windows sched
unfolding schedule_windows
schedule_windows-normal sched = map-normalize_window (windows_or_own sched sched.windows)

normalize_schedule-with_windows :
    (sched : ScheduleConfig) (win : ScheduleWindow) (wins : List ScheduleWindow)
    → map normalize_window (win ∷ wins) ≡ win ∷ wins
    → normalize_schedule (with_windows sched (win ∷ wins)) ≡ with_windows sched (win ∷ wins)
unfolding normalize_schedule schedule_windows
normalize_schedule-with_windows sched win wins h =
    ap (with_windows (with_windows sched (win ∷ wins))) h

schedule_windows-nonempty :
    (sched : ScheduleConfig) (ws : List ScheduleWindow)
    → sched.windows ≡ ws
    → (win : ScheduleWindow) × (wins : List ScheduleWindow) × (schedule_windows sched ≡ win ∷ wins)
unfolding schedule_windows
schedule_windows-nonempty sched [] e = (normalize_window (own_window sched), [], rw (e) refl)
schedule_windows-nonempty sched (win ∷ wins) e =
    (normalize_window win, map normalize_window wins, rw (e) refl)

-- Normalising a schedule a second time changes nothing.
pub normalize_schedule-normalize_schedule :
    (sched : ScheduleConfig)
    → normalize_schedule (normalize_schedule sched) ≡ normalize_schedule sched
normalize_schedule-normalize_schedule sched =
    let (win, wins, e) = schedule_windows-nonempty sched sched.windows refl in
    let normal = subst (λ ws. map normalize_window ws ≡ ws) e (schedule_windows-normal sched) in
    subst (λ s. normalize_schedule s ≡ s)
      (sym (normalize_schedule_lem sched ∙ ap (with_windows sched) e))
      (normalize_schedule-with_windows sched win wins normal)

schedule_windows-with_windows :
    (sched : ScheduleConfig) (win : ScheduleWindow) (wins : List ScheduleWindow)
    → schedule_windows (with_windows sched (win ∷ wins)) ≡ map normalize_window (win ∷ wins)
unfolding schedule_windows
schedule_windows-with_windows sched win wins = refl

schedule_windows-normalize_schedule :
    (sched : ScheduleConfig) → schedule_windows (normalize_schedule sched) ≡ schedule_windows sched
schedule_windows-normalize_schedule sched =
    let (win, wins, e) = schedule_windows-nonempty sched sched.windows refl in
    let normal = subst (λ ws. map normalize_window ws ≡ ws) e (schedule_windows-normal sched) in
    cc (normalize_schedule_lem sched, e, normal, schedule_windows-with_windows sched win wins)

is_open-normalize_window :
    (wins : List ScheduleWindow) (hour day : ℕ)
    → is_open (map normalize_window wins) hour day ≡ is_open wins hour day
unfolding is_open
is_open-normalize_window [] hour day = refl
is_open-normalize_window (win ∷ wins) hour day =
    cc (window_active-normalize_window win hour day, is_open-normalize_window wins hour day)

-- The normal form of a schedule is open at the same hours as the windows that were written.
pub is_open-schedule_windows :
    (sched : ScheduleConfig) (hour day : ℕ)
    → is_open (schedule_windows (normalize_schedule sched)) hour day
      ≡ is_open (windows_or_own sched sched.windows) hour day
is_open-schedule_windows sched hour day = cc (
  schedule_windows-normalize_schedule sched,
  schedule_windows_lem sched,
  is_open-normalize_window (windows_or_own sched sched.windows) hour day,
)
