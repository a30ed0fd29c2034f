-- ===== src/Schedule/Found.antt =====
-- internal/config/schedule.go: nextTransition finds the change of a schedule within a week.
use rungpu_agent.Base.{
  ℕ, suc, ℤ, ◌+◌, ◌-◌, ◌*◌, ◌/◌, ◌%◌, ◌<◌, ◌≤◌, ◌≡◌, ◌≢◌, ◌⊎◌, refl, sym, ap, subst, ◌∙◌, inl, inr,
  bool_eq, Bool, true, false, List, arith, if◌then◌else◌,
}
use rungpu_agent.Types.{ScheduleWindow}
use rungpu_agent.Schedule.Windows.{is_open}
use rungpu_agent.Schedule.Clock.{
  Location, east, west, wall_clock, hour_at, weekday_at, date, schedule_open, full_hour,
  first_cursor, rounds, next_transition,
}
use rungpu_agent.Schedule.Transition.{First, First-find_transition, size, east-add, full_hour-west}

-- The wall clock shows an hour h of the weekday d some hours after it shows the full hour m.
hours_until : ℕ → ℕ → ℕ → ℕ
hours_until m h d = (24 * d + h + 336 - (m + 96) % 168) % 168

hours_until-hour :
    (m h d : ℕ)
    → h < 24
    → d < 7
    → (hour_at (3600 * m + hours_until m h d * 3600) ≡ h)
      × (weekday_at (3600 * m + hours_until m h d * 3600) ≡ d)
      × (hours_until m h d < 168)
unfolding hours_until
hours_until-hour m h d lh ld = (omega (arith, lh, ld), omega (arith, lh, ld), omega (arith, lh, ld))

same_branches {ℓ} : {A : Type ℓ} (b : Bool) {x : A} → (if b then x else x) ≡ x
same_branches true = refl
same_branches false = refl

-- The earliest full hour after now, within a week, at which the schedule has the wanted state.
pub IsChange : Location → List ScheduleWindow → Bool → ℕ → ℕ → Type 0
IsChange loc windows want now result =
    (schedule_open loc windows result ≡ want)
    × (now < result)
    × (result ≤ now + 7 * 24 * 3600)
    × ((t : ℕ)
        → now < t
        → t < result
        → wall_clock loc t % 3600 ≡ 0
        → schedule_open loc windows t ≢ want)

not_later : (j k : ℕ) → ¬ (j < k) → k ≤ j
not_later j k h = ground (arith, h)

found_state : (k : ℕ) (P : Type 0) → (k ≡ rounds) ⊎ P → k < 168 → P
found_state k P (inl e) lt = absurd (omega (arith, e, lt))
found_state k P (inr p) lt = p

module _ (loc : Location) (o : ℤ) (fixed : (t : ℕ) → (loc t).offset ≡ o) (now : ℕ)
    (small : size o ≤ 86400) (late : 172800 ≤ now) where
  wall_clock-fixed : (t : ℕ) → wall_clock loc t ≡ east t o
  unfolding wall_clock
  wall_clock-fixed t = rw (fixed t) refl

  date-fixed : (wall : ℕ) → date loc wall ≡ west wall o
  unfolding date
  date-fixed wall = rw (fixed wall, fixed (west wall o)) (same_branches _)

  base : ℕ
  base = west (full_hour (east now o)) o

  base-near : (base ≤ now) × (now < base + 3600) × (east base o ≡ full_hour (east now o))
  unfolding base
  base-near = full_hour-west now o small late

  first_cursor-fixed : first_cursor loc now ≡ base + 3600
  unfolding first_cursor base
  first_cursor-fixed =
      let near = full_hour-west now o small late in
      rw (wall_clock-fixed now, date-fixed (full_hour (east now o))) (ground (arith, near))

  start_hour : ℕ
  start_hour = suc (east now o / 3600)

  wall_clock-after : (x : ℕ) → wall_clock loc (base + x) ≡ full_hour (east now o) + x
  wall_clock-after x =
      let near = base-near in
      let sum = east-add base x o (omega (arith, near.1, small, late)) in
      cc (wall_clock-fixed (base + x), sum, near.2)

  -- The wall clock x seconds after the first cursor.
  wall_clock-cursor : (x : ℕ) → wall_clock loc (base + 3600 + x) ≡ 3600 * start_hour + x
  unfolding start_hour
  wall_clock-cursor x =
      ap (wall_clock loc) (omega arith) ∙ wall_clock-after (3600 + x) ∙ omega arith

  module _ (windows : List ScheduleWindow) (want : Bool) where
    schedule_open-cursor :
        (h d : ℕ)
        → h < 24
        → d < 7
        → schedule_open loc windows (base + 3600 + hours_until start_hour h d * 3600)
          ≡ is_open windows h d
    unfolding schedule_open
    schedule_open-cursor h d lh ld =
        let (hour, day, near) = hours_until-hour start_hour h d lh ld in
        rw (wall_clock-cursor (hours_until start_hour h d * 3600), hour, day) refl

    cursor_at :
        (t : ℕ)
        → now < t
        → wall_clock loc t % 3600 ≡ 0
        → t ≡ base + 3600 + (t - (base + 3600)) / 3600 * 3600
    cursor_at t lt full =
        let near = base-near in
        let whole = wall_clock-after (t - base) in
        let same : wall_clock loc t ≡ wall_clock loc (base + (t - base)) =
          ap (wall_clock loc) (omega (arith, near.0, lt)) in
        omega (arith, near.0, near.1, lt, full, whole, same)

    First-IsChange :
        (result j : ℕ)
        → j < 168
        → schedule_open loc windows (base + 3600 + j * 3600) ≡ want
        → First (schedule_open loc windows) want rounds (base + 3600) result
        → IsChange loc windows want now result
    unfolding First IsChange
    First-IsChange result j lt hit (k, le, e, found, before) =
        let near = base-near in
        let soon = not_later j k (λ h. before j h hit) in
        (
          found_state k (schedule_open loc windows result ≡ want) found (omega (arith, soon, lt)),
          omega (arith, e, near.1),
          omega (arith, e, soon, lt, near.0),
          λ t after until full.
              let at = cursor_at t after full in
              subst (λ t. schedule_open loc windows t ≢ want) (sym at)
                (before _ (omega (arith, at, until, e))),
        )

    -- At a fixed offset of a day at most, if the schedule has the wanted state at some hour of
    -- some weekday, nextTransition returns the earliest full hour after now with that state, and
    -- it is within a week: the 24 * 8 rounds of the loop are enough.
    pub IsChange-next_transition :
        (h d : ℕ)
        → h < 24
        → d < 7
        → is_open windows h d ≡ want
        → IsChange loc windows want now (next_transition loc windows want now)
    unfolding next_transition
    IsChange-next_transition h d lh ld wanted =
        let opens = schedule_open loc windows in
        let hit = schedule_open-cursor h d lh ld ∙ wanted in
        let near = hours_until-hour start_hour h d lh ld in
        rw (first_cursor-fixed) (
          First-IsChange _ (hours_until start_hour h d) near.2 hit
            (First-find_transition opens want rounds (base + 3600)))
