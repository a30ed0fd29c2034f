-- ===== src/Schedule/Coverage.antt =====
-- internal/config/schedule.go: what windowActive computes, against the stretches of the week that
-- a window names.
use rungpu_agent.Base.{
  ℕ, ℤ, pos, ◌+◌, ◌-◌, ◌*◌, ◌%◌, ◌<◌, ◌≤◌, ◌≡◌, ◌↔◌, refl, subst, ◌⊎◌, inl, inr, ltb, int_eq,
  nat_eq, Bool, true, arith, if◌then◌else◌, ◌==◌,
}
use rungpu_agent.Types.{ScheduleWindow}
use rungpu_agent.Schedule.Weekdays.{day_matches, previous_weekday}
use rungpu_agent.Schedule.Windows.{clamp_hour, active_between, window_active}

-- A window from an hour to the same hour is the whole day; one that ends before it starts goes on
-- into the next day.
pub stretch_start : ℕ → ℕ → ℕ
stretch_start s e = if s == e then 0 else s

pub stretch_hours : ℕ → ℕ → ℕ
stretch_hours s e = if s == e then 24 else if ltb s e then e - s else 24 - s + e

-- The hour of the week lies in the stretch that begins on a day that matches.
pub Covered : ℕ → ℕ → (ℕ → Bool) → ℕ → ℕ → Type 0
Covered s e matches hour day =
    (d : ℕ) × (k : ℕ) × (d < 7)
    × (matches d ≡ true)
    × (k < stretch_hours s e)
    × ((24 * d + stretch_start s e + k) % 168 ≡ 24 * day + hour)

orders : (s e k : ℕ) → (s ≡ e) ⊎ ((s < e) ⊎ (((e < s) × (s + k < 24)) ⊎ ((e < s) × (24 ≤ s + k))))
orders s e k = omega arith

module _ (s e : ℕ) (matches : ℕ → Bool) (hour day : ℕ) (hs : s < 24) (he : e < 24) (hh : hour < 24)
    (hd : day < 7) where
  Active : Type 0
  Active =
      ((s ≡ e) × (matches day ≡ true))
      ⊎ (((s < e) × (s ≤ hour) × (hour < e) × (matches day ≡ true))
          ⊎ (((e < s) × (s ≤ hour) × (matches day ≡ true))
              ⊎ ((e < s) × (hour < e) × (matches (previous_weekday day) ≡ true))))

  active_cases : active_between (pos s) (pos e) matches hour day ≡ true → Active
  unfolding active_between Active
  active_cases h = ground (arith, h)

  active_of_cases : Active → active_between (pos s) (pos e) matches hour day ≡ true
  unfolding active_between Active
  active_of_cases h = ground (arith, h)

  previous_weekday-below : previous_weekday day < 7
  unfolding previous_weekday
  previous_weekday-below = ground arith

  previous_weekday-hour :
      e < s → hour < e → (24 * previous_weekday day + s + (24 - s + hour)) % 168 ≡ 24 * day + hour
  unfolding previous_weekday
  previous_weekday-hour h k = ground arith

  Active-Covered : Active → Covered s e matches hour day
  unfolding Active Covered stretch_hours stretch_start
  Active-Covered (inl (q, m)) = (day, hour, hd, m, ground arith, ground arith)
  Active-Covered (inr (inl (lt, from, to, m))) = (day, hour - s, hd, m, ground arith, ground arith)
  Active-Covered (inr (inr (inl (lt, from, m)))) =
      (day, hour - s, hd, m, ground arith, ground arith)
  Active-Covered (inr (inr (inr (lt, to, m)))) = (
    previous_weekday day,
    24 - s + hour,
    previous_weekday-below,
    m,
    ground arith,
    ground (arith, previous_weekday-hour lt to),
  )

  move : (d d' : ℕ) → matches d ≡ true → d ≡ d' → matches d' ≡ true
  move d d' m q = subst (λ x. matches x ≡ true) q m

  Covered-Active : Covered s e matches hour day → Active
  unfolding Active Covered stretch_hours stretch_start previous_weekday
  Covered-Active (d, k, ld, m, lk, at) = elim (orders s e k) [
    | inl q ↦ inl (q, move d day m (ground (arith, q, lk, at)))
    | inr (inl lt) ↦ inr (
        inl (
          lt,
          ground (arith, lk, at),
          ground (arith, lk, at),
          move d day m (ground (arith, lk, at)),
        ))
    | inr (inr (inl (gt, near))) ↦
        inr (inr (inl (gt, ground (arith, lk, at), move d day m (ground (arith, lk, at)))))
    | inr (inr (inr (gt, far))) ↦ inr (
        inr (
          inr
            (gt, ground (arith, lk, at), move d (previous_weekday day) m (ground (arith, lk, at)))))
  ]

clamp_hour-in_range : (h : ℤ) (n : ℕ) → h ≡ pos n → n < 24 → clamp_hour h ≡ pos n
unfolding clamp_hour
clamp_hour-in_range h n e lt = rw (e) (ground arith)

window_active-in_range :
    (win : ScheduleWindow) (s e hour day : ℕ)
    → win.start_hour ≡ pos s
    → win.end_hour ≡ pos e
    → s < 24
    → e < 24
    → window_active win hour day ≡ active_between (pos s) (pos e) (day_matches win.days) hour day
unfolding window_active
window_active-in_range win s e hour day hs he ls le =
    rw (clamp_hour-in_range win.start_hour s hs ls, clamp_hour-in_range win.end_hour e he le) refl

-- A window with both hours in range is active at an hour of a weekday exactly where that hour of
-- the week lies in the stretch that the window makes from some matching day: from its start hour
-- to its end hour, into the next day (and from Saturday into Sunday) if it ends before it starts,
-- and the whole day where both hours are the same.
pub window_active-Covered :
    (win : ScheduleWindow) (s e hour day : ℕ)
    → win.start_hour ≡ pos s
    → win.end_hour ≡ pos e
    → s < 24
    → e < 24
    → hour < 24
    → day < 7
    → (window_active win hour day ≡ true) ↔ Covered s e (day_matches win.days) hour day
window_active-Covered win s e hour day hs he ls le lh ld =
    let matches = day_matches win.days in
    let same = window_active-in_range win s e hour day hs he ls le in
    (
      λ h.
          Active-Covered s e matches hour day ls le lh ld
            (active_cases s e matches hour day ls le lh ld (cc (same, h))),
      λ c. cc (
        same,
        active_of_cases s e matches hour day ls le lh ld
            (Covered-Active s e matches hour day ls le lh ld c),
      ),
    )
