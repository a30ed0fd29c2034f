-- ===== src/Schedule/Collected.antt =====
-- internal/config/schedule.go: which names normalizeDays keeps.
use rungpu_agent.Base.{
  ℕ, ◌<◌, ◌≡◌, refl, sym, subst, ◌⊎◌, inl, inr, Bool, true, false, not, ◌&&◌, ◌||◌, List, [], ◌∷◌,
  map, any, ◌/=◌, Text, contains, length, ◌==◌, list_eq, nat_eq, list_beq_iff, arith, Bool-cases,
}
use rungpu_agent.Schedule.Weekdays.{
  weekday_name, parse_weekday, collect_days, normalize_days, day_matches, is_skipped,
  drop_full_week,
}
use rungpu_agent.Schedule.Names.{
  weekday_name-nonempty, Fresh, collect_days-Fresh, collect_days-of_Fresh,
}
use rungpu_agent.Schedule.Week.{full_week}

pub normalize_days_lem :
    (days : List Text) → normalize_days days ≡ drop_full_week (collect_days [] days)
unfolding normalize_days
normalize_days_lem days = refl

kept_name :
    (r name : Text) (seen : List Text)
    → is_skipped r seen ≡ false
    → (r == name) ≡ true
    → contains name seen ≡ false
unfolding is_skipped
kept_name r name seen h e =
    subst (λ n. contains n seen ≡ false) ((list_beq_iff r name).0 e) (ground (arith, h))

skipped_name :
    (r name : Text) (seen : List Text)
    → (name == []) ≡ false
    → is_skipped r seen ≡ true
    → (r == name) ≡ true
    → contains name seen ≡ true
unfolding is_skipped
skipped_name r name seen k h e =
    let same = (list_beq_iff r name).0 e in
    ground (arith, subst (λ n. (n == [] || contains n seen) ≡ true) same h)

kept_test :
    (p c s : Bool) → (p ≡ true → s ≡ false) → (p || (c && not (p || s))) ≡ ((p || c) && not s)
kept_test p c s h = ground (arith, h)

skipped_test : (p c s : Bool) → (p ≡ true → s ≡ true) → (c && not s) ≡ ((p || c) && not s)
skipped_test p c s h = ground (arith, h)

-- A name is collected when some day is parsed to it, unless it is in `seen`.
pub contains-collect_days :
    (name : Text) (seen days : List Text)
    → (name == []) ≡ false
    → contains name (collect_days seen days)
      ≡ (contains name (map parse_weekday days) && not (contains name seen))
unfolding collect_days
contains-collect_days name seen [] h = refl
contains-collect_days name seen (raw ∷ days) h =
    let r = parse_weekday raw in
    let c = contains name (map parse_weekday days) in
    let s = contains name seen in
    elim (Bool-cases (is_skipped r seen)) [
      | inl e ↦
          rw (collect_days, e, contains-collect_days name seen days h)
            (skipped_test (r == name) c s (skipped_name r name seen h e))
      | inr e ↦
          rw (collect_days, e, contains-collect_days name (r ∷ seen) days h)
            (kept_test (r == name) c s (kept_name r name seen e))
    ]

drop_full_week-cases :
    (days : List Text)
    → ((length days ≡ 7) × (drop_full_week days ≡ [])) ⊎ (drop_full_week days ≡ days)
unfolding drop_full_week
drop_full_week-cases days = ground arith

normalize_days-nil : normalize_days [] ≡ []
unfolding normalize_days drop_full_week collect_days
normalize_days-nil = refl

normalize_days-of_Fresh :
    (days : List Text) → Fresh [] days → normalize_days days ≡ drop_full_week days
unfolding normalize_days
normalize_days-of_Fresh days h = cc (collect_days-of_Fresh [] days h)

normalize_days-drop_full_week :
    (days : List Text) → Fresh [] days → normalize_days (drop_full_week days) ≡ drop_full_week days
normalize_days-drop_full_week days h = elim (drop_full_week-cases days) [
  | inl (seven, e) ↦ cc (e, normalize_days-nil)
  | inr e ↦ cc (e, normalize_days-of_Fresh days h)
]

pub normalize_days-normalize_days :
    (days : List Text) → normalize_days (normalize_days days) ≡ normalize_days days
normalize_days-normalize_days days = cc (
  normalize_days-drop_full_week (collect_days [] days) (collect_days-Fresh [] days),
  normalize_days_lem days,
)

abbrev pub is_recognised : Text → Bool
is_recognised day = parse_weekday day /= []

collect_days-recognised :
    (days : List Text) → any is_recognised days ≡ true → (collect_days [] days == []) ≡ false
unfolding collect_days is_skipped
collect_days-recognised [] h = absurd (ground (arith, h))
collect_days-recognised (raw ∷ days) h = ground (arith, h, collect_days-recognised days)

contains-collect_all :
    (days : List Text) (d : ℕ)
    → d < 7
    → contains (weekday_name d) (collect_days [] days)
      ≡ contains (weekday_name d) (map parse_weekday days)
contains-collect_all days d lt =
    ground (arith, contains-collect_days (weekday_name d) [] days (weekday_name-nonempty d lt))

-- A weekday matches a list of days in which some weekday is recognised if the list names it.
pub day_matches-named :
    (days : List Text) (d : ℕ)
    → d < 7
    → any is_recognised days ≡ true
    → day_matches days d ≡ contains (weekday_name d) (map parse_weekday days)
unfolding day_matches
day_matches-named days d lt h =
    let collected = collect_days [] days in
    elim (drop_full_week-cases collected) [
      | inl (seven, e) ↦
          rw (normalize_days_lem days, e, ← contains-collect_all days d lt)
            (sym (full_week collected d (collect_days-Fresh [] days) seven lt))
      | inr e ↦
          rw (normalize_days_lem days, e, collect_days-recognised days h)
            (contains-collect_all days d lt)
    ]

pub collect_days-unrecognised :
    (days : List Text) → any is_recognised days ≡ false → collect_days [] days ≡ []
unfolding collect_days is_skipped
collect_days-unrecognised [] h = refl
collect_days-unrecognised (raw ∷ days) h = ground (arith, h, collect_days-unrecognised days)

pub drop_full_week-nil : drop_full_week [] ≡ []
unfolding drop_full_week
drop_full_week-nil = refl

-- Where none is recognised, every weekday matches.
pub day_matches-unnamed :
    (days : List Text) (d : ℕ) → any is_recognised days ≡ false → day_matches days d ≡ true
unfolding day_matches
day_matches-unnamed days d h =
    rw (normalize_days_lem days, collect_days-unrecognised days h, drop_full_week-nil) refl
