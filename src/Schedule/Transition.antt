-- ===== src/Schedule/Transition.antt =====
-- internal/config/schedule.go: what nextTransition finds, and that its 24 * 8 rounds are enough.
use rungpu_agent.Base.{
  ℕ, zero, suc, ℤ, pos, negsuc, ◌+◌, ◌*◌, ◌<◌, ◌≤◌, ◌≡◌, ◌≢◌, ◌⊎◌, refl, subst, inl, inr,
  Bool-cases, bool_eq, Bool, arith, ◌==◌, bool_beq_iff,
}
use rungpu_agent.Schedule.Clock.{east, west, find_transition, full_hour}

-- The result is the first of the full hours from `start` on, `n` of them, that has the wanted
-- state, or the hour after all of them, none of which has it.
unfoldable pub First : (ℕ → Bool) → Bool → ℕ → ℕ → ℕ → Type 0
First opens want n start result =
    (k : ℕ) × (k ≤ n)
    × (result ≡ start + k * 3600)
    × ((k ≡ n) ⊎ (opens result ≡ want))
    × ((j : ℕ) → j < k → opens (start + j * 3600) ≢ want)

First-here :
    (opens : ℕ → Bool) (want : Bool) (n start : ℕ)
    → opens start ≡ want
    → First opens want (suc n) start start
unfolding First
First-here opens want n start h =
    (0, omega arith, omega arith, inr h, λ j lt. absurd (omega (arith, lt)))

First-later :
    (opens : ℕ → Bool) (want : Bool) (n start result : ℕ)
    → opens start ≢ want
    → First opens want n (start + 3600) result
    → First opens want (suc n) start result
unfolding First
First-later opens want n start result differs (k, le, e, found, before) = (
  suc k,
  omega (arith, le),
  omega (arith, e),
  found_later k n (opens result ≡ want) found,
  before_later k before,
)
  where
    found_later : (k n : ℕ) (P : Type 0) → (k ≡ n) ⊎ P → (suc k ≡ suc n) ⊎ P
    found_later k n P (inl e) = inl (omega (arith, e))
    found_later k n P (inr p) = inr p

    before_later :
        (k : ℕ)
        → ((j : ℕ) → j < k → opens (start + 3600 + j * 3600) ≢ want)
        → (j : ℕ) → j < suc k
        → opens (start + j * 3600) ≢ want
    before_later k before zero lt = subst (λ t. opens t ≢ want) (omega arith) differs
    before_later k before (suc j) lt =
        subst (λ t. opens t ≢ want) (omega arith) (before j (omega (arith, lt)))

First-of_none : (opens : ℕ → Bool) (want : Bool) (start : ℕ) → First opens want 0 start start
unfolding First
First-of_none opens want start =
    (0, omega arith, omega arith, inl refl, λ j h. absurd (omega (arith, h)))

pub First-find_transition :
    (opens : ℕ → Bool) (want : Bool) (n start : ℕ)
    → First opens want n start (find_transition opens want n start)
unfolding find_transition
First-find_transition opens want zero start = First-of_none opens want start
First-find_transition opens want (suc n) start = elim (Bool-cases (opens start == want)) [
  | inl e ↦ rw (find_transition, e) (First-here opens want n start ((bool_beq_iff _ _).0 e))
  | inr e ↦
      rw (find_transition, e)
        (First-later opens want n start _ (λ h. ground (arith, (bool_beq_iff _ _).1 h, e))
          (First-find_transition opens want n (start + 3600)))
]

-- The wall clock of a location with one offset.
unfoldable pub size : ℤ → ℕ
size (pos n) = n
size (negsuc n) = suc n

pub east-add : (t x : ℕ) (o : ℤ) → size o ≤ t → east (t + x) o ≡ east t o + x
unfolding size
east-add t x (pos n) h = omega (arith, h)
east-add t x (negsuc n) h = omega (arith, h)

-- The instant at which the wall clock shows the full hour of now.
pub full_hour-west :
    (now : ℕ) (o : ℤ)
    → size o ≤ 86400
    → 172800 ≤ now
    → (west (full_hour (east now o)) o ≤ now)
      × (now < west (full_hour (east now o)) o + 3600)
      × (east (west (full_hour (east now o)) o) o ≡ full_hour (east now o))
unfolding size
full_hour-west now (pos n) h late =
    (omega (arith, h, late), omega (arith, h, late), omega (arith, h, late))
full_hour-west now (negsuc n) h late =
    (omega (arith, h, late), omega (arith, h, late), omega (arith, h, late))
