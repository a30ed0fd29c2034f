-- ===== src/Executor/Bounds.antt =====
-- internal/job/executor.go: the bounds of a job's timeout.
use rungpu_agent.Base.{
  ℕ, ◌*◌, ◌<◌, ◌≤◌, ◌≡◌, inl, inr, refl, min, ltb, lt→ltb, ℤ, pos, negsuc, Bool-cases, ◌&&◌, some,
  if◌then◌else◌, arith,
}
use rungpu_agent.Executor.Timeout.{
  ParamValue, second, minute, wrap_int64, param_number, duration_from_param, take_requested,
  cap_or_hour, job_timeout_for_assignment,
}

-- Between one nanosecond and the limit.
pub IsTimeout : ℕ → ℤ → Type 0
IsTimeout limit t = (n : ℕ) × (0 < n) × (n ≤ limit) × (t ≡ pos n)

IsTimeout-take_requested :
    (limit : ℕ) (requested timeout : ℤ)
    → IsTimeout limit timeout
    → IsTimeout limit (take_requested requested timeout)
unfolding IsTimeout
IsTimeout-take_requested limit (negsuc r) timeout h = h
IsTimeout-take_requested limit (pos r) timeout (n, above, below, e) =
    elim (Bool-cases (ltb 0 r && ltb r n)) [
      | inl shorter ↦
          rw (e, shorter) (r, ground (arith, shorter), ground (arith, shorter, below), refl)
      | inr longer ↦ rw (e, longer) (n, above, below, refl)
    ]

-- The limit that stands for one of none.
pub cap_limit : ℤ → ℕ
cap_limit (pos n) = if ltb 0 n then n else 60 * minute
cap_limit (negsuc n) = 60 * minute

IsTimeout-cap_or_hour : (cap : ℤ) → IsTimeout (cap_limit cap) (cap_or_hour cap)
unfolding IsTimeout cap_limit
IsTimeout-cap_or_hour (pos n) = elim (Bool-cases (ltb 0 n)) [
  | inl e ↦ rw (e) (n, ground (arith, e), omega arith, refl)
  | inr e ↦ rw (e) (60 * minute, omega arith, omega arith, refl)
]
IsTimeout-cap_or_hour (negsuc n) = (60 * minute, omega arith, omega arith, refl)

-- Whatever the parameters of an assignment are, and however their durations overflow, the timeout
-- of a job is positive and at most the agent's limit, which is an hour if there is none.
pub IsTimeout-job_timeout_for_assignment :
    (seconds minutes : ParamValue) (cap : ℤ)
    → IsTimeout (cap_limit cap) (job_timeout_for_assignment seconds minutes cap)
unfolding job_timeout_for_assignment
IsTimeout-job_timeout_for_assignment seconds minutes cap =
    IsTimeout-take_requested (cap_limit cap) (duration_from_param minutes minute) _ (
      IsTimeout-take_requested (cap_limit cap) (duration_from_param seconds second) _
        (IsTimeout-cap_or_hour cap))

wrap_int64-small : (n : ℕ) → n < 9223372036854775808 → wrap_int64 n ≡ pos n
unfolding wrap_int64
wrap_int64-small n h = ground (arith, h)

take_requested-pos : (r t : ℕ) → 0 < r → take_requested (pos r) (pos t) ≡ pos (min r t)
take_requested-pos r t h = ground (arith, h)

duration-small :
    (value : ParamValue) (unit n : ℕ)
    → param_number value ≡ some n
    → n * unit < 9223372036854775808
    → duration_from_param value unit ≡ pos (n * unit)
unfolding duration_from_param
duration-small value unit n e h = rw (e) (wrap_int64-small (n * unit) h)

-- With both parameters positive numbers whose durations fit into 64 bits, and a limit, the timeout
-- is the shortest of the three.
job_timeout_for_assignment-min :
    (seconds minutes : ParamValue) (s m cap : ℕ)
    → param_number seconds ≡ some s
    → param_number minutes ≡ some m
    → 0 < s
    → 0 < m
    → 0 < cap
    → s * second < 9223372036854775808
    → m * minute < 9223372036854775808
    → job_timeout_for_assignment seconds minutes (pos cap)
      ≡ pos (min (m * minute) (min (s * second) cap))
unfolding job_timeout_for_assignment
job_timeout_for_assignment-min seconds minutes s m cap es em ps pm pc fs fm =
    rw
      (
        duration-small seconds second s es fs,
        duration-small minutes minute m em fm,
        lt→ltb 0 cap pc,
        take_requested-pos (s * second) cap (omega (arith, ps)),
        take_requested-pos (m * minute) (min (s * second) cap) (omega (arith, pm)),
      )
      refl
