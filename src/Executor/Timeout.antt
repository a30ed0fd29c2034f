-- ===== src/Executor/Timeout.antt =====
-- internal/job/executor.go: jobTimeoutForAssignment and durationFromParam. A duration is a signed
-- 64-bit number of nanoseconds, whose products wrap around.
use rungpu_agent.Base.{
  ℕ, ◌+◌, ◌-◌, ◌*◌, ◌%◌, ◌^◌, ltb, ℤ, pos, negsuc, ltb_ℤ, ◌&&◌, [], ◌∷◌, all, Option, none, some,
  Text, is_digit, trim_space, if◌then◌else◌, ◌==◌, nat_eq, list_eq,
}

-- What Parameters has under a key, as the type switch tells it: a float64, by its whole part (a
-- positive one below 2^63), an int, a string, or another value or none.
pub data ParamValue : Type 0 where
  float : ℤ → ParamValue
  int : ℤ → ParamValue
  text : Text → ParamValue
  other : ParamValue

abbrev pub second : ℕ
second = 1000000000

abbrev pub minute : ℕ
minute = 60 * second

-- The signed number of 64 bits with the same bits.
unfoldable pub wrap_int64 : ℕ → ℤ
wrap_int64 n =
    let bits = n % 2 ^ 64 in if ltb bits (2 ^ 63) then pos bits else negsuc (2 ^ 64 - 1 - bits)

abbrev pub digits_value : ℕ → Text → ℕ
digits_value acc [] = acc
digits_value acc (c ∷ s) = digits_value (10 * acc + (c - b'0')) s

abbrev unsigned : Text → Option ℕ
unsigned [] = none
unsigned (c ∷ s) =
    if all is_digit (c ∷ s) && ltb (digits_value 0 (c ∷ s)) (2 ^ 63)
    then some (digits_value 0 (c ∷ s))
    else none

-- strconv.Atoi where the number is positive; `none` is an error or another number.
unfoldable pub atoi_positive : Text → Option ℕ
atoi_positive [] = none
atoi_positive (c ∷ s) = if c == b'+' then unsigned s else unsigned (c ∷ s)

abbrev positive : ℤ → Option ℕ
positive (pos n) = if ltb 0 n then some n else none
positive (negsuc n) = none

abbrev times : ℕ → Option ℕ → ℤ
times unit none = pos 0
times unit (some n) = wrap_int64 (n * unit)

abbrev pub param_number : ParamValue → Option ℕ
param_number (float v) = positive v
param_number (int v) = positive v
param_number (text s) = atoi_positive (trim_space s)
param_number other = none

unfoldable pub duration_from_param : ParamValue → ℕ → ℤ
duration_from_param value unit = times unit (param_number value)

abbrev pub take_requested : ℤ → ℤ → ℤ
take_requested requested timeout =
    if ltb_ℤ (pos 0) requested && ltb_ℤ requested timeout then requested else timeout

abbrev pub cap_or_hour : ℤ → ℤ
cap_or_hour cap = if ltb_ℤ (pos 0) cap then cap else pos (60 * minute)

-- The values under "timeout_seconds" and "timeout_minutes".
unfoldable pub job_timeout_for_assignment : ParamValue → ParamValue → ℤ → ℤ
job_timeout_for_assignment seconds minutes cap =
    take_requested (duration_from_param minutes minute)
      (take_requested (duration_from_param seconds second) (cap_or_hour cap))
