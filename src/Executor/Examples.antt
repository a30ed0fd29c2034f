-- ===== src/Executor/Examples.antt =====
-- internal/job/executor.go: the timeout of a job with a number and a text as its parameters.
use rungpu_agent.Base.{◌≡◌, refl, ◌*◌, pos, some, codes, trim_space}
use rungpu_agent.Executor.Timeout.{
  float, text, other, second, minute, atoi_positive, wrap_int64, duration_from_param, param_number,
  job_timeout_for_assignment,
}
use rungpu_agent.Executor.Bounds.{IsTimeout, cap_limit, IsTimeout-job_timeout_for_assignment}

ninety_seconds :
    job_timeout_for_assignment (float (pos 90)) (text (codes " 5 ")) (pos (60 * minute))
    ≡ pos (90 * second)
unfolding job_timeout_for_assignment duration_from_param wrap_int64 atoi_positive trim_space
ninety_seconds = refl

-- 307445735 minutes overflow to less than a minute and are taken as such.
overflow :
    job_timeout_for_assignment other (float (pos 307445735)) (pos (60 * minute)) ≡ pos 26290448384
unfolding job_timeout_for_assignment duration_from_param wrap_int64
overflow = refl

five : param_number (text (codes " 5 ")) ≡ some 5
unfolding atoi_positive trim_space
five = refl

IsTimeout-job_timeout_for_assignment_example :
    IsTimeout (cap_limit (pos 7)) (job_timeout_for_assignment other (float (pos 307445735)) (pos 7))
IsTimeout-job_timeout_for_assignment_example =
    IsTimeout-job_timeout_for_assignment other (float (pos 307445735)) (pos 7)
