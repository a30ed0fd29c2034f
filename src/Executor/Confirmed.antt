-- ===== src/Executor/Confirmed.antt =====
-- What a confirmed cancellation rests on (internal/job/executor.go, CancelAttempt, cancelContext).
use rungpu_agent.Base.{
  ℕ, String, Bool, true, false, Option, none, some, lookup, ◌==◌, nat_eq, string_eq, ◌≡◌, refl, ◌∙◌,
  ap, subst, arith, ◌⊎◌, inl, inr, ◌<◌, ◌↔◌, Bool-cases, Option-cases,
}
use text.Mathlib.TextEquality.{eq_iff}
use rungpu_agent.Digest.{Sha256}
use rungpu_agent.Journal.Records.{AttemptRecord, JournalError, attempt_key, docker_runtime_name}
use rungpu_agent.Journal.Store.{AttemptJournal}
use rungpu_agent.Journal.Operations.{Outcome, ok, fail, complete, remember_cancellation}
use rungpu_agent.Journal.Runs.{Holds}
use rungpu_agent.Journal.Admission.{remember_cancellation_ok}
use rungpu_agent.Executor.State.{Execution, Executor}
use rungpu_agent.Executor.Cancel.{
  confirmed, Waiting, wait_error, cancel_begin, cancel_end, cancel_attempt, cancel_untracked,
  cancel_tracked, confirm, is_other, proves_stop,
}
use rungpu_agent.Executor.Kept.{IsStopped, complete_ok, remember_cancellation-Keeps}
use rungpu_agent.Executor.Invariant.{IsSafe, key_at}

-- The record proves that the attempt does not run: its stop is verified, or it never started.
abbrev pub IsProven : AttemptRecord → Type 0
IsProven r = proves_stop r ≡ true

module _ ⦃h : Sha256⦄ where
  cancel_untracked-IsProven :
      (k : String) (e : Executor) (p : AttemptJournal × Outcome AttemptRecord)
      → ((r : AttemptRecord) → p.1 ≡ ok r → lookup k p.0.records ≡ some r)
      → (cancel_untracked e p).1 ≡ confirmed
      → Holds IsProven k (cancel_untracked e p).0.journal
  cancel_untracked-IsProven k e (j, fail x) found w = absurd (cc w)
  cancel_untracked-IsProven k e (j, ok r) found w = elim (Bool-cases (proves_stop r)) [
    | inl good ↦ rw good (r, found r refl, good)
    | inr bad ↦ absurd (cc (rw bad at w))
  ]

  cancel_tracked-IsProven :
      (k : String) (t : ℕ) (e : Executor) (p : AttemptJournal × Outcome AttemptRecord)
      → ((e.heap t).stop_confirmed ≡ true → Holds IsStopped k p.0)
      → (cancel_tracked t e p).1 ≡ confirmed
      → Holds IsProven k (cancel_tracked t e p).0.journal
  cancel_tracked-IsProven k t e (j, fail x) found w = absurd (cc w)
  cancel_tracked-IsProven k t e (j, ok r) found w = elim (Bool-cases (e.heap t).stop_confirmed) [
    | inl good ↦ rw good (let (s, at, (v, c)) = found good in (s, at, ground (arith, v)))
    | inr bad ↦ absurd (cc (rw bad at w))
  ]

  is_other-false :
      (token : String) (x : Execution) → is_other (some token) x ≡ false → x.dispatch_token ≡ token
  is_other-false token x w = ground (arith, eq_iff x.dispatch_token token)

  -- When CancelAttempt returns without an error before any wait, the journal holds a record of that
  -- attempt, and the record proves that the attempt does not run: its stop is verified, or it never
  -- started. The executor must satisfy its invariant, as it does in every history.
  pub cancel_attempt_confirmed :
      (id token : String) (e : Executor)
      → IsSafe e
      → (cancel_attempt id token e).1 ≡ confirmed
      → Holds IsProven (attempt_key id token) (cancel_attempt id token e).0.journal
  unfolding cancel_attempt cancel_begin
  cancel_attempt_confirmed id token e safe w = elim (Bool-cases (token == "")) [
    | inl empty ↦ absurd (cc (rw (cancel_attempt, empty) at w))
    | inr given ↦ elim (Option-cases (lookup id e.executions)) [
      | inl miss ↦
          rw (cancel_attempt, given, cancel_begin, miss)
            (cancel_untracked-IsProven (attempt_key id token) e
              (remember_cancellation id token false e.journal)
              (λ r good.
                let (s, found, (same, c)) =
                  remember_cancellation_ok id token false r e.journal safe.keyed good in
                found ∙ ap some same)
              (rw (cancel_attempt, given, cancel_begin, miss) at w))
      | inr (t, found) ↦ elim (Bool-cases (is_other (some token) (e.heap t))) [
        | inl other ↦ absurd (cc (rw (cancel_attempt, given, cancel_begin, found, other) at w))
        | inr same ↦
            rw (cancel_attempt, given, cancel_begin, found, same)
              (cancel_tracked-IsProven (attempt_key id token) t e
                (remember_cancellation id (e.heap t).dispatch_token false e.journal)
                (λ stop. proof t found (is_other-false token (e.heap t) same) stop)
                (rw (cancel_attempt, given, cancel_begin, found, same) at w))
      ]
    ]
  ]
    where
      proof :
          (t : ℕ)
          → lookup id e.executions ≡ some t
          → (e.heap t).dispatch_token ≡ token
          → (e.heap t).stop_confirmed ≡ true
          → Holds IsStopped
              (attempt_key id token)
              (remember_cancellation id (e.heap t).dispatch_token false e.journal).0
      proof t found same stop =
          let (lt, job) = safe.known id t found in
          let f = safe.fits t lt in
          let k : key_at (e.heap t) ≡ attempt_key id token = cc (job, same) in
          (remember_cancellation-Keeps e.journal safe.keyed id (e.heap t).dispatch_token
              false).stopped
            (attempt_key id token) tt
            (subst (λ x. Holds IsStopped x e.journal) k (f.released (f.confirmed stop)))

  confirm_stopped :
      (t : ℕ) (e : Executor) (k : String) (p : AttemptJournal × Option JournalError)
      → (p.1 ≡ none → Holds IsStopped k p.0)
      → (confirm t e p).1 ≡ none
      → Holds IsStopped k (confirm t e p).0.journal
        × (((confirm t e p).0.heap t).is_held ≡ false)
        × (((confirm t e p).0.heap t).stop_confirmed ≡ true)
  confirm_stopped t e k (j, some x) good w = absurd (cc w)
  confirm_stopped t e k (j, none) good w =
      let (r, found, c) = good refl in ((r, found, c), ground arith, ground arith)

  -- When a cancellation that has waited returns without an error, the journal holds a record of the
  -- attempt whose stop is verified and that is closed to admission, and the execution has given the
  -- GPU back. The executor must satisfy its invariant, and a cancellation of the execution must have
  -- been requested.
  pub cancel_end_stopped :
      (t : ℕ) (e : Executor)
      → IsSafe e
      → t < e.next
      → (e.heap t).cancel_requested ≡ true
      → (cancel_end t e).1 ≡ none
      → Holds IsStopped (key_at (e.heap t)) (cancel_end t e).0.journal
        × (((cancel_end t e).0.heap t).is_held ≡ false)
        × (((cancel_end t e).0.heap t).stop_confirmed ≡ true)
  unfolding cancel_end
  cancel_end_stopped t e safe lt asked w =
      confirm_stopped t e (key_at (e.heap t))
        (complete (e.heap t).job_id (e.heap t).dispatch_token none true e.journal)
        (complete_ok e.journal safe.keyed (e.heap t).job_id (e.heap t).dispatch_token none
          (inr ((safe.fits t lt).cancelled asked)))
        w

-- A cancellation goes on to verify the stop exactly if the execution is done in time, the context
-- is not over, and either the attempt never started, or its runtime is a docker one and both
-- removals of its containers were verified. So a native execution that may have started is never
-- confirmed as stopped.
pub wait_error-none :
    (runtime : String) (known_unstarted : Bool) (w : Waiting)
    → (wait_error runtime known_unstarted w ≡ none) ↔ (
        (w.is_done ≡ true)
        × (w.is_over ≡ false)
        × ((known_unstarted ≡ true)
            ⊎ ((docker_runtime_name runtime ≡ true)
                × (w.first_removed ≡ true)
                × (w.second_removed ≡ true))))
unfolding wait_error
wait_error-none runtime known_unstarted w = ground arith
