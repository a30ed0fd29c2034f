-- ===== src/Executor/Cancelling.antt =====
-- The two steps of a cancellation keep the invariant (internal/job/executor.go, cancelContext).
use rungpu_agent.Base.{
  ℕ, String, Bool, true, false, Option, none, some, lookup, nat_eq, string_eq, if◌then◌else◌, ◌≡◌,
  refl, sym, subst, inl, inr, ◌<◌, Bool-cases, Option-cases,
}
use rungpu_agent.Digest.{Sha256}
use rungpu_agent.Journal.Records.{AttemptRecord, JournalError, attempt_key}
use rungpu_agent.Journal.Store.{AttemptJournal}
use rungpu_agent.Journal.Operations.{Outcome, ok, fail, complete, remember_cancellation}
use rungpu_agent.Journal.Runs.{Holds}
use rungpu_agent.Journal.Admission.{IsClosed}
use rungpu_agent.Executor.State.{Execution, Executor, update, write}
use rungpu_agent.Executor.Start.{}
use rungpu_agent.Executor.Run.{}
use rungpu_agent.Executor.Cancel.{
  CancelAnswer, confirmed, waits, cancel_begin, cancel_end, cancel_untracked, cancel_tracked,
  confirm, stopped, is_other, proves_stop, token_or_empty,
}
use rungpu_agent.Executor.Histories.{}
use rungpu_agent.Executor.Kept.{
  IsStopped, Keeps, Anywhere, remember_cancellation-Keeps, complete_stopped-Keeps, complete_ok,
  remember_cancellation_ok-IsClosed,
}
use rungpu_agent.Executor.Invariant.{IsSafe, Sound, key_at, Sound-Keeps, Sound-update, Fits-Keeps}
use rungpu_agent.Executor.Running.{noted-IsSafe}

module _ ⦃h : Sha256⦄ where
  -- The execution that a goroutine or a cancellation holds changes, and its flags with it.
  module _ (e : Executor) (safe : IsSafe e) (t : ℕ) (lt : t < e.next) where
    abbrev x : Execution
    x = e.heap t

    requested-IsSafe :
        (j : AttemptJournal)
        → Keeps Anywhere e.journal j
        → Holds IsClosed (key_at x) j
        → Sound (update e.heap t (record x { cancel_requested = true })) e.next e.executions j
    requested-IsSafe j keeps closed =
        let f = Fits-Keeps keeps (λ w. tt) (safe.fits t lt) in
        Sound-update t _ (record { job = refl; token = refl; origin = refl; held = λ w. w })
          (record {
            tracked = f.tracked;
            released = f.released;
            confirmed = f.confirmed;
            live = f.live;
            settled = f.settled;
            cancelled = λ w. closed;
          })
          keeps (λ s ls ne w. tt) safe

    stopped-IsSafe :
        (j : AttemptJournal)
        → x.done ≡ true
        → Keeps Anywhere e.journal j
        → Holds IsStopped (key_at x) j
        → Sound (update e.heap t (stopped x)) e.next e.executions j
    stopped-IsSafe j ended keeps (r, found, (v, c)) =
        Sound-update t _ (record { job = refl; token = refl; origin = refl; held = λ w. absurd cc })
          (record {
            tracked = λ w. absurd cc;
            released = λ w. (r, found, (v, c));
            confirmed = λ w. refl;
            live = λ w. absurd (cc (w, ended));
            settled = λ w. ended;
            cancelled = λ w. (r, found, c);
          })
          keeps (λ s ls ne w. tt) safe

    confirm-IsSafe :
        (p : AttemptJournal × Option JournalError)
        → x.done ≡ true
        → Keeps Anywhere e.journal p.0
        → (p.1 ≡ none → Holds IsStopped (key_at x) p.0)
        → IsSafe (confirm t e p).0
    confirm-IsSafe (j, some y) ended keeps good = noted-IsSafe e j t x.resource true lt keeps safe
    confirm-IsSafe (j, none) ended keeps good = stopped-IsSafe j ended keeps (good refl)

    pub cancel_end-IsSafe : x.done ≡ true → x.cancel_requested ≡ true → IsSafe (cancel_end t e).0
    unfolding cancel_end
    cancel_end-IsSafe ended asked =
        confirm-IsSafe (complete x.job_id x.dispatch_token none true e.journal) ended
          (complete_stopped-Keeps e.journal safe.keyed x.job_id x.dispatch_token none)
          (complete_ok e.journal safe.keyed x.job_id x.dispatch_token none
            (inr ((safe.fits t lt).cancelled asked)))

    cancel_tracked-IsSafe :
        (p : AttemptJournal × Outcome AttemptRecord)
        → Keeps Anywhere e.journal p.0
        → ((r : AttemptRecord) → p.1 ≡ ok r → Holds IsClosed (key_at x) p.0)
        → IsSafe (cancel_tracked t e p).0
    cancel_tracked-IsSafe (j, fail y) keeps closed = Sound-Keeps keeps safe
    cancel_tracked-IsSafe (j, ok r) keeps closed = at x.stop_confirmed
      where
        at :
            (b : Bool)
            → let p : Executor × CancelAnswer =
                if b then (record e { journal = j }, confirmed) else (
                  write t (record x { cancel_requested = true }) (record e { journal = j }),
                  waits t r.known_unstarted,
                ) in
              IsSafe p.0
        at true = Sound-Keeps keeps safe
        at false = requested-IsSafe j keeps (closed r refl)

  cancel_untracked-IsSafe :
      (e : Executor) (p : AttemptJournal × Outcome AttemptRecord)
      → IsSafe e
      → Keeps Anywhere e.journal p.0
      → IsSafe (cancel_untracked e p).0
  cancel_untracked-IsSafe e (j, fail y) safe keeps = Sound-Keeps keeps safe
  cancel_untracked-IsSafe e (j, ok r) safe keeps = elim (Bool-cases (proves_stop r)) [
    | inl w ↦ rw w (Sound-Keeps keeps safe)
    | inr w ↦ rw w (Sound-Keeps keeps safe)
  ]

  pub cancel_begin-IsSafe :
      (id : String) (token : Option String) (e : Executor)
      → IsSafe e
      → IsSafe (cancel_begin id token e).0
  unfolding cancel_begin
  cancel_begin-IsSafe id token e safe = elim (Option-cases (lookup id e.executions)) [
    | inl miss ↦
        rw (cancel_begin, miss)
          (cancel_untracked-IsSafe e
            (remember_cancellation id (token_or_empty token) false e.journal) safe
            (remember_cancellation-Keeps e.journal safe.keyed id (token_or_empty token) false))
    | inr (t, found) ↦ elim (Bool-cases (is_other token (e.heap t))) [
      | inl w ↦ rw (cancel_begin, found, w) safe
      | inr w ↦
          let (lt, job) = safe.known id t found in
          rw (cancel_begin, found, w)
            (cancel_tracked-IsSafe e safe t lt
              (remember_cancellation id (e.heap t).dispatch_token false e.journal)
              (remember_cancellation-Keeps e.journal safe.keyed id (e.heap t).dispatch_token false)
              (λ r good.
                subst
                  (λ i.
                    Holds IsClosed (attempt_key i (e.heap t).dispatch_token)
                      (remember_cancellation id (e.heap t).dispatch_token false e.journal).0)
                  (sym job)
                  (remember_cancellation_ok-IsClosed e.journal safe.keyed id
                    (e.heap t).dispatch_token false r good)))
    ]
  ]
