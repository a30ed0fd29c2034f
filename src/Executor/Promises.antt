-- ===== src/Executor/Promises.antt =====
-- What the executor (internal/job/executor.go) promises to the pool client over every history.
use rungpu_agent.Base.{
  ℕ, String, true, false, none, some, lookup, nat_eq, string_eq, ◌≡◌, ◌≢◌, sym, arith, inl, inr,
  ◌<◌, Bool-cases, Option-cases, lookup-insert_self,
}
use rungpu_agent.Digest.{Sha256}
use rungpu_agent.Types.{JobAssignment}
use rungpu_agent.Journal.Records.{AttemptRecord}
use rungpu_agent.Journal.Store.{AttemptJournal}
use rungpu_agent.Journal.Operations.{Outcome, ok, fail, admit, assign_docker_daemon}
use rungpu_agent.Journal.Runs.{Holds}
use rungpu_agent.Executor.State.{
  Executor, forget_execution, mark_stop_unverified, keeps_execution, write,
}
use rungpu_agent.Executor.Start.{Machine, started, refusal, enrol, start}
use rungpu_agent.Executor.Run.{assign_daemon, assigned}
use rungpu_agent.Executor.Cancel.{}
use rungpu_agent.Executor.Histories.{IsLive, Reach}
use rungpu_agent.Executor.Kept.{IsStopped}
use rungpu_agent.Executor.Invariant.{IsSafe, key_at, BothRestored}
use rungpu_agent.Executor.Joining.{refusal-none, idle}
use rungpu_agent.Executor.Safety.{Reach-IsSafe}

module _ ⦃h : Sha256⦄ where
  enrol-started :
      (a a' : JobAssignment) (e : Executor) (t : ℕ) (p : AttemptJournal × Outcome AttemptRecord)
      → (enrol a e p).1 ≡ started t a'
      → (t ≡ e.next)
        × (lookup a.job_id (enrol a e p).0.executions ≡ some t)
        × (((enrol a e p).0.heap t).is_held ≡ true)
  enrol-started a a' e t (j, fail x) w = absurd (cc w)
  enrol-started a a' e t (j, ok r) w =
      let here : e.next ≡ t = cc w in
      (sym here, ground (arith, lookup-insert_self a.job_id e.next e.executions), ground arith)

  module _ (first e : Executor) (past : Reach first e) (safe : IsSafe first) where
    -- In every history from a sound start, Start admits a job only when no earlier execution holds
    -- the GPU any more and each of them has a record in the journal whose stop is verified and that
    -- is closed to admission; the new execution is the next one, is tracked under its job and
    -- holds the GPU.
    pub start_after_stops :
        (m : Machine) (a a' : JobAssignment) (t : ℕ)
        → (start m a e).1 ≡ started t a'
        → ((s : ℕ)
            → s < e.next
            → ((e.heap s).is_held ≡ false) × Holds IsStopped (key_at (e.heap s)) e.journal)
          × (t ≡ e.next)
          × (lookup a.job_id (start m a e).0.executions ≡ some t)
          × (((start m a e).0.heap t).is_held ≡ true)
    unfolding start
    start_after_stops m a a' t w = elim (Option-cases (refusal m a e)) [
      | inr (x, no') ↦ absurd (cc (rw (start, no') at w))
      | inl go ↦
          let now : IsSafe e = Reach-IsSafe first e past safe in
          let free = idle e now (refusal-none m a e go) in
          let (number, found, held) =
            enrol-started a a' e t (admit a e.backend e.journal) (rw (start, go) at w) in
          (
            λ s lt. (free s lt, (now.fits s lt).released (free s lt)),
            number,
            rw (start, go) found,
            rw (start, go) held,
          )
    ]

    -- In every history from a sound start, two different executions hold the GPU at once only if
    -- both of them were restored from the journal when the agent started.
    pub one_holder :
        (s t : ℕ)
        → s < e.next
        → t < e.next
        → s ≢ t
        → (e.heap s).is_held ≡ true
        → (e.heap t).is_held ≡ true
        → BothRestored (e.heap s) (e.heap t)
    one_holder s t ls lt ne l r = (Reach-IsSafe first e past safe).apart s t ls lt ne (inr (l, r))

    -- In every history from a sound start, an execution that has given the GPU back has a record in
    -- the journal whose stop is verified and that is closed to admission.
    pub released_is_stopped :
        (t : ℕ)
        → t < e.next
        → (e.heap t).is_held ≡ false
        → Holds IsStopped (key_at (e.heap t)) e.journal
    released_is_stopped t lt free = ((Reach-IsSafe first e past safe).fits t lt).released free

    -- In every history from a sound start, the goroutine of an execution that is not done finds its
    -- own execution under its job: neither markStopUnverified nor the assignment of a daemon meets
    -- a nil pointer.
    pub live_is_tracked :
        (t : ℕ) (daemon : String)
        → IsLive t e
        → (mark_stop_unverified (e.heap t).job_id e
            ≡ some (write t (record (e.heap t) { stop_unverified = true }) e))
          × (assign_daemon t daemon e ≢ none)
    unfolding mark_stop_unverified assign_daemon
    live_is_tracked t daemon (lt, running) =
        let f = (Reach-IsSafe first e past safe).fits t lt in
        let found : lookup (e.heap t).job_id e.executions ≡ some t = f.tracked (f.live running) in
        (
          rw (mark_stop_unverified, found),
          at found
              (assign_docker_daemon (e.heap t).job_id (e.heap t).dispatch_token daemon e.journal),
        )
      where
        at :
            lookup (e.heap t).job_id e.executions ≡ some t
            → (p : AttemptJournal × Outcome AttemptRecord) → assigned (e.heap t).job_id e p ≢ none
        at found (j, fail x) w = cc w
        at found (j, ok r) w = cc (rw (assigned, found) at w)

    -- In every history from a sound start, ForgetExecution drops a job only when its execution is
    -- done and its stop is verified in the journal.
    pub forgotten_is_stopped :
        (id : String) (t : ℕ)
        → lookup id e.executions ≡ some t
        → lookup id (forget_execution id e).executions ≡ none
        → ((e.heap t).done ≡ true) × Holds IsStopped (key_at (e.heap t)) e.journal
    unfolding forget_execution
    forgotten_is_stopped id t found gone = elim (Bool-cases (keeps_execution e id (e.heap t))) [
      | inl kept ↦ absurd (cc (found, rw (forget_execution, found, kept) at gone))
      | inr dropped ↦
          let (lt, job) = (Reach-IsSafe first e past safe).known id t found in
          (ended t dropped, released_is_stopped t lt (free t dropped))
    ]
      where
        ended : (t : ℕ) → keeps_execution e id (e.heap t) ≡ false → (e.heap t).done ≡ true
        ended t w = ground arith

        free : (t : ℕ) → keeps_execution e id (e.heap t) ≡ false → (e.heap t).is_held ≡ false
        free t w = ground arith
