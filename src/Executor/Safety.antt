-- ===== src/Executor/Safety.antt =====
-- Every step of an executor (internal/job/executor.go) keeps its invariant, whatever the journal's
-- disk does.
use rungpu_agent.Base.{
  ℕ, String, false, some, lookup, delete, ◌==◌, nat_eq, string_eq, ◌≡◌, refl, ap, arith, inl, inr,
  ◌<◌, Bool-cases, Option-cases, lookup-delete,
}
use text.Mathlib.TextEquality.{eq_iff}
use rungpu_agent.Digest.{Sha256}
use rungpu_agent.Types.{JobAssignment}
use rungpu_agent.Journal.Records.{AttemptRecord, attempt_key}
use rungpu_agent.Journal.Store.{AttemptJournal}
use rungpu_agent.Journal.Operations.{Outcome, ok, fail, admit, assign_docker_daemon}
use rungpu_agent.Journal.Runs.{Holds}
use rungpu_agent.Journal.Admission.{IsClosed}
use rungpu_agent.Executor.State.{Executor, forget_execution, keeps_execution}
use rungpu_agent.Executor.Start.{Machine, refusal, enrol, start}
use rungpu_agent.Executor.Run.{enter, assign_daemon}
use rungpu_agent.Executor.Cancel.{}
use rungpu_agent.Executor.Histories.{
  Step, starts, enters_runtime, assigns_daemon, keeps_workspace, marks, finishes, begins_cancel,
  ends_cancel, forgets, calls, closes, Reach, here, later,
}
use rungpu_agent.Executor.Kept.{
  Keeps, Anywhere, client-Keeps, close-Keeps, running-Keeps, assign_docker_daemon-Keeps,
  admit-Keeps, admit_ok,
}
use rungpu_agent.Executor.Invariant.{IsSafe, Sound, Sound-Keeps}
use rungpu_agent.Executor.Joining.{refusal-none, idle, new-IsSafe}
use rungpu_agent.Executor.Running.{some_inj, assigned-IsSafe, marked-IsSafe, finish-IsSafe}
use rungpu_agent.Executor.Cancelling.{cancel_begin-IsSafe, cancel_end-IsSafe}

module _ ⦃h : Sha256⦄ where
  enrol-IsSafe :
      (a : JobAssignment) (e : Executor) (p : AttemptJournal × Outcome AttemptRecord)
      → IsSafe e
      → ((t : ℕ) → t < e.next → (e.heap t).is_held ≡ false)
      → Keeps Anywhere e.journal p.0
      → ((r : AttemptRecord)
          → p.1 ≡ ok r
          → ¬ Holds IsClosed (attempt_key a.job_id a.dispatch_token) e.journal)
      → IsSafe (enrol a e p).0
  enrol-IsSafe a e (j, fail x) safe free keeps opened = Sound-Keeps keeps safe
  enrol-IsSafe a e (j, ok r) safe free keeps opened =
      new-IsSafe e safe free a r.resource j keeps (opened r refl)

  start-IsSafe :
      (m : Machine) (a : JobAssignment) (e : Executor) → IsSafe e → IsSafe (start m a e).0
  unfolding start
  start-IsSafe m a e safe = elim (Option-cases (refusal m a e)) [
    | inr (x, w) ↦ rw (start, w) safe
    | inl w ↦
        rw (start, w)
          (enrol-IsSafe a e (admit a e.backend e.journal) safe (idle e safe (refusal-none m a e w))
            (admit-Keeps e.journal safe.keyed a e.backend)
            (admit_ok e.journal safe.keyed a e.backend))
  ]

  forget-IsSafe : (id : String) (e : Executor) → IsSafe e → IsSafe (forget_execution id e)
  unfolding forget_execution
  forget-IsSafe id e safe = elim (Option-cases (lookup id e.executions)) [
    | inl miss ↦ rw (forget_execution, miss) safe
    | inr (t, found) ↦ elim (Bool-cases (keeps_execution e id (e.heap t))) [
      | inl w ↦ rw (forget_execution, found, w) safe
      | inr w ↦ rw (forget_execution, found, w) (dropped t found (kept t w))
    ]
  ]
    where
      kept : (t : ℕ) → keeps_execution e id (e.heap t) ≡ false → (e.heap t).is_held ≡ false
      kept t w = ground arith

      dropped :
          (t : ℕ)
          → lookup id e.executions ≡ some t
          → (e.heap t).is_held ≡ false
          → Sound e.heap e.next (delete id e.executions) e.journal
      dropped t found free = record {
        keyed = safe.keyed;
        fits = λ u lt.
            let f = safe.fits u lt in
            record {
              tracked = λ held. elim (Bool-cases (id == (e.heap u).job_id)) [
                | inl same ↦
                    let here : t ≡ u = some_inj t u (
                      cc (
                        found,
                        f.tracked held,
                        ap (λ k. lookup k e.executions) ((eq_iff id _).0 same),
                      )) in
                    absurd (cc (held, free, ap (λ v. (e.heap v).is_held) here))
                | inr other ↦
                    ground (arith, lookup-delete id (e.heap u).job_id e.executions, f.tracked held)
              ];
              released = f.released;
              confirmed = f.confirmed;
              live = f.live;
              settled = f.settled;
              cancelled = f.cancelled;
            };
        known =
            λ other u w. safe.known other u (ground (arith, lookup-delete id other e.executions));
        apart = safe.apart;
      }

  assign_daemon-IsSafe :
      (t : ℕ) (daemon : String) (e e' : Executor) (o : Outcome AttemptRecord)
      → IsSafe e
      → assign_daemon t daemon e ≡ some (e', o)
      → IsSafe e'
  unfolding assign_daemon
  assign_daemon-IsSafe t daemon e e' o safe w =
      assigned-IsSafe (e.heap t).job_id e e' o
        (assign_docker_daemon (e.heap t).job_id (e.heap t).dispatch_token daemon e.journal) safe
        (assign_docker_daemon-Keeps e.journal safe.keyed (e.heap t).job_id (e.heap t).dispatch_token
          daemon)
        w

  enter-IsSafe : (t : ℕ) (e : Executor) → IsSafe e → IsSafe (enter t e).0
  unfolding enter
  enter-IsSafe t e safe =
      Sound-Keeps (running-Keeps e.journal safe.keyed (e.heap t).job_id (e.heap t).dispatch_token)
        safe

  Step-IsSafe : (e e' : Executor) → Step e e' → IsSafe e → IsSafe e'
  Step-IsSafe e e' (starts m a) safe = start-IsSafe m a e safe
  Step-IsSafe e e' (enters_runtime t live) safe = enter-IsSafe t e safe
  Step-IsSafe e e' (assigns_daemon t daemon w r live p) safe =
      assign_daemon-IsSafe t daemon e e' r safe p
  Step-IsSafe e e' (keeps_workspace t live) safe = safe
  Step-IsSafe e e' (marks t w live p) safe = marked-IsSafe (e.heap t).job_id e e' safe p
  Step-IsSafe e e' (finishes t result (lt, running)) safe = finish-IsSafe e safe t lt result running
  Step-IsSafe e e' (begins_cancel id token) safe = cancel_begin-IsSafe id token e safe
  Step-IsSafe e e' (ends_cancel t lt ended asked) safe = cancel_end-IsSafe e safe t lt ended asked
  Step-IsSafe e e' (forgets id) safe = forget-IsSafe id e safe
  Step-IsSafe e e' closes safe = Sound-Keeps (close-Keeps e.journal safe.keyed) safe
  Step-IsSafe e e' (calls c client) safe =
      Sound-Keeps (client-Keeps e.journal safe.keyed c client) safe

  -- Every history of an executor that starts with the invariant keeps it.
  pub Reach-IsSafe : (e e' : Executor) → Reach e e' → IsSafe e → IsSafe e'
  Reach-IsSafe e e' here safe = safe
  Reach-IsSafe e e' (later f w r s) safe = Step-IsSafe f e' s (Reach-IsSafe e f r safe)
