-- ===== src/Executor/Run.antt =====
-- internal/job/executor.go: what the goroutine of Start and execute do to the shared state, one
-- function for each time that they hold the mutex.
use rungpu_agent.Base.{
  remove, ℕ, String, Bool, true, false, ◌&&◌, not, ◌∷◌, Option, none, some, lookup, contains,
  string_eq, nat_eq,
}
use rungpu_agent.Digest.{Sha256}
use rungpu_agent.Types.{JobResult}
use rungpu_agent.Journal.Records.{AttemptRecord, JournalError}
use rungpu_agent.Journal.Store.{AttemptJournal}
use rungpu_agent.Journal.Operations.{Outcome, ok, fail, running, complete, assign_docker_daemon}
use rungpu_agent.Executor.State.{Execution, Executor, update, write, release_execution}

-- `e.workspaces[a.JobID] = true`, after a workspace has started.
abbrev pub keep_workspace : String → Executor → Executor
keep_workspace id e = record e { workspaces = id ∷ e.workspaces }

-- The error is written by the caller: here its text is a parameter.
abbrev pub failed_with : String → JobResult → JobResult
failed_with text result = record result { success = false; error = text }

abbrev pub with_resource_of : ℕ → AttemptRecord → Executor → Executor
with_resource_of t r e = write t (record (e.heap t) { resource = r.resource }) e

-- The end of the goroutine: what Complete answered decides.
abbrev pub finished : Bool → Option JournalError → Execution → Execution
finished stopped (some x) s = record s { stop_unverified = true; done = true }
finished true none s = record (release_execution s) { stop_confirmed = true; done = true }
finished false none s = record s { done = true }

module _ ⦃h : Sha256⦄ where
  -- `e.journal.Running`, before execute.
  unfoldable pub enter : ℕ → Executor → Executor × Option JournalError
  enter t e =
      let answer = running (e.heap t).job_id (e.heap t).dispatch_token e.journal in
      (record e { journal = answer.0 }, answer.1)

  abbrev pub assigned :
      String
      → Executor
      → AttemptJournal × Outcome AttemptRecord
      → Option (Executor × Outcome AttemptRecord)
  assigned id e (j, fail x) = some (record e { journal = j }, fail x)
  assigned id e (j, ok r) = elim (lookup id e.executions) [
    | none ↦ none
    | some t ↦ some (with_resource_of t r (record e { journal = j }), ok r)
  ]

  -- AssignDockerDaemon in execute. `none` is the panic on a job that is not tracked.
  unfoldable pub assign_daemon : ℕ → String → Executor → Option (Executor × Outcome AttemptRecord)
  assign_daemon t daemon e =
      assigned (e.heap t).job_id e
        (assign_docker_daemon (e.heap t).job_id (e.heap t).dispatch_token daemon e.journal)

  -- `!e.workspaces[a.JobID] && !state.cancelRequested && !state.stopUnverified`.
  unfoldable pub is_stopped : Executor → Execution → Bool
  is_stopped e x =
      not (contains x.job_id e.workspaces) && not x.cancel_requested && not x.stop_unverified

  -- The goroutine after execute: the executor, and whether the result is kept as it is. On an error
  -- of Complete the result becomes a failure with the error's text.
  unfoldable pub finish : ℕ → JobResult → Executor → Executor × Option JournalError
  unfolding is_stopped
  finish t result e =
      let x : Execution = e.heap t in
      let stopped : Bool = is_stopped e x in
      let answer = complete x.job_id x.dispatch_token (some result) stopped e.journal in
      (
        record e {
          inflight = remove x.job_id e.inflight;
          journal = answer.0;
          heap = update e.heap t (finished stopped answer.1 x);
        },
        answer.1,
      )

  unfoldable pub sent_result : (JournalError → String) → JobResult → Option JournalError → JobResult
  sent_result text result none = result
  sent_result text result (some x) = failed_with (text x) result
