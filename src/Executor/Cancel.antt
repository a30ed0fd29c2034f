-- ===== src/Executor/Cancel.antt =====
-- internal/job/executor.go: cancelContext, Cancel, CancelAttempt and StopAll. A cancellation holds
-- the mutex at its start and at its end; in between it removes containers and waits.
use rungpu_agent.Base.{
  remove, ℕ, String, Bool, true, false, ◌&&◌, ◌||◌, not, List, [], ◌∷◌, Option, none, some, Map,
  lookup, contains, string_eq, ◌==◌, ◌/=◌, nat_eq, if◌then◌else◌,
}
use rungpu_agent.Digest.{Sha256}
use rungpu_agent.Journal.Records.{AttemptRecord, OwnedResource, JournalError, docker_runtime_name}
use rungpu_agent.Journal.Store.{AttemptJournal}
use rungpu_agent.Journal.Operations.{Outcome, ok, fail, complete, remember_cancellation}
use rungpu_agent.Executor.State.{Execution, Executor, write, release_execution}

pub data CancelError : Type 0 where
  token_required : CancelError
  not_tracked : CancelError
  different_token : CancelError
  journal_failed : JournalError → CancelError
  still_running : CancelError
  runtime_unconfirmed : CancelError
  teardown_unverified : CancelError
  expired : CancelError

-- After the first use of the mutex: an answer, or the execution to wait for with its proof that it
-- never started.
pub data CancelAnswer : Type 0 where
  confirmed : CancelAnswer
  refused : CancelError → CancelAnswer
  waits : ℕ → Bool → CancelAnswer

-- What a cancellation meets in between: whether the first removal of the containers is verified,
-- whether the execution is done before the context, whether the second removal is verified, and
-- whether the context is over after it.
pub record Waiting : Type 0 where
  pub first_removed : Bool
  pub is_done : Bool
  pub second_removed : Bool
  pub is_over : Bool

abbrev pub proves_stop : AttemptRecord → Bool
proves_stop r = r.stop_verified || r.known_unstarted

-- The token of an attempt that the caller may leave open.
abbrev pub token_or_empty : Option String → String
token_or_empty none = ""
token_or_empty (some token) = token

abbrev pub is_other : Option String → Execution → Bool
is_other none x = false
is_other (some token) x = x.dispatch_token /= token

-- `jobID` is not tracked: the journal alone can prove the stop.
abbrev pub cancel_untracked :
    Executor → AttemptJournal × Outcome AttemptRecord → Executor × CancelAnswer
cancel_untracked e (j, fail x) = (record e { journal = j }, refused (journal_failed x))
cancel_untracked e (j, ok r) =
    if proves_stop r
    then (record e { journal = j }, confirmed)
    else (record e { journal = j }, refused not_tracked)

abbrev pub cancel_tracked :
    ℕ → Executor → AttemptJournal × Outcome AttemptRecord → Executor × CancelAnswer
cancel_tracked t e (j, fail x) = (record e { journal = j }, refused (journal_failed x))
cancel_tracked t e (j, ok r) =
    if (e.heap t).stop_confirmed then (record e { journal = j }, confirmed) else (
      write t (record (e.heap t) { cancel_requested = true }) (record e { journal = j }),
      waits t r.known_unstarted,
    )

-- What cancelContext returns after its wait, before it takes the mutex again: `none` is to go on.
unfoldable pub wait_error : String → Bool → Waiting → Option CancelError
wait_error runtime known_unstarted w =
    if not w.is_done
    then some still_running
    else if not (docker_runtime_name runtime) && not known_unstarted
    then some runtime_unconfirmed
    else if not known_unstarted && not (w.first_removed && w.second_removed)
    then some teardown_unverified
    else if w.is_over
    then some expired
    else none

-- removeContainers: with a resource, its owned removal; else that of both names that a job's
-- container may have, and both are tried.
unfoldable pub remove_containers :
    (OwnedResource → Bool) → (String → Bool) → (String → String × String) → String → Executor → Bool
remove_containers remove_owned remove_and_verify container_names id e =
    let by_name : Bool =
      remove_and_verify (container_names id).0 && remove_and_verify (container_names id).1 in
    elim (lookup id e.executions) [
      | none ↦ by_name
      | some t ↦
          if (e.heap t).resource.name == "" then by_name else remove_owned (e.heap t).resource
    ]

abbrev pub unverified : Execution → Execution
unverified x = record x { stop_unverified = true }

abbrev pub stopped : Execution → Execution
stopped x = record (release_execution x) { stop_confirmed = true; stop_unverified = false }

abbrev pub confirm :
    ℕ → Executor → AttemptJournal × Option JournalError → Executor × Option CancelError
confirm t e (j, some x) =
    (write t (unverified (e.heap t)) (record e { journal = j }), some (journal_failed x))
confirm t e (j, none) = (
  write t (stopped (e.heap t))
      (record e { journal = j; workspaces = remove (e.heap t).job_id e.workspaces }),
  none,
)

-- The jobs that StopAll cancels, each of them once.
abbrev needs_stop : Executor → String → Execution → Bool
needs_stop e id x =
    contains id e.inflight
    || contains id e.workspaces
    || x.stop_unverified
    || (x.cancel_requested && not x.stop_confirmed)

abbrev add_job : String → List String → List String
add_job id ids = if contains id ids then ids else id ∷ ids

unfoldable pub add_workspaces : List String → List String → List String
add_workspaces [] ids = ids
add_workspaces (id ∷ rest) ids = add_job id (add_workspaces rest ids)

unfoldable pub jobs_to_stop : Executor → Map ℕ → List String
unfolding add_workspaces
jobs_to_stop e [] = add_workspaces e.workspaces []
jobs_to_stop e ((id, t) ∷ rest) =
    if needs_stop e id (e.heap t) then add_job id (jobs_to_stop e rest) else jobs_to_stop e rest

module _ ⦃h : Sha256⦄ where
  -- The first use of the mutex.
  unfoldable pub cancel_begin : String → Option String → Executor → Executor × CancelAnswer
  cancel_begin id token e = elim (lookup id e.executions) [
    | none ↦ cancel_untracked e (remember_cancellation id (token_or_empty token) false e.journal)
    | some t ↦
        if is_other token (e.heap t)
        then (e, refused different_token)
        else cancel_tracked t e (remember_cancellation id (e.heap t).dispatch_token false e.journal)
  ]

  -- The second.
  unfoldable pub cancel_end : ℕ → Executor → Executor × Option CancelError
  cancel_end t e =
      confirm t e (complete (e.heap t).job_id (e.heap t).dispatch_token none true e.journal)

  -- CancelAttempt's own check.
  unfoldable pub cancel_attempt : String → String → Executor → Executor × CancelAnswer
  cancel_attempt id token e =
      if token == "" then (e, refused token_required) else cancel_begin id (some token) e
