-- ===== src/Executor/Histories.antt =====
-- Histories of an executor as a step relation: every use of its mutex by Start, by the goroutine of
-- an execution, by a cancellation or by ForgetExecution (internal/job/executor.go), and the calls
-- that the pool client makes on the journal, in any order. A history begins once the client is made:
-- clientWithExecutor calls TrackUnverifiedLegacy before it dispatches anything, so the executions
-- that this adds belong to the first state.
use rungpu_agent.Base.{ℕ, String, Bool, true, false, Option, some, ◌≡◌, ◌<◌}
use rungpu_agent.Digest.{Sha256}
use rungpu_agent.Types.{JobAssignment, JobResult}
use rungpu_agent.Journal.Records.{AttemptRecord}
use rungpu_agent.Journal.Operations.{Outcome, close}
use rungpu_agent.Journal.Runs.{
  Call, admits, enters, completes, cancels, results, legacy_results, blocks, accepts, assigns,
  recovers, step,
}
use rungpu_agent.Executor.State.{Executor, forget_execution, mark_stop_unverified}
use rungpu_agent.Executor.Start.{Machine, start}
use rungpu_agent.Executor.Run.{enter, assign_daemon, keep_workspace, finish}
use rungpu_agent.Executor.Cancel.{cancel_begin, cancel_end}

-- The journal's methods that internal/pool calls, and BlockReplay; Admit is called for a deferred
-- assignment. Close is a step of its own.
abbrev pub is_client_call : Call → Bool
is_client_call (admits a b) = true
is_client_call (enters id token) = false
is_client_call (completes id token x s) = false
is_client_call (cancels id token b) = true
is_client_call (results x) = true
is_client_call (legacy_results x) = true
is_client_call (blocks id token b) = true
is_client_call (accepts id token) = true
is_client_call (assigns id token d) = false
is_client_call (recovers r) = false

-- The goroutine of an execution runs until the execution is done; a cancellation that has waited
-- for `done` takes the mutex again, even when the job has been forgotten in the meantime.
abbrev pub IsLive : ℕ → Executor → Type 0
IsLive t e = (t < e.next) × ((e.heap t).done ≡ false)

module _ ⦃h : Sha256⦄ where
  pub data Step (e : Executor) : Executor → Type 0 where
    starts : (m : Machine) (a : JobAssignment) → Step e (start m a e).0
    enters_runtime : (t : ℕ) → IsLive t e → Step e (enter t e).0
    assigns_daemon :
        (t : ℕ) (daemon : String) (e' : Executor) (r : Outcome AttemptRecord)
        → IsLive t e
        → assign_daemon t daemon e ≡ some (e', r)
        → Step e e'
    keeps_workspace : (t : ℕ) → IsLive t e → Step e (keep_workspace (e.heap t).job_id e)
    marks :
        (t : ℕ) (e' : Executor)
        → IsLive t e
        → mark_stop_unverified (e.heap t).job_id e ≡ some e'
        → Step e e'
    finishes : (t : ℕ) (result : JobResult) → IsLive t e → Step e (finish t result e).0
    begins_cancel : (id : String) (token : Option String) → Step e (cancel_begin id token e).0
    ends_cancel :
        (t : ℕ)
        → t < e.next
        → (e.heap t).done ≡ true
        → (e.heap t).cancel_requested ≡ true
        → Step e (cancel_end t e).0
    forgets : (id : String) → Step e (forget_execution id e)
    closes : Step e (record e { journal = close e.journal })
    calls : (c : Call) → is_client_call c ≡ true → Step e (record e { journal = step c e.journal })

  pub data Reach (first : Executor) : Executor → Type 0 where
    here : Reach first first
    later : (e e' : Executor) → Reach first e → Step e e' → Reach first e'
