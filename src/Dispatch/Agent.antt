-- ===== src/Dispatch/Agent.antt =====
-- The executor of internal/job/executor.go as the jobExecutor of internal/pool/client.go.
use rungpu_agent.Base.{String, Bool, true, false, Option, none, some}
use rungpu_agent.Digest.{Sha256}
use rungpu_agent.Types.{JobAssignment}
use rungpu_agent.Journal.Records.{already_tracked}
use rungpu_agent.Journal.Store.{AttemptJournal}
use rungpu_agent.Executor.State.{Executor, is_tracked, tracked_dispatch_token, forget_execution}
use rungpu_agent.Executor.Start.{
  Machine, StartError, StartAnswer, started, refused, not_admitted, start,
}
use rungpu_agent.Dispatch.Client.{JobExecutor, StartReply, accepted}

-- errors.Is(err, job.ErrAlreadyTracked).
abbrev pub is_already_tracked : StartError → Bool
is_already_tracked StartError.already_tracked = true
is_already_tracked (not_admitted already_tracked) = true
is_already_tracked x = false

abbrev pub reply : (StartError → String) → StartAnswer → StartReply
reply text (started t a) = accepted
reply text (refused x) = StartReply.refused (is_already_tracked x) (text x)

module _ ⦃h : Sha256⦄ (machine : Machine) (text : StartError → String) where
  -- The client and the executor have one journal; a client without one is left out.
  abbrev pub start_on :
      JobAssignment
      → Option AttemptJournal
      → Executor
      → Option AttemptJournal × Executor × StartReply
  start_on a none e = (none, e, StartReply.refused false "no journal")
  start_on a (some j) e =
      let answer = start machine a (record e { journal = j }) in
      (some answer.0.journal, answer.0, reply text answer.1)

  abbrev pub agent_executor : JobExecutor Executor
  agent_executor = record {
    start = start_on;
    is_tracked = is_tracked;
    tracked_dispatch_token = tracked_dispatch_token;
    forget_execution = forget_execution;
  }
