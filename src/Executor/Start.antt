-- ===== src/Executor/Start.antt =====
-- internal/job/executor.go, Start: the checks in their order, the leases and the admission. The gate
-- and the machine's lock are shared with the executors of other GPUs, so their answers are a
-- parameter. An executor of the agent always has a journal; the nil journal of tests is left out.
use rungpu_agent.Base.{
  ℕ, suc, String, Bool, true, false, ◌&&◌, ◌||◌, not, ◌∷◌, Option, none, some, lookup, insert, any,
  ◌==◌, string_eq, nat_eq, if◌then◌else◌,
}
use rungpu_agent.Digest.{Sha256}
use rungpu_agent.Types.{JobAssignment}
use rungpu_agent.Journal.Records.{AttemptRecord, JournalError, OwnedResource, docker_runtime_name}
use rungpu_agent.Journal.Store.{AttemptJournal}
use rungpu_agent.Journal.Operations.{Outcome, ok, fail, admit}
use rungpu_agent.Executor.State.{Execution, Executor, update}

-- MachineRecoveryBlocked, TryLock or TryRLock on the gate, and the machine's lease.
pub record Machine : Type 0 where
  pub recovery_blocked : Bool
  pub gate_free : Bool
  pub lease_free : Bool

pub data StartError : Type 0 where
  journal_fault : JournalError → StartError
  unsupported_runtime : StartError
  machine_reserved : StartError
  already_tracked : StartError
  gpu_busy : StartError
  machine_busy : StartError
  lease_busy : StartError
  not_admitted : JournalError → StartError

-- `started` has the execution and the assignment that its goroutine gets.
pub data StartAnswer : Type 0 where
  started : ℕ → JobAssignment → StartAnswer
  refused : StartError → StartAnswer

abbrev pub is_busy : Execution → Bool
is_busy x = x.stop_unverified || x.is_held

unfoldable pub is_gpu_busy : Executor → Bool
is_gpu_busy e = any (λ entry. is_busy (e.heap entry.1)) e.executions

unfoldable pub supported_runtime : String → Bool
supported_runtime runtime = runtime == "ollama" || docker_runtime_name runtime

-- The checks before the admission. The second loop over the executions, which only repeats a part of
-- the first, and the default case of the switch, which no supported runtime reaches, are left out.
unfoldable pub refusal : Machine → JobAssignment → Executor → Option StartError
refusal m a e = elim e.journal.fault [
  | some x ↦ some (journal_fault x)
  | none ↦
      if not (supported_runtime a.runtime)
      then some unsupported_runtime
      else if e.has_gate && m.recovery_blocked
      then some machine_reserved
      else (elim (lookup a.job_id e.executions) [
        | some t ↦ some already_tracked
        | none ↦
            if is_gpu_busy e
            then some gpu_busy
            else if e.has_gate && not m.gate_free
            then some machine_busy
            else if not m.lease_free
            then some lease_busy
            else none
      ])
]

abbrev pub new_execution : JobAssignment → OwnedResource → Execution
new_execution a resource = record {
  job_id = a.job_id;
  dispatch_token = a.dispatch_token;
  done = false;
  runtime = a.runtime;
  cancel_requested = false;
  stop_confirmed = false;
  stop_unverified = false;
  is_held = true;
  resource = resource;
  restored = false;
}

abbrev pub with_owned : OwnedResource → JobAssignment → JobAssignment
with_owned r a = record a { resource_name = r.name; resource_labels = r.labels }

-- A refused admission gives the leases back.
abbrev pub enrol :
    JobAssignment → Executor → AttemptJournal × Outcome AttemptRecord → Executor × StartAnswer
enrol a e (j, fail x) = (record e { journal = j }, refused (not_admitted x))
enrol a e (j, ok r) = (
  record e {
    heap = update e.heap e.next (new_execution a r.resource);
    next = suc e.next;
    executions = insert a.job_id e.next e.executions;
    inflight = a.job_id ∷ e.inflight;
    journal = j;
  },
  started e.next (with_owned r.resource a),
)

module _ ⦃h : Sha256⦄ where
  unfoldable pub start : Machine → JobAssignment → Executor → Executor × StartAnswer
  unfolding refusal
  start m a e = elim (refusal m a e) [
    | some x ↦ (e, refused x)
    | none ↦ enrol a e (admit a e.backend e.journal)
  ]
