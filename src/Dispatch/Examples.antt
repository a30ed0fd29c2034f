-- ===== src/Dispatch/Examples.antt =====
-- A client with the executor of the agent on concrete input, and the theorems of the modules beside
-- at inputs where their hypotheses hold.
use rungpu_agent.Base.{
  ◌∷◌, any, not, lookup, insert, true, false, [], none, some, contains, pair_eq, string_eq, ◌≡◌,
  refl, inr, arith,
}
use rungpu_agent.Types.{JobControl, valid_job_id}
use rungpu_agent.Executor.State.{Executor}
use rungpu_agent.Executor.Cases.{digest, assignment, machine, executor_over, journal}
use rungpu_agent.Dispatch.Starting.{drain_deferred_assignments}
use rungpu_agent.Dispatch.Progress.{must_wait, IsActive, drain_deferred_assignments-IsActive}
use rungpu_agent.Journal.Records.{attempt_key, docker_runtime_name, resource, validate}
use rungpu_agent.Journal.Store.{AttemptJournal, store, atomic_write, catalog_of, sort}
use rungpu_agent.Journal.Operations.{admit, find_or_fresh, refuses_admission}
use rungpu_agent.Executor.Start.{start, refusal, supported_runtime, is_gpu_busy}
use rungpu_agent.Dispatch.Client.{
  accepted, is_tombstoned, assignment_cancelling, Client, JobExecutor, Texts, fence,
}
use rungpu_agent.Dispatch.Assigning.{Reading, assign}
use rungpu_agent.Dispatch.Cancelling.{begin_cancel}
use rungpu_agent.Dispatch.Histories.{Logged, logged, Reached, here, later, assigns, begins}
use rungpu_agent.Dispatch.Limits.{IsBounded}
use rungpu_agent.Dispatch.Invariants.{IsBounded-Reached}
use rungpu_agent.Dispatch.Barred.{barred_never_starts, cancelled_never_starts}
use rungpu_agent.Dispatch.Agent.{agent_executor, start_on}

abbrev executor : JobExecutor Executor
executor = agent_executor machine (λ e. "not started")

abbrev texts : Texts
texts = record { of_journal = λ e. "journal" }

abbrev reading : Reading
reading = record { json_valid = λ text. true; of_assignment = λ e. "invalid" }

client : Client (Logged Executor)
client = record {
  gpu_id = "gpu-0";
  backend = "cuda";
  outbox = record {
    journal = some journal;
    results = [];
    files = [];
    ready = false;
    cancelled = false;
    next_serial = 0;
    faults = [];
  };
  cancelling = [];
  active_assignment = "";
  active_dispatch_token = "";
  deferred_assignments = [];
  settled_attempts = [];
  cancellation_tombstones = [];
  cancellation_admission_fenced = false;
  slot_taken = false;
  sent = [];
  executor = (executor_over journal, []);
}

abbrev control : JobControl
control = record { job_id = "job-1"; dispatch_token = "a" }

control_is_valid : valid_job_id "job-1" ≡ true
unfolding valid_job_id
control_is_valid = refl

abbrev asked : Client (Logged Executor)
asked = (begin_cancel (logged executor) texts control client).0

abbrev offered : Client (Logged Executor)
offered = assign (logged executor) texts reading assignment none asked

cancelled_never_starts_example : contains ("job-1", "a") offered.executor.1 ≡ false
unfolding client
cancelled_never_starts_example =
    cancelled_never_starts executor texts reading control client offered control_is_valid refl tt
      refl (later asked offered here (assigns assignment none))

abbrev shut : Client (Logged Executor)
shut = fence client

shut_offered : Client (Logged Executor)
shut_offered = assign (logged executor) texts reading assignment none shut

barred_never_starts_example : contains ("job-1", "a") shut_offered.executor.1 ≡ false
unfolding client shut_offered
barred_never_starts_example =
    barred_never_starts executor texts reading "job-1" "a" refl shut shut_offered
      (later shut shut_offered here (assigns assignment none)) tt (inr refl) refl

client-IsBounded : IsBounded client
unfolding client
client-IsBounded = record {
  few_deferred = omega arith;
  few_tombstones = omega arith;
  few_settled = omega arith;
  one_slot = refl;
  named = tt;
}

client-Reached : Reached executor texts reading client offered
client-Reached =
    later asked offered (later client asked here (begins control)) (assigns assignment none)

IsBounded-Reached_example : IsBounded offered
IsBounded-Reached_example =
    IsBounded-Reached executor texts reading client offered client-Reached client-IsBounded

-- The assignment was admitted when it was deferred.
deferred_journal : AttemptJournal
unfolding journal admit store atomic_write find_or_fresh refuses_admission docker_runtime_name
    attempt_key resource validate valid_job_id lookup insert catalog_of sort
deferred_journal = (admit assignment "cuda" journal).0

waiting : Client Executor
waiting = record {
  gpu_id = "gpu-0";
  backend = "cuda";
  outbox = record client.outbox { journal = some deferred_journal };
  cancelling = [];
  active_assignment = "";
  active_dispatch_token = "";
  deferred_assignments = ("job-1", assignment) ∷ [];
  settled_attempts = [];
  cancellation_tombstones = [];
  cancellation_admission_fenced = false;
  slot_taken = false;
  sent = [];
  executor = executor_over deferred_journal;
}

waiting_alive : is_tombstoned "job-1" "a" waiting ≡ false
unfolding waiting is_tombstoned lookup
waiting_alive = refl

waiting_welcome :
    (start_on machine (λ e. "not started") assignment waiting.outbox.journal waiting.executor).2
    ≡ accepted
unfolding waiting deferred_journal start refusal supported_runtime is_gpu_busy
waiting_welcome = refl

waiting_ready : any (λ entry. not (must_wait waiting entry)) waiting.deferred_assignments ≡ true
unfolding waiting client assignment_cancelling lookup
waiting_ready = refl

drain_deferred_assignments-IsActive_example : IsActive (drain_deferred_assignments executor waiting)
unfolding waiting
drain_deferred_assignments-IsActive_example =
    drain_deferred_assignments-IsActive executor waiting refl refl refl ((refl, waiting_alive), tt)
      ((λ ready. waiting_welcome), tt) waiting_ready
