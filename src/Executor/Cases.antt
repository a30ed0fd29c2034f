-- ===== src/Executor/Cases.antt =====
-- Runs of the executor on concrete input, and the theorems of its modules at inputs where their
-- hypotheses hold.
use rungpu_agent.Base.{
  remove, ℕ, pos, String, true, false, [], none, some, string_eq, lookup, insert, delete, ◌≡◌, ◌≢◌,
  refl, arith, ◌<◌,
}
use rungpu_agent.Digest.{Sha256, decodes_to, toy_sha256}
use rungpu_agent.Types.{JobAssignment, JobResult, valid_job_id}
use rungpu_agent.Journal.Records.{attempt_key, docker_runtime_name, resource, validate}
use rungpu_agent.Journal.Store.{AttemptJournal, store, atomic_write, catalog_of, sort}
use rungpu_agent.Journal.Operations.{
  admit, remember_cancellation, complete, find_or_fresh, refuses_admission,
}
use rungpu_agent.Journal.Lifecycle.{IsKeyed}
use rungpu_agent.Journal.Runs.{Holds}
use rungpu_agent.Journal.Readmission.{new_journal, first_opening}
use rungpu_agent.Executor.State.{Execution, Executor, forget_execution, mark_stop_unverified, write}
use rungpu_agent.Executor.Start.{Machine, started, start, is_gpu_busy, supported_runtime}
use rungpu_agent.Executor.Run.{finish, assign_daemon}
use rungpu_agent.Executor.Cancel.{confirmed, cancel_begin, cancel_end, cancel_attempt}
use rungpu_agent.Executor.Histories.{IsLive, Reach, here, later, starts, finishes, begins_cancel}
use rungpu_agent.Executor.Kept.{IsStopped}
use rungpu_agent.Executor.Invariant.{IsSafe, key_at}
use rungpu_agent.Executor.Safety.{Reach-IsSafe}
use rungpu_agent.Executor.Gpu.{Gpu, Moves, idle_gpu, Refines}
use rungpu_agent.Executor.Refinement.{Reach-Moves}
use rungpu_agent.Executor.Promises.{start_after_stops, live_is_tracked, forgotten_is_stopped}
use rungpu_agent.Executor.Confirmed.{IsProven, cancel_attempt_confirmed, cancel_end_stopped}
use rungpu_agent.Executor.Recovery.{Surroundings, restore_journal}
use rungpu_agent.Executor.Execute.{}
use rungpu_agent.Executor.Verdicts.{}
use rungpu_agent.Executor.Restored.{restore_journal-IsSafe}

instance abbrev pub digest : Sha256
digest = toy_sha256 "job-1\0a"

abbrev pub owner : String
owner = "00112233445566778899aabbccddeeff00112233445566778899aabbccddeeff"

abbrev pub assignment : JobAssignment
assignment = record {
  resource_name = "";
  resource_labels = none;
  resource_daemon_id = "";
  protocol_version = pos 3;
  job_id = "job-1";
  dispatch_token = "a";
  model_name = "llama";
  runtime = "ollama";
  source = "";
  docker_image = "";
  custom_files = [];
  workflow_json = "";
  workflow_sha256 = "";
  upload_url = "";
  workspace = false;
  ports = [];
}

abbrev pub result_of : String → String → JobResult
result_of id token = record {
  job_id = id;
  dispatch_token = token;
  gpu_id = "gpu-0";
  success = true;
  result = none;
  error = "";
  duration_ms = pos 5;
}

abbrev pub machine : Machine
machine = record { recovery_blocked = false; gate_free = true; lease_free = true }

abbrev pub surroundings : Surroundings
surroundings = record {
  takes_lease = λ r. true;
  inspect_owned = λ r. none;
  remove_owned = λ r. false;
}

abbrev nobody : Execution
nobody = record {
  job_id = "";
  dispatch_token = "";
  done = true;
  runtime = "";
  cancel_requested = false;
  stop_confirmed = false;
  stop_unverified = false;
  is_held = false;
  resource = record { name = ""; labels = none; daemon_id = "" };
  restored = false;
}

abbrev pub executor_over : AttemptJournal → Executor
executor_over j = record {
  backend = "cuda";
  gpu_id = "gpu-0";
  has_gate = true;
  heap = λ t. nobody;
  next = 0;
  executions = [];
  inflight = [];
  workspaces = [];
  journal = j;
}

unfoldable pub journal : AttemptJournal
journal = new_journal (λ r. true) "gpu-0" owner

pub journal-IsKeyed : IsKeyed journal.records
unfolding journal decodes_to
journal-IsKeyed = (first_opening (λ r. true) "gpu-0" owner refl).2

fresh_executor : Executor
fresh_executor = executor_over journal

fresh-IsSafe : IsSafe fresh_executor
unfolding fresh_executor restore_journal
fresh-IsSafe =
    (restore_journal-IsSafe surroundings [] (executor_over journal) refl journal-IsKeyed tt refl).0

-- The whole model, run on the new executor.
unfoldable pub running_job : Executor
unfolding fresh_executor journal start admit store atomic_write find_or_fresh refuses_admission
    docker_runtime_name attempt_key resource validate valid_job_id lookup insert catalog_of sort
    is_gpu_busy supported_runtime
running_job = (start machine assignment fresh_executor).0

starts_first : (start machine assignment fresh_executor).1 ≡ started 0 assignment
unfolding running_job
starts_first = refl

running-Reach : Reach fresh_executor running_job
unfolding running_job
running-Reach = later fresh_executor running_job here (starts machine assignment)

pub running-IsSafe : IsSafe running_job
running-IsSafe = Reach-IsSafe fresh_executor running_job running-Reach fresh-IsSafe

pub running-IsLive : IsLive 0 running_job
unfolding running_job
running-IsLive = (omega arith, refl)

live_is_tracked_example :
    (mark_stop_unverified (running_job.heap 0).job_id running_job
      ≡ some (write 0 (record (running_job.heap 0) { stop_unverified = true }) running_job))
    × (assign_daemon 0 "daemon" running_job ≢ none)
live_is_tracked_example =
    live_is_tracked fresh_executor running_job running-Reach fresh-IsSafe 0 "daemon" running-IsLive

-- The job ends by itself.
ended_job : Executor
unfolding running_job finish complete store atomic_write remove
ended_job = (finish 0 (result_of "job-1" "a") running_job).0

ended-Reach : Reach fresh_executor ended_job
unfolding ended_job
ended-Reach =
    later running_job ended_job running-Reach (finishes 0 (result_of "job-1" "a") running-IsLive)

ended-IsSafe : IsSafe ended_job
ended-IsSafe = Reach-IsSafe fresh_executor ended_job ended-Reach fresh-IsSafe

ended_is_known : lookup "job-1" ended_job.executions ≡ some 0
unfolding ended_job
ended_is_known = refl

ended_is_forgotten : lookup "job-1" (forget_execution "job-1" ended_job).executions ≡ none
unfolding ended_job forget_execution delete
ended_is_forgotten = refl

forgotten_is_stopped_example :
    ((ended_job.heap 0).done ≡ true) × Holds IsStopped (key_at (ended_job.heap 0)) ended_job.journal
forgotten_is_stopped_example =
    forgotten_is_stopped fresh_executor ended_job ended-Reach fresh-IsSafe "job-1" 0 ended_is_known
      ended_is_forgotten

ended_cancels : (cancel_attempt "job-1" "a" ended_job).1 ≡ confirmed
unfolding ended_job cancel_attempt cancel_begin remember_cancellation
ended_cancels = refl

cancel_attempt_confirmed_example :
    Holds IsProven (attempt_key "job-1" "a") (cancel_attempt "job-1" "a" ended_job).0.journal
cancel_attempt_confirmed_example =
    cancel_attempt_confirmed "job-1" "a" ended_job ended-IsSafe ended_cancels

-- A cancellation is requested, the job ends, and the cancellation takes the mutex again.
asked_job : Executor
unfolding running_job cancel_begin remember_cancellation store
asked_job = (cancel_begin "job-1" (some "a") running_job).0

asked-Reach : Reach fresh_executor asked_job
unfolding asked_job
asked-Reach = later running_job asked_job running-Reach (begins_cancel "job-1" (some "a"))

asked-IsLive : IsLive 0 asked_job
unfolding asked_job
asked-IsLive = (omega arith, refl)

waiting_job : Executor
unfolding asked_job finish complete store remove
waiting_job = (finish 0 (result_of "job-1" "a") asked_job).0

waiting-IsSafe : IsSafe waiting_job
unfolding waiting_job
waiting-IsSafe =
    Reach-IsSafe fresh_executor waiting_job
      (later asked_job waiting_job asked-Reach (finishes 0 (result_of "job-1" "a") asked-IsLive))
      fresh-IsSafe

waiting_is_known : 0 < waiting_job.next
unfolding waiting_job
waiting_is_known = omega arith

waiting_is_asked : (waiting_job.heap 0).cancel_requested ≡ true
unfolding waiting_job
waiting_is_asked = refl

waiting_is_confirmed : (cancel_end 0 waiting_job).1 ≡ none
unfolding waiting_job cancel_end
waiting_is_confirmed = refl

cancel_end_stopped_example :
    Holds IsStopped (key_at (waiting_job.heap 0)) (cancel_end 0 waiting_job).0.journal
    × (((cancel_end 0 waiting_job).0.heap 0).is_held ≡ false)
    × (((cancel_end 0 waiting_job).0.heap 0).stop_confirmed ≡ true)
cancel_end_stopped_example =
    cancel_end_stopped 0 waiting_job waiting-IsSafe waiting_is_known waiting_is_asked
      waiting_is_confirmed

fresh_is_new : fresh_executor.next ≡ 0
unfolding fresh_executor
fresh_is_new = refl

Reach-Moves_example : (g : Gpu) × Moves idle_gpu g × Refines ended_job g
Reach-Moves_example = Reach-Moves fresh_executor ended_job fresh-IsSafe fresh_is_new ended-Reach

-- Another job starts after the first has ended.
abbrev second_assignment : JobAssignment
second_assignment = record assignment { job_id = "job-2"; dispatch_token = "b" }

second_starts : (start machine second_assignment ended_job).1 ≡ started 1 second_assignment
unfolding ended_job
second_starts = refl

start_after_stops_example :
    ((s : ℕ)
      → s < ended_job.next
      → ((ended_job.heap s).is_held ≡ false)
        × Holds IsStopped (key_at (ended_job.heap s)) ended_job.journal)
    × (1 ≡ ended_job.next)
    × (lookup "job-2" (start machine second_assignment ended_job).0.executions ≡ some 1)
    × (((start machine second_assignment ended_job).0.heap 1).is_held ≡ true)
start_after_stops_example =
    start_after_stops fresh_executor ended_job ended-Reach fresh-IsSafe machine second_assignment
      second_assignment 1 second_starts
