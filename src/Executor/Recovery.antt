-- ===== src/Executor/Recovery.antt =====
-- internal/job/recovery.go: restoreJournal with TrackUnverifiedLegacy and the answer of
-- restoreLease. The leases and the docker command are shared with the machine, so what they answer
-- for a record is a parameter. The records come in the order in which Go ranges over its map.
use rungpu_agent.Base.{
  suc, String, Bool, true, false, ◌&&◌, ◌||◌, not, List, [], ◌∷◌, Option, none, some, lookup,
  insert, string_eq, ◌==◌, ◌/=◌, nat_eq, pos, if◌then◌else◌,
}
use rungpu_agent.Digest.{Sha256}
use rungpu_agent.Types.{JobResult}
use rungpu_agent.Journal.Records.{
  AttemptRecord, JournalError, OwnedResource, no_resource, docker_runtime_name,
}
use rungpu_agent.Journal.Store.{AttemptJournal}
use rungpu_agent.Journal.Operations.{complete, block_replay, recover_unstarted}
use rungpu_agent.Executor.State.{Execution, Executor, update}

-- InspectOwned answers whether the container runs, none on an error. RemoveOwnedAndVerify answers
-- whether the removal is verified.
pub record Surroundings : Type 0 where
  pub takes_lease : AttemptRecord → Bool
  pub inspect_owned : OwnedResource → Option Bool
  pub remove_owned : OwnedResource → Bool

pub data RecoveryError : Type 0 where
  lease_conflict : RecoveryError
  recovery_failed : JournalError → RecoveryError
  multiple_unresolved : RecoveryError

abbrev pub restored_execution : AttemptRecord → Execution
restored_execution r = record {
  job_id = r.job_id;
  dispatch_token = r.dispatch_token;
  done = true;
  runtime = r.runtime;
  cancel_requested = r.cancel_requested;
  stop_confirmed = false;
  stop_unverified = true;
  is_held = true;
  resource = r.resource;
  restored = true;
}

abbrev pub legacy_execution : AttemptRecord → Execution
legacy_execution r = record {
  job_id = r.job_id;
  dispatch_token = r.dispatch_token;
  done = true;
  runtime = "legacy-unverified";
  cancel_requested = false;
  stop_confirmed = false;
  stop_unverified = true;
  is_held = true;
  resource = no_resource;
  restored = true;
}

abbrev pub track : Execution → Executor → Executor
track x e = record e {
  heap = update e.heap e.next x;
  next = suc e.next;
  executions = insert x.job_id e.next e.executions;
}

unfoldable pub track_unverified_legacy :
    Surroundings → AttemptRecord → Executor → Executor × Option RecoveryError
track_unverified_legacy s r e =
    if not r.legacy_unverified || r.gpu_id /= e.gpu_id
    then (e, none)
    else (elim (lookup r.job_id e.executions) [
      | some t ↦ (e, none)
      | none ↦
          if s.takes_lease r then (track (legacy_execution r) e, none) else (e, some lease_conflict)
    ])

-- What becomes of a docker container: it is verified to be gone, it is a workspace that runs on, or
-- docker failed.
pub data Container : Type 0 where
  gone : Container
  runs_on : Container
  unknown : Container

abbrev pub has_success : Option JobResult → Bool
has_success none = false
has_success (some result) = result.success

abbrev pub removed : Surroundings → AttemptRecord → Container
removed s r = if s.remove_owned r.resource then gone else unknown

unfoldable pub check_container : Surroundings → AttemptRecord → Container
check_container s r =
    if r.runtime == "workspace"
    then (elim (s.inspect_owned r.resource) [
      | none ↦ unknown
      | some running ↦
          if not running || r.cancel_requested || not (has_success r.result)
          then removed s r
          else runs_on
    ])
    else removed s r

abbrev pub stopped_result : String → AttemptRecord → JobResult
stopped_result gpu r = record {
  job_id = r.job_id;
  dispatch_token = r.dispatch_token;
  gpu_id = gpu;
  success = false;
  result = none;
  error = "agent restarted; prior owned Docker execution was stopped";
  duration_ms = pos 0;
}

-- A workspace's result is replaced if the pool has not accepted it.
abbrev pub final_result : String → AttemptRecord → Option JobResult → JobResult
final_result gpu r none = stopped_result gpu r
final_result gpu r (some result) =
    if r.runtime == "workspace" && not r.result_accepted && result.success
    then stopped_result gpu r
    else result

abbrev pub journal_step :
    Executor → AttemptJournal × Option JournalError → Executor × Option RecoveryError
journal_step e (j, none) = (record e { journal = j }, none)
journal_step e (j, some x) = (record e { journal = j }, some (recovery_failed x))

-- `if e.executions[record.JobID] != nil { … }` and the rest of the loop's body.
unfoldable pub keep_reserved : AttemptRecord → Executor → Executor × Option RecoveryError
keep_reserved r e = elim (lookup r.job_id e.executions) [
  | some t ↦ (e, some multiple_unresolved)
  | none ↦
      let e' = track (restored_execution r) e in
      (
        if r.runtime == "workspace" then record e' { workspaces = r.job_id ∷ e.workspaces } else e',
        none,
      )
]

abbrev pub then_keep :
    AttemptRecord → Executor × Option RecoveryError → Executor × Option RecoveryError
then_keep r (e, some x) = (e, some x)
then_keep r (e, none) = keep_reserved r e

module _ ⦃h : Sha256⦄ where
  unfoldable pub reserve : Bool → AttemptRecord → Executor → Executor × Option RecoveryError
  unfolding keep_reserved
  reserve blocked r e =
      then_keep r (journal_step e (block_replay r.job_id r.dispatch_token blocked e.journal))

  abbrev pub settle_container :
      Container → AttemptRecord → Executor → Executor × Option RecoveryError
  settle_container gone r e =
      journal_step e (
        complete r.job_id r.dispatch_token (some (final_result e.gpu_id r r.result)) true e.journal)
  settle_container runs_on r e = reserve false r e
  settle_container unknown r e = reserve true r e

  unfoldable pub restore_record :
      Surroundings → AttemptRecord → Executor → Executor × Option RecoveryError
  unfolding track_unverified_legacy check_container reserve
  restore_record s r e =
      if r.legacy_unverified
      then track_unverified_legacy s r e
      else if r.phase == "unknown" || r.stop_verified
      then (e, none)
      else if r.known_unstarted || (docker_runtime_name r.runtime && r.docker_daemon_id == "")
      then journal_step e (recover_unstarted r e.journal)
      else if not (s.takes_lease r)
      then (e, some lease_conflict)
      else if docker_runtime_name r.runtime
      then settle_container (check_container s r) r e
      else reserve true r e

  abbrev pub and_then :
      (Executor → Executor × Option RecoveryError)
      → Executor × Option RecoveryError
      → Executor × Option RecoveryError
  and_then rest (e, some x) = (e, some x)
  and_then rest (e, none) = rest e

  unfoldable pub restore_records :
      Surroundings → List AttemptRecord → Executor → Executor × Option RecoveryError
  unfolding restore_record
  restore_records s [] e = (e, none)
  restore_records s (r ∷ rs) e = and_then (restore_records s rs) (restore_record s r e)

  unfoldable pub restore_journal :
      Surroundings → List AttemptRecord → Executor → Executor × Option RecoveryError
  unfolding restore_records
  restore_journal s rs e = restore_records s rs (record e { executions = [] })
