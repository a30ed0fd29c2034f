-- ===== src/Journal/Operations.antt =====
-- internal/job/journal.go, lines 420-586, and backend_identity.go: the methods of AttemptJournal.
-- The mutex makes each of them one step. A method that returns (record, error) gives the record on
-- every path in Go; here the error path keeps the error alone, since no caller reads the record.
use rungpu_agent.Base.{
  pos, String, Bool, true, false, ◌&&◌, ◌||◌, not, Option, none, some, lookup, contains, length,
  leb, ◌==◌, string_eq, if◌then◌else◌,
}
use rungpu_agent.Digest.{Sha256}
use rungpu_agent.Types.{JobAssignment, JobResult, valid_job_id}
use rungpu_agent.Journal.Records.{
  AttemptRecord, JournalIdentity, JournalError, already_tracked, closed, capacity_reached,
  unsupported_runtime, cannot_enter_runtime, no_durable_record, no_unstarted_proof, record_missing,
  cannot_enter_backend, no_checkpoint, empty_record, max_journal_attempts, docker_runtime_name,
  is_some, attempt_key, resource,
}
use rungpu_agent.Journal.Store.{AttemptJournal, store}

pub data Outcome {ℓ} (A : Type ℓ) : Type ℓ where
  ok : A → Outcome A
  fail : JournalError → Outcome A

-- `return record, j.store(record)`.
abbrev pub with_record :
    AttemptRecord → AttemptJournal × Option JournalError → AttemptJournal × Outcome AttemptRecord
with_record r (j, none) = (j, ok r)
with_record r (j, some e) = (j, fail e)

-- Close: the lock file is not modelled.
unfoldable pub close : AttemptJournal → AttemptJournal
close j = record j { fault = some closed }

module _ ⦃h : Sha256⦄ where
  abbrev pub find : AttemptJournal → String → String → Option AttemptRecord
  find j id token = lookup (attempt_key id token) j.records

  unfoldable pub fresh : AttemptJournal → String → String → Outcome AttemptRecord
  fresh j id token = elim j.fault [
    | some e ↦ fail e
    | none ↦
        if not (valid_job_id id) || leb max_journal_attempts (length j.records)
        then fail capacity_reached
        else ok (record empty_record {
          version = pos 1;
          gpu_id = j.identity.gpu_id;
          job_id = id;
          dispatch_token = token;
        })
  ]

  -- The record that an operation starts from: the one of the attempt, or a fresh one changed by
  -- `start`.
  unfoldable pub find_or_fresh :
      (AttemptRecord → AttemptRecord) → AttemptJournal → String → String → Outcome AttemptRecord
  unfolding fresh
  find_or_fresh start j id token = elim (find j id token) [
    | some r ↦ ok r
    | none ↦ elim (fresh j id token) [ ok r ↦ ok (start r) | fail e ↦ fail e ]
  ]

  -- `if exists && (recovered || …) { return ErrAlreadyTracked }`.
  unfoldable pub refuses_admission : AttemptJournal → String → Option AttemptRecord → Bool
  refuses_admission j key none = false
  refuses_admission j key (some r) =
      contains key j.recovered || r.cancel_requested || not r.known_unstarted || is_some r.result

  abbrev pub admitted : JobAssignment → String → AttemptRecord → AttemptRecord
  admitted a backend r = record r {
    runtime = a.runtime;
    backend = backend;
    docker_daemon_id = a.resource_daemon_id;
    phase = "unstarted";
    known_unstarted = true;
  }

  -- `record.Resource = j.resource(record)`.
  abbrev pub with_resource : JournalIdentity → AttemptRecord → AttemptRecord
  with_resource i r = record r { resource = resource i r }

  abbrev pub admit_record :
      JobAssignment
      → String
      → AttemptJournal
      → Outcome AttemptRecord
      → AttemptJournal × Outcome AttemptRecord
  admit_record a backend j (fail e) = (j, fail e)
  admit_record a backend j (ok r) =
      let r' = with_resource j.identity (admitted a backend r) in with_record r' (store r' j)

  unfoldable pub admit :
      JobAssignment → String → AttemptJournal → AttemptJournal × Outcome AttemptRecord
  unfolding find_or_fresh refuses_admission
  admit a backend j =
      let key = attempt_key a.job_id a.dispatch_token in
      if not (a.runtime == "ollama") && not (docker_runtime_name a.runtime)
      then (j, fail unsupported_runtime)
      else if refuses_admission j key (lookup key j.records)
      then (j, fail already_tracked)
      else admit_record a backend j (find_or_fresh (λ r. r) j a.job_id a.dispatch_token)

  unfoldable pub running : String → String → AttemptJournal → AttemptJournal × Option JournalError
  running id token j = elim (find j id token) [
    | none ↦ (j, some cannot_enter_runtime)
    | some r ↦
        if not r.known_unstarted || r.cancel_requested
        then (j, some cannot_enter_runtime)
        else store (record r { phase = "running"; known_unstarted = false }) j
  ]

  abbrev pub or_else {ℓ} : {A : Type ℓ} → Option A → Option A → Option A
  or_else none b = b
  or_else (some a) b = some a

  abbrev pub succeeded : Option JobResult → Bool
  succeeded none = false
  succeeded (some result) = result.success

  -- The record that Complete writes.
  abbrev pub completed : AttemptRecord → Option JobResult → Bool → AttemptRecord
  completed r result stopped =
      let kept : Option JobResult = or_else result r.result in
      let healthy_workspace : Bool = r.runtime == "workspace" && succeeded kept in
      record r {
        phase = "finished";
        stop_verified = stopped;
        result = kept;
        replay_blocked = not stopped && not healthy_workspace && not r.known_unstarted;
      }

  unfoldable pub complete :
      String
      → String
      → Option JobResult
      → Bool
      → AttemptJournal
      → AttemptJournal × Option JournalError
  complete id token result stopped j = elim (find j id token) [
    | none ↦ (j, some no_durable_record)
    | some r ↦ store (completed r result stopped) j
  ]

  -- A docker attempt that was cancelled before it had a daemon never ran.
  abbrev pub cancelled : AttemptRecord → AttemptRecord
  cancelled r =
      let r' = record r { cancel_requested = true } in
      if docker_runtime_name r.runtime && r.docker_daemon_id == "" && r.phase == "running"
      then record r' { phase = "unstarted"; known_unstarted = true }
      else r'

  abbrev pub cancel_record :
      Bool → AttemptJournal → Outcome AttemptRecord → AttemptJournal × Outcome AttemptRecord
  cancel_record known_unstarted j (fail e) = (j, fail e)
  cancel_record known_unstarted j (ok r) =
      if known_unstarted && not r.known_unstarted
      then (j, fail no_unstarted_proof)
      else with_record (cancelled r) (store (cancelled r) j)

  unfoldable pub remember_cancellation :
      String → String → Bool → AttemptJournal → AttemptJournal × Outcome AttemptRecord
  unfolding find_or_fresh
  remember_cancellation id token known_unstarted j =
      cancel_record known_unstarted j
        (find_or_fresh (λ r. record r { phase = "unknown" }) j id token)

  -- `if record.Phase == "unknown" && !record.StopVerified { record.ReplayBlocked = true }`.
  abbrev pub with_result : JobResult → AttemptRecord → AttemptRecord
  with_result result r =
      let r' = record r { result = some result } in
      if r.phase == "unknown" && not r.stop_verified
      then record r' { replay_blocked = true }
      else r'

  abbrev pub result_record :
      JobResult → AttemptJournal → Outcome AttemptRecord → AttemptJournal × Option JournalError
  result_record result j (fail e) = (j, some e)
  result_record result j (ok r) =
      if is_some r.result then (j, j.fault) else store (with_result result r) j

  unfoldable pub remember_result : JobResult → AttemptJournal → AttemptJournal × Option JournalError
  unfolding find_or_fresh
  remember_result result j = result_record result j (
      find_or_fresh (λ r. record r { phase = "unstarted"; known_unstarted = true }) j result.job_id
        result.dispatch_token)

  abbrev pub legacy : JobResult → AttemptRecord → AttemptRecord
  legacy result r = record r {
    phase = "unknown";
    legacy_unverified = true;
    result = some result;
    replay_blocked = true;
  }

  unfoldable pub remember_legacy_result :
      JobResult → AttemptJournal → AttemptJournal × Outcome AttemptRecord
  unfolding fresh
  remember_legacy_result result j = elim (find j result.job_id result.dispatch_token) [
    | some r ↦ (j, ok r)
    | none ↦ elim (fresh j result.job_id result.dispatch_token) [
      | fail e ↦ (j, fail e)
      | ok r ↦ with_record (legacy result r) (store (legacy result r) j)
    ]
  ]

  unfoldable pub block_replay :
      String → String → Bool → AttemptJournal → AttemptJournal × Option JournalError
  block_replay id token blocked j = elim (find j id token) [
    | none ↦ (j, some record_missing)
    | some r ↦
        if (r.replay_blocked && blocked) || (not r.replay_blocked && not blocked)
        then (j, j.fault)
        else store (record r { replay_blocked = blocked }) j
  ]

  unfoldable pub accept : String → String → AttemptJournal → AttemptJournal × Option JournalError
  accept id token j = elim (find j id token) [
    | none ↦ (j, j.fault)
    | some r ↦ store (record r { result_accepted = true }) j
  ]

  unfoldable pub assign_docker_daemon :
      String → String → String → AttemptJournal → AttemptJournal × Outcome AttemptRecord
  assign_docker_daemon id token daemon j = elim (find j id token) [
    | none ↦ (j, fail cannot_enter_backend)
    | some r ↦
        if r.cancel_requested || not (r.phase == "running") || daemon == ""
        then (j, fail cannot_enter_backend)
        else let r' = with_resource j.identity (record r { docker_daemon_id = daemon }) in
          with_record r' (store r' j)
  ]

  abbrev pub restarted : AttemptRecord → JobResult
  restarted r = record {
    job_id = r.job_id;
    dispatch_token = r.dispatch_token;
    gpu_id = r.gpu_id;
    success = false;
    result = none;
    error = "agent restarted before runtime entry; assignment was not executed";
    duration_ms = pos 0;
  }

  abbrev pub recovered_unstarted : AttemptRecord → AttemptRecord
  recovered_unstarted r = record r {
    known_unstarted = true;
    stop_verified = true;
    replay_blocked = false;
    phase = "finished";
    result = or_else r.result (some (restarted r));
  }

  -- A missing key reads as the zero record, which the guard refuses.
  unfoldable pub recover_unstarted :
      AttemptRecord → AttemptJournal → AttemptJournal × Option JournalError
  recover_unstarted r j =
      let current : AttemptRecord = elim (find j r.job_id r.dispatch_token) [
        | none ↦ empty_record
        | some found ↦ found
      ] in
      if not current.known_unstarted
        && (not (docker_runtime_name current.runtime) || not (current.docker_daemon_id == ""))
      then (j, some no_checkpoint)
      else store (recovered_unstarted current) j
