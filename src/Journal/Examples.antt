-- ===== src/Journal/Examples.antt =====
-- Runs of the journal on concrete input, and the theorems of its modules at inputs where their
-- hypotheses hold.
use rungpu_agent.Base.{
  pos, String, insert, true, false, List, [], ◌∷◌, none, some, ◌≡◌, ◌↔◌, refl, ap, ◌⊎◌, lookup,
}
use rungpu_agent.Digest.{Sha256, decodes_to, toy_sha256}
use rungpu_agent.Types.{JobAssignment, valid_job_id}
use rungpu_agent.Journal.Records.{
  is_some, damaged_record, already_tracked, unsupported_runtime, cannot_enter_runtime, attempt_key,
  docker_runtime_name, resource, validate,
}
use rungpu_agent.Journal.Store.{
  AttemptJournal, written, unwritten, store, atomic_write, catalog_of, sort,
}
use rungpu_agent.Journal.Operations.{
  ok, fail, admit, running, remember_cancellation, complete, accept, find_or_fresh,
  refuses_admission,
}
use rungpu_agent.Journal.Lifecycle.{IsKeyed}
use rungpu_agent.Journal.Accepted.{IsAccepted, open_journal-IsAccepted}
use rungpu_agent.Journal.Runs.{Call, admits, completes, accepts, step, run, run-IsKeyed}
use rungpu_agent.Journal.Admission.{running_then_no_admission, cancelled_never_runs}
use rungpu_agent.Journal.Durable.{IsSound}
use rungpu_agent.Journal.Crash.{AllFit, Opens}
use rungpu_agent.Journal.Load.{
  open_journal, read_identity, initialize, rebuild, read_catalog, load_keys, load_files,
}
use rungpu_agent.Journal.Restart.{run-IsSound, reopen_after_crash, after_crash, Recovers}
use rungpu_agent.Journal.Readmission.{
  new_journal, empty_disk, first_opening, restarted_never_readmits,
}

-- The digest of every text but one is the same.
instance abbrev digest : Sha256
digest = toy_sha256 "job-1\0a"

abbrev owner : String
owner = "00112233445566778899aabbccddeeff00112233445566778899aabbccddeeff"

abbrev assignment : JobAssignment
assignment = record {
  resource_name = "";
  resource_labels = none;
  resource_daemon_id = "";
  protocol_version = pos 3;
  job_id = "job-1";
  dispatch_token = "a";
  model_name = "llama";
  runtime = "ollama";
  source = "";
  docker_image = "";
  custom_files = [];
  workflow_json = "";
  workflow_sha256 = "";
  upload_url = "";
  workspace = false;
  ports = [];
}

start : AttemptJournal
start = new_journal (λ r. true) "gpu-0" owner

start-IsSound : IsSound start
unfolding start decodes_to
start-IsSound = (first_opening (λ r. true) "gpu-0" owner refl).1

start-IsKeyed : IsKeyed start.records
unfolding start decodes_to
start-IsKeyed = (first_opening (λ r. true) "gpu-0" owner refl).2

-- The history of calls on the new journal; unfolding it runs the model.
history : List Call → AttemptJournal
unfolding start run step admit running complete remember_cancellation accept store atomic_write
    find_or_fresh refuses_admission docker_runtime_name attempt_key resource validate valid_job_id
    lookup insert catalog_of sort
history cs = run cs start

history-IsKeyed : (cs : List Call) → IsKeyed (history cs).records
unfolding history
history-IsKeyed cs = run-IsKeyed cs start start-IsKeyed

history-IsSound : (cs : List Call) → IsSound (history cs)
unfolding history
history-IsSound cs = run-IsSound cs start start-IsKeyed start-IsSound

abbrev admission : List Call
admission = admits assignment "cuda" ∷ []

enters_once : (running "job-1" "a" (history admission)).1 ≡ none
unfolding history
enters_once = refl

-- The second write fails: the record's file is there, and the journal is fenced.
fenced_journal : AttemptJournal
unfolding start
fenced_journal = record start { disk = record start.disk { outcomes = written ∷ unwritten ∷ [] } }

fenced_history : (run admission fenced_journal).records ≡ []
unfolding history fenced_journal
fenced_history = refl

abbrev finishing : List Call
finishing = completes "job-1" "a" none true ∷ accepts "job-1" "a" ∷ []

running_then_no_admission_example :
    let later : AttemptJournal = run finishing (running "job-1" "a" (history admission)).0 in
    (admit assignment "cuda" later ≡ (later, fail already_tracked))
    ⊎ (admit assignment "cuda" later ≡ (later, fail unsupported_runtime))
running_then_no_admission_example =
    running_then_no_admission "job-1" "a" "cuda" assignment (history admission) finishing
      (history-IsKeyed admission) enters_once refl

cancelled_never_runs_example :
    let later : AttemptJournal =
      run finishing (remember_cancellation "job-1" "a" false (history admission)).0 in
    (running "job-1" "a" later ≡ (later, some cannot_enter_runtime))
    × ((admit assignment "cuda" later ≡ (later, fail already_tracked))
        ⊎ (admit assignment "cuda" later ≡ (later, fail unsupported_runtime)))
unfolding history
cancelled_never_runs_example =
    cancelled_never_runs "job-1" "a" "cuda" false assignment (history admission) finishing
      (history-IsKeyed admission) refl refl

run-IsSound_example : IsSound (run finishing (history admission))
run-IsSound_example =
    run-IsSound finishing (history admission) (history-IsKeyed admission)
      (history-IsSound admission)

-- The journal whose second write fails is as sound as the new one.
fenced_journal-IsSound : IsSound fenced_journal
unfolding fenced_journal
fenced_journal-IsSound =
    let s : IsSound start = start-IsSound in
    record {
      opened = s.opened;
      listed = s.listed;
      durable = record {
        registered = s.durable.registered;
        identity_written = s.durable.identity_written;
        catalog_written = s.durable.catalog_written;
        in_order = s.durable.in_order;
      };
      synced = λ f. record {
        same_records = (s.synced f).same_records;
        same_catalog = (s.synced f).same_catalog;
        catalogued = (s.synced f).catalogued;
        as_many = (s.synced f).as_many;
        same_keys = (s.synced f).same_keys;
      };
      remembered = s.remembered;
    }

fenced_journal-IsKeyed : IsKeyed fenced_journal.records
unfolding fenced_journal
fenced_journal-IsKeyed = start-IsKeyed

-- A record of more than 16 MiB is written without an error, and the directory does not open again.
big_journal : AttemptJournal
big_journal = run admission (new_journal (λ r. false) "gpu-0" owner)

big_record_is_refused :
    (big_journal.fault ≡ none)
    × ((open_journal "gpu-0" owner (after_crash big_journal.disk)).1 ≡ fail damaged_record)
unfolding history big_journal open_journal read_identity decodes_to initialize rebuild read_catalog
    load_keys load_files
big_record_is_refused = (refl, refl)

reopen_after_crash_example :
    let before : AttemptJournal = run admission fenced_journal in
    AllFit before.disk ↔ (
      (after : AttemptJournal) × Opens before.identity.gpu_id owner (after_crash before.disk) after
      × Recovers before after)
reopen_after_crash_example =
    reopen_after_crash owner fenced_journal admission fenced_journal-IsKeyed fenced_journal-IsSound

first_opening_example :
    (open_journal "gpu-0" owner (empty_disk (λ r. true))
      ≡ ((new_journal (λ r. true) "gpu-0" owner).disk, ok (new_journal (λ r. true) "gpu-0" owner)))
    × IsSound (new_journal (λ r. true) "gpu-0" owner)
    × IsKeyed (new_journal (λ r. true) "gpu-0" owner).records
unfolding decodes_to
first_opening_example = first_opening (λ r. true) "gpu-0" owner refl

reopened :
    (k : AttemptJournal) × Opens
      (history admission).identity.gpu_id
      owner
      (after_crash (history admission).disk)
      k
unfolding history
reopened = (r.0, r.1)
  where
    r :
        (after : AttemptJournal) × Opens
          (history admission).identity.gpu_id
          owner
          (after_crash (history admission).disk)
          after
        × Recovers (history admission) after
    r =
        unfold run in
        (reopen_after_crash owner (history admission) [] (history-IsKeyed admission)
            (history-IsSound admission)).0
          (λ r e. refl, tt)

admitted_known : is_some (lookup (attempt_key "job-1" "a") (history admission).records) ≡ true
unfolding history
admitted_known = refl

restarted_never_readmits_example :
    (admit assignment "cuda" (run finishing reopened.0)
      ≡ (run finishing reopened.0, fail already_tracked))
    ⊎ (admit assignment "cuda" (run finishing reopened.0)
        ≡ (run finishing reopened.0, fail unsupported_runtime))
restarted_never_readmits_example =
    restarted_never_readmits (history admission).identity.gpu_id owner "cuda" (history admission)
      reopened.0 assignment finishing (history-IsSound admission) admitted_known reopened.1

open_journal-IsAccepted_example : IsAccepted (history admission).identity.gpu_id reopened.0
open_journal-IsAccepted_example =
    open_journal-IsAccepted (history admission).identity.gpu_id owner
      (after_crash (history admission).disk) reopened.0 (ap (λ p. p.1) reopened.1.1)
