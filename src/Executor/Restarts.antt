-- ===== src/Executor/Restarts.antt =====
-- A restart of the executor on concrete input: the entries of an old outbox are tracked, and the
-- theorems about it at inputs where their hypotheses hold.
use rungpu_agent.Base.{
  ℕ, true, List, [], ◌∷◌, none, some, string_eq, lookup, insert, map, All, ◌≡◌, ◌≢◌, refl, arith,
  ◌⊎◌,
}
use rungpu_agent.Types.{valid_job_id}
use rungpu_agent.Journal.Records.{
  attempt_key, docker_runtime_name, resource, validate, AttemptRecord,
}
use rungpu_agent.Journal.Store.{AttemptJournal, store, atomic_write, catalog_of, sort}
use rungpu_agent.Journal.Operations.{find_or_fresh, remember_legacy_result}
use rungpu_agent.Journal.Lifecycle.{IsKeyed, key_of}
use rungpu_agent.Journal.Runs.{Call, legacy_results, step, run, run-IsKeyed, Holds}
use rungpu_agent.Executor.State.{Executor}
use rungpu_agent.Executor.Histories.{here}
use rungpu_agent.Executor.Kept.{IsStopped}
use rungpu_agent.Executor.Invariant.{IsSafe, BothRestored}
use rungpu_agent.Executor.Promises.{one_holder}
use rungpu_agent.Executor.Recovery.{restore_journal}
use rungpu_agent.Executor.Execute.{}
use rungpu_agent.Executor.Verdicts.{}
use rungpu_agent.Executor.Accounts.{IsUnresolved}
use rungpu_agent.Executor.Restored.{restore_journal-IsSafe, AllPresent}
use rungpu_agent.Executor.Cases.{
  digest, surroundings, result_of, executor_over, journal, journal-IsKeyed,
}

-- Two entries of an old outbox whose state is unknown.
legacy_calls : List Call
legacy_calls = legacy_results (result_of "job-1" "a") ∷ legacy_results (result_of "job-2" "b") ∷ []

legacy_journal : AttemptJournal
unfolding journal legacy_calls run step remember_legacy_result store atomic_write find_or_fresh
    attempt_key resource validate valid_job_id lookup insert catalog_of sort docker_runtime_name
legacy_journal = run legacy_calls journal

legacy-IsKeyed : IsKeyed legacy_journal.records
unfolding legacy_journal
legacy-IsKeyed = run-IsKeyed legacy_calls journal journal-IsKeyed

legacy_records : List AttemptRecord
unfolding legacy_journal
legacy_records = map (λ entry. entry.1) legacy_journal.records

legacy-AllPresent : AllPresent legacy_records legacy_journal
unfolding legacy_records
legacy-AllPresent = (refl, (refl, tt))

reopened : Executor
unfolding legacy_records restore_journal
reopened = (restore_journal surroundings legacy_records (executor_over legacy_journal)).0

legacy_restores :
    (restore_journal surroundings legacy_records (executor_over legacy_journal)).1 ≡ none
unfolding reopened
legacy_restores = refl

restore_journal-IsSafe_example :
    IsSafe reopened
    × All
        (λ r.
          IsUnresolved "gpu-0" r
          → ((t : ℕ) × (lookup r.job_id reopened.executions ≡ some t)
              × ((reopened.heap t).is_held ≡ true))
            ⊎ Holds IsStopped (key_of r) reopened.journal)
        legacy_records
unfolding reopened
restore_journal-IsSafe_example =
    restore_journal-IsSafe surroundings legacy_records (executor_over legacy_journal) refl
      legacy-IsKeyed legacy-AllPresent legacy_restores

reopened-IsSafe : IsSafe reopened
unfolding reopened
reopened-IsSafe =
    (restore_journal-IsSafe surroundings legacy_records (executor_over legacy_journal) refl
      legacy-IsKeyed legacy-AllPresent legacy_restores).0

zero_is_not_one : ◌≢◌ {A = ℕ} 0 1
zero_is_not_one e = omega (arith, e)

one_holder_example : BothRestored (reopened.heap 0) (reopened.heap 1)
unfolding reopened
one_holder_example =
    one_holder reopened reopened here reopened-IsSafe 0 1 (omega arith) (omega arith)
      zero_is_not_one refl refl
