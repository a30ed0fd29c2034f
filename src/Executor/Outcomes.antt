-- ===== src/Executor/Outcomes.antt =====
-- Outcomes of execute on concrete input, the theorems about them at inputs where their hypotheses
-- hold, and the end of a job whose stop is not verified.
use rungpu_agent.Base.{
  remove, String, true, false, [], ◌∷◌, Option, none, some, Map, ◌==◌, string_eq, not, ◌||◌, ◌≡◌,
  refl, ◌⊎◌, ◌↔◌,
}
use rungpu_agent.Types.{JobAssignment}
use rungpu_agent.Journal.Records.{is_some, docker_runtime_name, JournalError}
use rungpu_agent.Journal.Store.{store}
use rungpu_agent.Journal.Operations.{complete}
use rungpu_agent.Executor.State.{Executor, mark_stop_unverified, write}
use rungpu_agent.Executor.Run.{finish}
use rungpu_agent.Executor.Promises.{}
use rungpu_agent.Executor.Execute.{
  Value, text, Answers, ended, broke, error_before_run, run_error, execute, end_execution,
}
use rungpu_agent.Executor.Verdicts.{execute-is_unverified}
use rungpu_agent.Executor.Ending.{end_execution-held}
use rungpu_agent.Executor.Cases.{digest, assignment, running_job, running-IsSafe, running-IsLive}

-- Ollama breaks off, so the machine stays reserved.
abbrev broken : Answers
broken = record {
  context_error = none;
  staging_error = none;
  download_error = none;
  prepare_error = none;
  daemon_error = none;
  assign_error = none;
  ran = broke "connection refused";
  teardown_error = none;
  output_size = none;
  size_after = none;
  content_type = "";
  upload_error = none;
}

abbrev encode : Map Value → String
encode out = "{}"

broken_text :
    (execute encode "gpu-0" "cuda" assignment broken).result.error
    ≡ "connection refused; native backend stop cannot be verified; machine remains reserved"
unfolding execute docker_runtime_name
broken_text = refl

execute-is_unverified_example :
    ((execute encode "gpu-0" "cuda" assignment broken).is_unverified ≡ true) ↔ (
      (error_before_run assignment broken ≡ none)
      × (((assignment.runtime == "ollama") ≡ true) × (is_some (run_error broken.ran) ≡ true)
          ⊎ ((assignment.runtime == "ollama") ≡ false)
            × ((not (assignment.runtime == "workspace") || is_some (run_error broken.ran)) ≡ true)
            × (is_some broken.teardown_error ≡ true)))
execute-is_unverified_example = execute-is_unverified encode "gpu-0" "cuda" assignment broken

-- A custom container that writes a file, which is uploaded.
abbrev rendered : Answers
rendered = record broken {
  ran = ended (some (("output_file", text "/out/a.png") ∷ []));
  output_size = some 4;
  size_after = some 4;
  content_type = "image/png";
}

abbrev rendering : JobAssignment
rendering = record assignment { runtime = "docker-custom"; upload_url = "https://pool/upload" }

broken_end : Executor × Option JournalError
unfolding running_job mark_stop_unverified finish complete store remove
broken_end =
    finish 0 (execute encode "gpu-0" "cuda" assignment broken).result
      (write 0 (record (running_job.heap 0) { stop_unverified = true }) running_job)

broken_ends :
    end_execution 0 (execute encode "gpu-0" "cuda" assignment broken) running_job
    ≡ some (broken_end.0, broken_end.1)
unfolding broken_end end_execution execute
broken_ends = refl

broken_is_noted :
    ((execute encode "gpu-0" "cuda" assignment broken).is_unverified
      || (execute encode "gpu-0" "cuda" assignment broken).is_kept)
    ≡ true
unfolding execute docker_runtime_name
broken_is_noted = refl

end_execution-held_example :
    ((broken_end.0.heap 0).is_held ≡ true) × ((broken_end.0.heap 0).done ≡ true)
end_execution-held_example =
    end_execution-held 0 (execute encode "gpu-0" "cuda" assignment broken) running_job broken_end.0
      broken_end.1 running-IsSafe running-IsLive broken_is_noted broken_ends
