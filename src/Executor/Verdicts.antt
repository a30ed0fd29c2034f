-- ===== src/Executor/Verdicts.antt =====
-- What the outcome of execute (internal/job/executor.go) means: a success is a verified one, and an
-- execution whose stop is not verified keeps the GPU.
use rungpu_agent.Base.{
  String, Bool, true, false, ◌&&◌, ◌||◌, not, none, Map, ◌==◌, string_eq, nat_eq, list_eq, ◌≡◌,
  refl, arith, ◌⊎◌, inl, inr, ◌↔◌, Option-cases,
}
use rungpu_agent.Types.{JobAssignment}
use rungpu_agent.Journal.Records.{is_some}
use rungpu_agent.Executor.Execute.{
  Value, Answers, error_before_run, run_error, output, after_run, output_path, is_zero, execute,
}

-- The removal of the containers is verified, where execute attempts it.
abbrev pub is_torn_down : JobAssignment → Answers → Bool
is_torn_down a o =
    a.runtime == "ollama" || a.runtime == "workspace" || not (is_some o.teardown_error)

abbrev pub is_uploaded : JobAssignment → Answers → Bool
is_uploaded a o =
    a.upload_url == ""
    || (is_some (output_path (output o.ran))
        && not (is_zero o.output_size)
        && not (is_some o.upload_error))

after_run-unverified :
    (a : JobAssignment) (o : Answers)
    → ((after_run a o).1 ≡ true) ↔ (
        ((a.runtime == "ollama") ≡ true) × (is_some (run_error o.ran) ≡ true)
        ⊎ ((a.runtime == "ollama") ≡ false)
          × ((not (a.runtime == "workspace") || is_some (run_error o.ran)) ≡ true)
          × (is_some o.teardown_error ≡ true))
unfolding after_run
after_run-unverified a o = ground arith

module _ (encode : Map Value → String) (gpu backend : String) where
  -- execute notes an unverified stop exactly if the runtime was entered and either the runtime is
  -- Ollama and its run failed, or it is another one whose containers were to be removed, which is
  -- always but for a workspace that runs, and that removal was not verified.
  pub execute-is_unverified :
      (a : JobAssignment) (o : Answers)
      → ((execute encode gpu backend a o).is_unverified ≡ true) ↔ (
          (error_before_run a o ≡ none)
          × (((a.runtime == "ollama") ≡ true) × (is_some (run_error o.ran) ≡ true)
              ⊎ ((a.runtime == "ollama") ≡ false)
                × ((not (a.runtime == "workspace") || is_some (run_error o.ran)) ≡ true)
                × (is_some o.teardown_error ≡ true)))
  unfolding execute
  execute-is_unverified a o = elim (Option-cases (error_before_run a o)) [
    | inr (e, early) ↦ rw (execute, early) (λ w. absurd (cc w), λ (none', u). absurd (cc none'))
    | inl go ↦
        let (to, from) = after_run-unverified a o in
        rw (execute, go) (λ w. (refl, to w), λ (none', u). from u)
  ]
