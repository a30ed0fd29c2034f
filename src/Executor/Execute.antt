-- ===== src/Executor/Execute.antt =====
-- internal/job/executor.go, execute: what becomes of an assignment, as a function of what the calls
-- in it answer. Downloads, containers and uploads are outside; so is the text of a result's map.
-- Durations and progress messages are left out.
use rungpu_agent.Base.{
  ℕ, pos, String, Bool, true, false, ◌&&◌, ◌||◌, not, List, [], ◌∷◌, Option, none, some, Map,
  lookup, insert, codes, trim_space, ◌<>◌, ◌==◌, ◌/=◌, string_eq, nat_eq, list_eq, if◌then◌else◌,
}
use rungpu_agent.Digest.{Sha256}
use rungpu_agent.Types.{JobAssignment, JobResult}
use rungpu_agent.Journal.Records.{JournalError, docker_runtime_name, is_some}
use rungpu_agent.Executor.State.{Executor, mark_stop_unverified}
use rungpu_agent.Executor.Run.{keep_workspace, finish}

-- A value of a result's map, as far as execute looks at it or makes it.
pub data Value : Type 0 where
  text : String → Value
  size : ℕ → Value
  yes_value : Value
  other_value : String → Value

-- runtime.Run: an error's text, or the output, which may be a nil map.
pub data Ran : Type 0 where
  ended : Option (Map Value) → Ran
  broke : String → Ran

-- What the calls answer: the text of an error, or none. `output_size` and
-- `size_after` are the length of the output file before and after the upload, none if os.Stat fails.
pub record Answers : Type 0 where
  pub context_error : Option String
  pub staging_error : Option String
  pub download_error : Option String
  pub prepare_error : Option String
  pub daemon_error : Option String
  pub assign_error : Option String
  pub ran : Ran
  pub teardown_error : Option String
  pub output_size : Option ℕ
  pub size_after : Option ℕ
  pub content_type : String
  pub upload_error : Option String

-- `is_unverified`: markStopUnverified was called. `is_kept`: the workspace was noted as running.
pub record Executed : Type 0 where
  pub result : JobResult
  pub is_unverified : Bool
  pub is_kept : Bool

abbrev pub or_error : Option String → Option String → Option String
or_error none b = b
or_error (some e) b = some e

abbrev pub when : Bool → Option String → Option String
when true e = e
when false e = none

abbrev pub prefixed : String → Option String → Option String
prefixed before none = none
prefixed before (some e) = some (before <> e)

abbrev pub is_empty_list {ℓ} : {A : Type ℓ} → List A → Bool
is_empty_list [] = true
is_empty_list (x ∷ xs) = false

-- The first error before runtime.Run.
unfoldable pub error_before_run : JobAssignment → Answers → Option String
error_before_run a o = or_error o.context_error (
    or_error
      (when (a.workflow_json /= "") (prefixed "inline workflow staging failed: " o.staging_error))
      (or_error
        (when (not (is_empty_list a.custom_files))
          (prefixed "custom file download failed: " o.download_error))
        (or_error (prefixed "model preparation failed: " o.prepare_error) (
          when (docker_runtime_name a.runtime) (
            or_error (prefixed "Docker backend identity failed: " o.daemon_error)
              o.assign_error)))))

abbrev pub run_error : Ran → Option String
run_error (ended out) = none
run_error (broke e) = some e

abbrev pub output : Ran → Option (Map Value)
output (ended out) = out
output (broke e) = none

-- errors.Join of an error that may be nil and another one.
abbrev pub join : Option String → String → String
join none e = e
join (some first) e = first <> "\n" <> e

-- The error after the teardown, and whether the stop is unverified.
abbrev pub teardown : Option String → Option String → Option String × Bool
teardown e none = (e, false)
teardown e (some t) = (some (join e ("job teardown could not be verified: " <> t)), true)

unfoldable pub after_run : JobAssignment → Answers → Option String × Bool
after_run a o =
    let e : Option String = run_error o.ran in
    if a.runtime == "ollama"
    then (elim e [
      | none ↦ (none, false)
      | some text' ↦ (
        some (text' <> "; native backend stop cannot be verified; machine remains reserved"),
        true,
      )
    ])
    else if not (a.runtime == "workspace") || is_some e
    then teardown e o.teardown_error
    else (e, false)

-- The output after an upload, or the text of an error.
pub data Uploaded : Type 0 where
  uploaded : Option (Map Value) → Uploaded
  not_uploaded : String → Uploaded

abbrev pub output_path : Option (Map Value) → Option String
output_path none = none
output_path (some out) = elim (lookup "output_file" out) [
  | some (text path) ↦ if trim_space (codes path) == [] then none else some path
  | _ ↦ none
]

abbrev pub entries : Option (Map Value) → Map Value
entries none = []
entries (some out) = out

abbrev pub with_upload : Answers → Map Value → Map Value
with_upload o out = elim o.size_after [
  | none ↦ insert "uploaded" yes_value out
  | some n ↦
      insert "output_content_type" (text o.content_type)
        (insert "output_size_bytes" (size n) (insert "uploaded" yes_value out))
]

abbrev pub is_zero : Option ℕ → Bool
is_zero none = false
is_zero (some n) = n == 0

unfoldable pub upload : JobAssignment → Answers → Option (Map Value) → Uploaded
upload a o out = if a.upload_url == "" then uploaded out else (elim (output_path out) [
  | none ↦ not_uploaded "output upload failed: required output_file is missing or empty"
  | some path ↦
      if is_zero o.output_size
      then not_uploaded "output upload failed: required output_file is empty"
      else (elim o.upload_error [
        | some e ↦ not_uploaded ("output upload failed: " <> e)
        | none ↦ uploaded (some (with_upload o (entries out)))
      ])
])

abbrev pub with_backend : String → Map Value → Map Value
with_backend backend out = if backend /= "" then insert "backend" (text backend) out else out

abbrev pub result_map : String → Option (Map Value) → Map Value
result_map backend none = with_backend backend (("status", text "completed") ∷ [])
result_map backend (some out) = with_backend backend out

module _ (encode : Map Value → String) (gpu backend : String) where
  abbrev pub failure : JobAssignment → String → JobResult
  failure a e = record {
    job_id = a.job_id;
    dispatch_token = a.dispatch_token;
    gpu_id = gpu;
    success = false;
    result = none;
    error = e;
    duration_ms = pos 0;
  }

  abbrev pub success_of : JobAssignment → Uploaded → JobResult
  success_of a (not_uploaded e) = failure a e
  success_of a (uploaded out) = record (failure a "") {
    success = true;
    result = some (encode (result_map backend out));
  }

  abbrev pub result_after : JobAssignment → Answers → Option String → JobResult
  result_after a o (some e) = failure a e
  result_after a o none = success_of a (upload a o (output o.ran))

  unfoldable pub execute : JobAssignment → Answers → Executed
  unfolding error_before_run after_run upload
  execute a o = elim (error_before_run a o) [
    | some e ↦ record { result = failure a e; is_unverified = false; is_kept = false }
    | none ↦ record {
      result = result_after a o (after_run a o).0;
      is_unverified = (after_run a o).1;
      is_kept = a.runtime == "workspace" && not (is_some (run_error o.ran));
    }
  ]

-- What execute does to the executor, and the goroutine's end after it: `none` is a nil pointer.
module _ ⦃h : Sha256⦄ where
  abbrev pub note_workspace : Bool → String → Executor → Executor
  note_workspace true id e = keep_workspace id e
  note_workspace false id e = e

  abbrev pub note_unverified : Bool → String → Executor → Option Executor
  note_unverified true id e = mark_stop_unverified id e
  note_unverified false id e = some e

  unfoldable pub end_execution : ℕ → Executed → Executor → Option (Executor × Option JournalError)
  unfolding finish
  end_execution t x e =
      elim (note_unverified x.is_unverified (e.heap t).job_id
        (note_workspace x.is_kept (e.heap t).job_id e)) [
          | none ↦ none
          | some e' ↦ some (finish t x.result e')
        ]
