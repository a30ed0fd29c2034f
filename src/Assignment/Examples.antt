-- ===== src/Assignment/Examples.antt =====
-- internal/types/types.go: an assignment with an inline workflow.
use rungpu_agent.Base.{
  pos, String, Bool, true, false, ◌∷◌, ◌≡◌, ◌↔◌, refl, List, [], none, some, clean, clean_segments,
}
use rungpu_agent.Types.{JobAssignment, CustomFile, valid_job_id}
use rungpu_agent.Assignment.{
  workflow_overridden, is_sha256_text, is_workflow_path, is_bad_workflow, check_workflow,
  check_files, validate_assignment,
}
use rungpu_agent.Assignment.Valid.{IsValid, validate_assignment-none}

abbrev digest : String
digest = "0123456789abcdef0123456789abcdef0123456789abcdef0123456789abcdef"

abbrev any_json : String → Bool
any_json s = true

abbrev file_at : String → CustomFile
file_at path = record { url = "https://example.com/f"; path = path; name = "f"; sha256 = digest }

abbrev assignment_with : List CustomFile → JobAssignment
assignment_with files = record {
  resource_name = "";
  resource_labels = none;
  resource_daemon_id = "";
  protocol_version = pos 3;
  job_id = "job-1";
  dispatch_token = "token-1";
  model_name = "model";
  runtime = "docker";
  source = "";
  docker_image = "";
  custom_files = files;
  workflow_json = "{}";
  workflow_sha256 = digest;
  upload_url = "";
  workspace = false;
  ports = [];
}

-- A file cannot take the workflow's place by another spelling of its path.
overridden :
    validate_assignment any_json (assignment_with (file_at "./workflows/x/..//workflow.json" ∷ []))
    ≡ some workflow_overridden
unfolding validate_assignment check_files check_workflow is_bad_workflow is_workflow_path
    is_sha256_text valid_job_id clean clean_segments
overridden = refl

accepted : validate_assignment any_json (assignment_with (file_at "models/x.bin" ∷ [])) ≡ none
unfolding validate_assignment check_files check_workflow is_bad_workflow is_workflow_path
    is_sha256_text valid_job_id clean clean_segments
accepted = refl

validate_assignment-none_example :
    (validate_assignment any_json (assignment_with (file_at "models/x.bin" ∷ [])) ≡ none)
    ↔ IsValid any_json (assignment_with (file_at "models/x.bin" ∷ []))
validate_assignment-none_example =
    validate_assignment-none any_json (assignment_with (file_at "models/x.bin" ∷ []))
