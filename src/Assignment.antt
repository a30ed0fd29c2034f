-- ===== src/Assignment.antt =====
-- internal/types/types.go: what a job assignment must be, (JobAssignment).Validate. Of encoding/json
-- the model takes json.Valid as a parameter.
use rungpu_agent.Base.{
  ℕ, ◌+◌, ◌*◌, ◌≡◌, ℤ, pos, ltb, leb, ltb_ℤ, leb_ℤ, String, Bool, true, false, not, ◌&&◌, ◌||◌,
  List, [], ◌∷◌, Option, none, some, Text, codes, is_digit, length, all, any, clean, if◌then◌else◌,
  ◌==◌, ◌/=◌, string_eq, nat_eq, list_eq,
}
use rungpu_agent.Types.{JobAssignment, CustomFile, valid_job_id}
pub mod Valid
mod Examples

abbrev pub job_protocol_version : ℤ
job_protocol_version = pos 3

pub data AssignmentError : Type 0 where
  unsupported_version : AssignmentError
  invalid_job_id : AssignmentError
  model_name_required : AssignmentError
  runtime_required : AssignmentError
  custom_file_sha256_required : AssignmentError
  invalid_workflow_json : AssignmentError
  workflow_sha256_required : AssignmentError
  workflow_overridden : AssignmentError

abbrev is_lower_hex : ℕ → Bool
is_lower_hex c = is_digit c || (leb b'a' c && leb c b'f')

-- The pattern [a-f0-9]{64}, anchored at both ends.
unfoldable pub is_sha256_text : String → Bool
is_sha256_text s = length (codes s) == 64 && all is_lower_hex (codes s)

-- len of a string is its bytes in UTF-8.
abbrev pub utf8_bytes : Text → ℕ
utf8_bytes [] = 0
utf8_bytes (c ∷ s) =
    (if ltb c 128 then 1 else if ltb c 2048 then 2 else if ltb c 65536 then 3 else 4) + utf8_bytes s

unfoldable pub is_workflow_path : CustomFile → Bool
is_workflow_path f = clean (codes f.path) == codes "workflows/workflow.json"

module _ (json_valid : String → Bool) where
  unfoldable pub is_bad_workflow : String → Bool
  is_bad_workflow json = ltb (256 * 1024) (utf8_bytes (codes json)) || not (json_valid json)

  unfoldable pub check_workflow : JobAssignment → Option AssignmentError
  check_workflow a =
      if is_bad_workflow a.workflow_json
      then some invalid_workflow_json
      else if not (is_sha256_text a.workflow_sha256)
      then some workflow_sha256_required
      else if any is_workflow_path a.custom_files
      then some workflow_overridden
      else none

  unfoldable pub check_files : JobAssignment → Option AssignmentError
  check_files a =
      if any (λ f. not (is_sha256_text f.sha256)) a.custom_files
      then some custom_file_sha256_required
      else if a.workflow_json /= ""
      then check_workflow a
      else none

  -- `none` is an assignment without error.
  unfoldable pub validate_assignment : JobAssignment → Option AssignmentError
  validate_assignment a =
      if ltb_ℤ a.protocol_version (pos 0) || ltb_ℤ job_protocol_version a.protocol_version
      then some unsupported_version
      else if not (valid_job_id a.job_id)
      then some invalid_job_id
      else if a.model_name == ""
      then some model_name_required
      else if leb_ℤ (pos 1) a.protocol_version && a.runtime == ""
      then some runtime_required
      else if leb_ℤ (pos 2) a.protocol_version
      then check_files a
      else none
