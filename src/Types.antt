-- ===== src/Types.antt =====
-- internal/types/types.go: the messages between the agent and the pool, as far as modelled code
-- reads or writes them. JSON payloads that the agent only passes on (a result's map) are kept as
-- their text; the assignment's Input, Parameters and VRAMRequiredGB are left out.
use rungpu_agent.Base.{
  ℤ, Text, String, Bool, List, [], ◌∷◌, Option, Map, ℕ, codes, is_digit, is_lower, is_upper, ◌||◌,
  ◌&&◌, false, leb, length, all, ◌==◌, nat_eq,
}

pub record ScheduleWindow : Type 0 where
  pub start_hour : ℤ
  pub end_hour : ℤ
  pub days : List Text

pub record ScheduleConfig : Type 0 where
  pub enabled : Bool
  pub start_hour : ℤ
  pub end_hour : ℤ
  pub timezone : String
  pub windows : List ScheduleWindow

pub record CustomFile : Type 0 where
  pub url : String
  pub path : String
  pub name : String
  pub sha256 : String

-- Runtime "" is an assignment that names none.
pub record JobAssignment : Type 0 where
  pub resource_name : String
  pub resource_labels : Option (Map String)
  pub resource_daemon_id : String
  pub protocol_version : ℤ
  pub job_id : String
  pub dispatch_token : String
  pub model_name : String
  pub runtime : String
  pub source : String
  pub docker_image : String
  pub custom_files : List CustomFile
  pub workflow_json : String
  pub workflow_sha256 : String
  pub upload_url : String
  pub workspace : Bool
  pub ports : List String

pub record JobControl : Type 0 where
  pub job_id : String
  pub dispatch_token : String

pub record JobCancelAck : Type 0 where
  pub job_id : String
  pub dispatch_token : String
  pub success : Bool
  pub error : String

pub record JobResult : Type 0 where
  pub job_id : String
  pub dispatch_token : String
  pub gpu_id : String
  pub success : Bool
  pub result : Option String
  pub error : String
  pub duration_ms : ℤ

abbrev is_alphanumeric : ℕ → Bool
is_alphanumeric c = is_upper c || is_lower c || is_digit c

abbrev is_id_character : ℕ → Bool
is_id_character c = is_alphanumeric c || c == b'.' || c == b'_' || c == b'-'

-- The pattern [A-Za-z0-9][A-Za-z0-9._-]{0,127}, anchored at both ends.
matches_job_id : List ℕ → Bool
matches_job_id [] = false
matches_job_id (c ∷ cs) = is_alphanumeric c && leb (length cs) 127 && all is_id_character cs

unfoldable pub valid_job_id : String → Bool
unfolding matches_job_id
valid_job_id id = matches_job_id (codes id)
