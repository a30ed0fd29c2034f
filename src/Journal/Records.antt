-- ===== src/Journal/Records.antt =====
-- internal/job/journal.go, lines 22-78 and 354-397: attempt records, their keys, the container
-- that an attempt owns (internal/dockermgr/ownership.go, OwnedResource), and validate.
use rungpu_agent.Base.{
  ℕ, ℤ, pos, String, ◌<>◌, Bool, true, false, ◌&&◌, ◌||◌, not, [], ◌∷◌, Option, none, some, Map,
  ◌==◌, ◌/=◌, int_eq, string_eq, option_eq, list_eq, pair_eq, if◌then◌else◌,
}
use rungpu_agent.Digest.{Sha256}
use rungpu_agent.Types.{JobResult, valid_job_id}

abbrev pub max_journal_attempts : ℕ
max_journal_attempts = 10000

-- The labels are a Go map: `none` for the nil map, else its entries in the order of their keys.
pub record OwnedResource : Type 0 where
  pub name : String
  pub labels : Option (Map String)
  pub daemon_id : String

abbrev pub no_resource : OwnedResource
no_resource = record { name = ""; labels = none; daemon_id = "" }

-- reflect.DeepEqual on two resources.
abbrev pub resource_beq : OwnedResource → OwnedResource → Bool
resource_beq a b = a.name == b.name && a.labels == b.labels && a.daemon_id == b.daemon_id

-- Phase is "unknown", "unstarted", "running" or "finished" in a valid record.
pub record AttemptRecord : Type 0 where
  pub version : ℤ
  pub gpu_id : String
  pub job_id : String
  pub dispatch_token : String
  pub backend : String
  pub docker_daemon_id : String
  pub runtime : String
  pub phase : String
  pub known_unstarted : Bool
  pub cancel_requested : Bool
  pub stop_verified : Bool
  pub resource : OwnedResource
  pub result : Option JobResult
  pub result_accepted : Bool
  pub legacy_unverified : Bool
  pub replay_blocked : Bool

-- The Go zero value.
abbrev pub empty_record : AttemptRecord
empty_record = record {
  version = pos 0;
  gpu_id = "";
  job_id = "";
  dispatch_token = "";
  backend = "";
  docker_daemon_id = "";
  runtime = "";
  phase = "";
  known_unstarted = false;
  cancel_requested = false;
  stop_verified = false;
  resource = no_resource;
  result = none;
  result_accepted = false;
  legacy_unverified = false;
  replay_blocked = false;
}

pub record JournalIdentity : Type 0 where
  pub version : ℤ
  pub gpu_id : String
  pub owner : String
  pub initialized : Bool

pub data JournalError : Type 0 where
  already_tracked : JournalError
  closed : JournalError
  fenced : JournalError → JournalError
  write_failed : JournalError
  invalid_identity invalid_phase inconsistent_ownership foreign_result : JournalError
  capacity_reached unsupported_runtime cannot_enter_runtime no_durable_record : JournalError
  no_unstarted_proof record_missing cannot_enter_backend no_checkpoint : JournalError
  identity_missing identity_mismatch catalog_missing catalog_mismatch : JournalError
  invalid_catalog_key damaged_record misplaced_record : JournalError
  catalogued_record_missing uncatalogued_execution unregistered_records : JournalError

unfoldable pub docker_runtime_name : String → Bool
docker_runtime_name runtime =
    runtime == "docker-custom" || runtime == "comfyui-batch" || runtime == "workspace"

abbrev pub is_some {ℓ} : {A : Type ℓ} → Option A → Bool
is_some none = false
is_some (some a) = true

module _ ⦃h : Sha256⦄ where
  unfoldable pub attempt_key : String → String → String
  attempt_key id token = h.hex_sum (id <> "\0" <> token)

  -- The method's receiver is only read for its identity.
  unfoldable pub resource : JournalIdentity → AttemptRecord → OwnedResource
  resource identity r = if docker_runtime_name r.runtime then owned else no_resource
    where
      key : String
      key = attempt_key r.job_id r.dispatch_token

      owner_identity : String
      owner_identity =
          identity.owner <> "\0" <> r.gpu_id <> "\0" <> r.backend <> "\0" <> r.runtime <> "\0"
          <> r.docker_daemon_id

      owned : OwnedResource
      owned = record {
        name = "tokenize-attempt-" <> attempt_key owner_identity key;
        labels = some (
            ("ai.rungpu.attempt", key)
            ∷ ("ai.rungpu.backend", r.backend)
            ∷ ("ai.rungpu.gpu", r.gpu_id)
            ∷ ("ai.rungpu.job", r.job_id)
            ∷ ("ai.rungpu.owner", identity.owner)
            ∷ ("ai.rungpu.runtime", r.runtime)
            ∷ []);
        daemon_id = r.docker_daemon_id;
      }

  abbrev pub valid_identity : JournalIdentity → AttemptRecord → Bool
  valid_identity identity r =
      r.version == pos 1
      && r.gpu_id == identity.gpu_id
      && valid_job_id r.job_id
      && (r.runtime == "" || r.runtime == "ollama" || docker_runtime_name r.runtime)

  abbrev pub valid_phase : String → Bool
  valid_phase phase =
      phase == "unknown" || phase == "unstarted" || phase == "running" || phase == "finished"

  abbrev pub inconsistent : JournalIdentity → AttemptRecord → Bool
  inconsistent identity r =
      (r.phase == "running" && (r.runtime == "" || r.known_unstarted))
      || (r.phase == "unknown" && (r.known_unstarted || r.stop_verified))
      || (r.legacy_unverified && (r.runtime /= "" || r.known_unstarted || r.stop_verified))
      || (r.stop_verified && r.replay_blocked)
      || not (resource_beq r.resource (resource identity r))

  abbrev pub foreign : AttemptRecord → Option JobResult → Bool
  foreign r none = false
  foreign r (some result) =
      result.job_id /= r.job_id
      || result.dispatch_token /= r.dispatch_token
      || result.gpu_id /= r.gpu_id

  unfoldable pub validate : JournalIdentity → AttemptRecord → Option JournalError
  validate identity r =
      if not (valid_identity identity r)
      then some invalid_identity
      else if not (valid_phase r.phase)
      then some invalid_phase
      else if inconsistent identity r
      then some inconsistent_ownership
      else if foreign r r.result
      then some foreign_result
      else none
