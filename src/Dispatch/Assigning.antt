-- ===== src/Dispatch/Assigning.antt =====
-- internal/pool/client.go: the case "job_assignment" of dispatch.
use rungpu_agent.Base.{
  String, Bool, false, not, ◌&&◌, ◌||◌, Option, none, some, lookup, insert, contains, length, leb,
  ◌<>◌, ◌==◌, ◌/=◌, string_eq, nat_eq, if◌then◌else◌,
}
use rungpu_agent.Digest.{Sha256}
use rungpu_agent.Types.{JobAssignment, valid_job_id}
use rungpu_agent.Assignment.{AssignmentError, validate_assignment}
use rungpu_agent.Journal.Records.{AttemptRecord, is_some}
use rungpu_agent.Journal.Store.{AttemptJournal}
use rungpu_agent.Journal.Operations.{Outcome, ok, fail, find, admit}
use rungpu_agent.Outbox.State.{PendingResult, attempt_result_key}
use rungpu_agent.Dispatch.Client.{
  Client, JobExecutor, Texts, failed_result, with_journal, tracks_attempt, assignment_cancelling,
  is_tombstoned, reject_deferred_assignment, max_deferred_assignments,
}
use rungpu_agent.Dispatch.Starting.{queue, start_assignment}

-- `json_valid` is json.Valid, `of_assignment` the text of an error of Validate.
pub record Reading : Type 0 where
  pub json_valid : String → Bool
  pub of_assignment : AssignmentError → String

-- Whether a pending result is of the attempt with this token.
abbrev pub is_result_of : String → Option PendingResult → Bool
is_result_of token none = false
is_result_of token (some p) = p.result.dispatch_token == token

abbrev pub has_result : Option AttemptRecord → Bool
has_result none = false
has_result (some r) = is_some r.result

-- The error of an assignment: that of the decoding, else that of Validate.
abbrev pub assignment_error : Reading → JobAssignment → Option String → Option String
assignment_error reading a (some e) = some ("invalid job_assignment: " <> e)
assignment_error reading a none = elim (validate_assignment reading.json_valid a) [
  | some e ↦ some (reading.of_assignment e)
  | none ↦ none
]

abbrev pub fence_text : String
fence_text = "agent admission is fenced: cancellation tombstone capacity reached"

module _ ⦃h : Sha256⦄ {S : Type 0} where
  -- The journal has a result of the attempt.
  unfoldable pub is_answered : JobAssignment → Client S → Bool
  is_answered a c = elim c.outbox.journal [
    | none ↦ false
    | some j ↦ has_result (find j a.job_id a.dispatch_token)
  ]

  -- The attempt was settled or rejected before.
  unfoldable pub is_settled : JobAssignment → Client S → Bool
  is_settled a c =
      a.dispatch_token /= ""
      && (contains (attempt_result_key a.job_id a.dispatch_token) c.settled_attempts
          || is_some (lookup (attempt_result_key a.job_id a.dispatch_token) c.outbox.results))

  abbrev pub pending_result : JobAssignment → Client S → Option PendingResult
  pending_result a c = lookup a.job_id c.outbox.results

  -- Another attempt of the job waits already.
  unfoldable pub reject_second : JobAssignment → JobAssignment → Client S → Client S
  reject_second deferred a c =
      if a.dispatch_token == ""
        || a.dispatch_token == deferred.dispatch_token
        || is_result_of a.dispatch_token (pending_result a c)
      then c
      else reject_deferred_assignment a "GPU already has a deferred retry for this job" c

  abbrev pub put_deferred : JobAssignment → Client S → Client S
  put_deferred a c = record c { deferred_assignments = insert a.job_id a c.deferred_assignments }

module _ ⦃h : Sha256⦄ {S : Type 0} (executor : JobExecutor S) (texts : Texts)
    (reading : Reading) where
  unfoldable pub reject_tombstoned : JobAssignment → Client S → Client S
  reject_tombstoned a c =
      if is_result_of a.dispatch_token (pending_result a c)
        || tracks_attempt executor a.job_id a.dispatch_token c
      then c
      else reject_deferred_assignment a "dispatch attempt was cancelled before admission" c

  unfoldable pub reject_fenced : JobAssignment → Client S → Client S
  reject_fenced a c =
      if tracks_attempt executor a.job_id a.dispatch_token c
      then c
      else if a.dispatch_token /= ""
      then (if is_result_of a.dispatch_token (pending_result a c)
          then c
          else reject_deferred_assignment a fence_text c)
      else if not (is_some (pending_result a c))
          && c.active_assignment /= a.job_id
          && not (executor.is_tracked a.job_id c.executor)
      then queue (failed_result c.gpu_id a fence_text) c
      else c

  abbrev pub after_admit :
      JobAssignment → Client S → AttemptJournal × Outcome AttemptRecord → Client S
  after_admit a c (j, fail e) =
      reject_deferred_assignment a (texts.of_journal e) (with_journal c (some j))
  after_admit a c (j, ok r) = put_deferred a (with_journal c (some j))

  abbrev pub admit_deferred : JobAssignment → Option AttemptJournal → Client S → Client S
  admit_deferred a none c = put_deferred a c
  admit_deferred a (some j) c = after_admit a c (admit a c.backend j)

  -- The result of an older attempt of the job is pending.
  unfoldable pub defer_behind : PendingResult → JobAssignment → Option String → Client S → Client S
  defer_behind p a decode_error c =
      if a.dispatch_token == ""
        || p.result.dispatch_token == ""
        || a.dispatch_token == p.result.dispatch_token
      then c
      else if assignment_cancelling a c
      then reject_deferred_assignment a "job cancellation is in progress" c
      else (elim (assignment_error reading a decode_error) [
        | some e ↦ reject_deferred_assignment a e c
        | none ↦
            if leb max_deferred_assignments (length c.deferred_assignments)
            then reject_deferred_assignment a "deferred assignment queue is full" c
            else admit_deferred a c.outbox.journal c
      ])

  unfoldable pub begin_assignment : JobAssignment → Option String → Client S → Client S
  begin_assignment a decode_error c =
      if c.active_assignment == a.job_id || executor.is_tracked a.job_id c.executor
      then c
      else (elim (assignment_error reading a decode_error) [
        | some e ↦ queue (failed_result c.gpu_id a e) c
        | none ↦
            if assignment_cancelling a c
            then queue (failed_result c.gpu_id a "job cancellation is in progress") c
            else start_assignment executor a false c
      ])

  unfoldable pub consider : JobAssignment → Option String → Client S → Client S
  consider a decode_error c = elim (lookup a.job_id c.deferred_assignments) [
    | some deferred ↦ reject_second deferred a c
    | none ↦ elim (pending_result a c) [
      | some p ↦ defer_behind p a decode_error c
      | none ↦ begin_assignment a decode_error c
    ]
  ]

  -- An assignment that is decoded as far as `a` says, with the decoder's error.
  unfoldable pub assign : JobAssignment → Option String → Client S → Client S
  assign a decode_error c =
      if not (valid_job_id a.job_id) || is_answered a c || is_settled a c
      then c
      else if is_tombstoned a.job_id a.dispatch_token c
      then reject_tombstoned a c
      else if c.cancellation_admission_fenced
      then reject_fenced a c
      else consider a decode_error c
