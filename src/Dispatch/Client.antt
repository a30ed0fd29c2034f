-- ===== src/Dispatch/Client.antt =====
-- internal/pool/client.go: the state of a client, the executor as its interface jobExecutor,
-- tracksAttempt, assignmentCancelling, cancellationTombstoneLocked and rejectDeferredAssignment.
-- A client of the agent has an executor; the nil executor of tests is left out.
use rungpu_agent.Base.{
  ℕ, pos, String, Bool, true, false, not, ◌&&◌, ◌||◌, List, Option, none, some, Map, lookup, insert,
  contains, length, leb, ◌==◌, ◌/=◌, string_eq, nat_eq, if◌then◌else◌,
}
use rungpu_agent.Digest.{Sha256}
use rungpu_agent.Types.{JobAssignment, JobResult, JobCancelAck}
use rungpu_agent.Journal.Records.{is_some, AttemptRecord, JournalError}
use rungpu_agent.Journal.Store.{AttemptJournal}
use rungpu_agent.Journal.Operations.{Outcome, ok, fail, remember_cancellation}
use rungpu_agent.Outbox.State.{Outbox, attempt_result_key}
use rungpu_agent.Outbox.Operations.{queue_attempt_rejection}

abbrev pub max_deferred_assignments : ℕ
max_deferred_assignments = 64

abbrev pub max_cancellation_tombstones : ℕ
max_cancellation_tombstones = 1024

pub record Tombstone : Type 0 where
  pub known_unstarted : Bool
  pub stop_verified : Bool

-- The answer of Start: an error has a text, and may be ErrAlreadyTracked.
pub data StartReply : Type 0 where
  accepted : StartReply
  refused : Bool → String → StartReply

-- The methods of jobExecutor that dispatch, cancelJob and runJob call. The executor shares the
-- client's journal.
pub record JobExecutor (S : Type 0) : Type 0 where
  pub start : JobAssignment → Option AttemptJournal → S → Option AttemptJournal × S × StartReply
  pub is_tracked : String → S → Bool
  pub tracked_dispatch_token : String → S → Option String
  pub forget_execution : String → S → S

-- `cancelling` has the keys of the sync.Map. No active assignment is "". `slot_taken` says that the
-- channel of capacity one is full. `sent` are the acknowledgements that were enqueued, the last one
-- first.
pub record Client (S : Type 0) : Type 0 where
  pub gpu_id : String
  pub backend : String
  pub outbox : Outbox
  pub cancelling : List String
  pub active_assignment : String
  pub active_dispatch_token : String
  pub deferred_assignments : Map JobAssignment
  pub settled_attempts : List String
  pub cancellation_tombstones : Map Tombstone
  pub cancellation_admission_fenced : Bool
  pub slot_taken : Bool
  pub sent : List JobCancelAck
  pub executor : S

-- How errors read.
pub record Texts : Type 0 where
  pub of_journal : JournalError → String

abbrev pub has_token : String → Option String → Bool
has_token token none = false
has_token token (some t) = t == token

abbrev pub failed_result : String → JobAssignment → String → JobResult
failed_result gpu a error = record {
  job_id = a.job_id;
  dispatch_token = a.dispatch_token;
  gpu_id = gpu;
  success = false;
  result = none;
  error = error;
  duration_ms = pos 0;
}

abbrev pub with_outbox : {S : Type 0} → Client S → Outbox → Client S
with_outbox c box = record c { outbox = box }

abbrev pub with_journal : {S : Type 0} → Client S → Option AttemptJournal → Client S
with_journal c j = record c { outbox = record c.outbox { journal = j } }

-- The tombstone, or an error's text, after which admission is fenced.
pub data Remembered : Type 0 where
  kept : Tombstone → Remembered
  fenced : String → Remembered

abbrev pub tombstone_of : AttemptRecord → Tombstone
tombstone_of r = record { known_unstarted = r.known_unstarted; stop_verified = r.stop_verified }

-- Without a journal an old tombstone is kept as it is, and a new one is blank.
abbrev pub blank_tombstone : Option Tombstone → Tombstone
blank_tombstone none = record { known_unstarted = false; stop_verified = false }
blank_tombstone (some t) = t

module _ {S : Type 0} (executor : JobExecutor S) where
  unfoldable pub tracks_attempt : String → String → Client S → Bool
  tracks_attempt id token c =
      (c.active_assignment == id && c.active_dispatch_token == token)
      || has_token token (executor.tracked_dispatch_token id c.executor)

module _ ⦃h : Sha256⦄ {S : Type 0} where
  unfoldable pub assignment_cancelling : JobAssignment → Client S → Bool
  assignment_cancelling a c =
      contains a.job_id c.cancelling
      || (a.dispatch_token /= ""
          && contains (attempt_result_key a.job_id a.dispatch_token) c.cancelling)

  unfoldable pub is_tombstoned : String → String → Client S → Bool
  is_tombstoned id token c =
      is_some (lookup (attempt_result_key id token) c.cancellation_tombstones)

  unfoldable pub reject_deferred_assignment : JobAssignment → String → Client S → Client S
  reject_deferred_assignment a error c =
      with_outbox c (queue_attempt_rejection (failed_result c.gpu_id a error) c.outbox)

  abbrev pub fence : Client S → Client S
  fence c = record c { cancellation_admission_fenced = true }

  abbrev pub put_tombstone : String → Tombstone → Client S → Client S
  put_tombstone key t c = record c {
    cancellation_tombstones = insert key t c.cancellation_tombstones;
  }

  abbrev pub remember_in :
      Texts → String → Client S → AttemptJournal × Outcome AttemptRecord → Client S × Remembered
  remember_in texts key c (j, fail e) =
      (fence (with_journal c (some j)), fenced (texts.of_journal e))
  remember_in texts key c (j, ok r) =
      (put_tombstone key (tombstone_of r) (with_journal c (some j)), kept (tombstone_of r))

  abbrev pub remember : Texts → String → String → String → Client S → Client S × Remembered
  remember texts key id token c = elim c.outbox.journal [
    | some j ↦ remember_in texts key c (remember_cancellation id token false j)
    | none ↦
        let t : Tombstone = blank_tombstone (lookup key c.cancellation_tombstones) in
        (put_tombstone key t c, kept t)
  ]

  unfoldable pub cancellation_tombstone : Texts → String → String → Client S → Client S × Remembered
  cancellation_tombstone texts id token c =
      let key = attempt_result_key id token in
      if not (is_some (lookup key c.cancellation_tombstones))
        && leb max_cancellation_tombstones (length c.cancellation_tombstones)
      then (fence c, fenced "cancellation tombstone capacity reached; agent admission is fenced")
      else remember texts key id token c
