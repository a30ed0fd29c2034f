-- ===== src/Dispatch/Starting.antt =====
-- internal/pool/client.go: startAssignmentLocked, drainDeferredAssignmentsLocked, the end of runJob
-- and the acknowledgement of a result in dispatch.
use rungpu_agent.Base.{
  String, Bool, true, false, not, ◌&&◌, ◌||◌, List, [], ◌∷◌, Option, none, some, lookup, delete,
  length, ◌++◌, ◌==◌, ◌/=◌, string_eq, nat_eq, if◌then◌else◌,
}
use rungpu_agent.Journal.Records.{is_some}
use rungpu_agent.Digest.{Sha256}
use rungpu_agent.Types.{JobAssignment, JobResult, valid_job_id}
use rungpu_agent.Journal.Store.{AttemptJournal}
use rungpu_agent.Outbox.State.{Outbox, attempt_result_key}
use rungpu_agent.Outbox.Operations.{queue_result, ack_result, Ack}
use rungpu_agent.Dispatch.Client.{
  Client, JobExecutor, StartReply, accepted, refused, failed_result, with_outbox, with_journal,
  is_tombstoned, assignment_cancelling, max_deferred_assignments,
}

-- At most 64 settled attempts are remembered, the oldest are dropped.
unfoldable pub remember_settled : String → List String → List String
remember_settled key [] = key ∷ []
remember_settled key (oldest ∷ rest) =
    if length (oldest ∷ rest) == max_deferred_assignments
    then rest ++ (key ∷ [])
    else (oldest ∷ rest) ++ (key ∷ [])

module _ ⦃h : Sha256⦄ {S : Type 0} where
  abbrev pub queue : JobResult → Client S → Client S
  queue r c = with_outbox c (queue_result r c.outbox)

  abbrev pub note_settled : String → Ack → Client S → Client S
  note_settled id a c =
      if a.token /= ""
      then record c {
        settled_attempts = remember_settled (attempt_result_key id a.token) c.settled_attempts;
      }
      else c

module _ ⦃h : Sha256⦄ {S : Type 0} (executor : JobExecutor S) where
  abbrev pub with_executor : Option AttemptJournal → S → Client S → Client S
  with_executor j s c = record (with_journal c j) { executor = s }

  -- After Start, which ran with the slot taken.
  abbrev pub started :
      JobAssignment → Bool → Client S → Option AttemptJournal × S × StartReply → Client S
  started a deferred c (j, s, accepted) = record (with_executor j s c) {
    active_assignment = a.job_id;
    active_dispatch_token = a.dispatch_token;
    slot_taken = true;
  }
  started a deferred c (j, s, refused already_tracked error) =
      if deferred || not already_tracked
      then queue (failed_result c.gpu_id a error) (with_executor j s c)
      else with_executor j s c

  unfoldable pub start_assignment : JobAssignment → Bool → Client S → Client S
  start_assignment a deferred c =
      if c.cancellation_admission_fenced
        || (a.dispatch_token /= "" && is_tombstoned a.job_id a.dispatch_token c)
      then queue
          (failed_result c.gpu_id a "dispatch attempt cannot start: cancellation admission fence") c
      else if c.slot_taken
      then queue (failed_result c.gpu_id a "GPU is already running a job") c
      else started a deferred c (executor.start a c.outbox.journal c.executor)

  -- The loop over the deferred assignments, in the order of the range.
  unfoldable pub drain_each : List (String × JobAssignment) → Client S → Client S
  drain_each [] c = c
  drain_each ((id, a) ∷ rest) c =
      let next =
        start_assignment a true
          (record c { deferred_assignments = delete id c.deferred_assignments }) in
      let skipped = drain_each rest c in
      let more = drain_each rest next in
      if is_some (lookup id c.outbox.results) || assignment_cancelling a c
      then skipped
      else if next.active_assignment /= ""
      then next
      else more

  unfoldable pub drain_deferred_assignments : Client S → Client S
  drain_deferred_assignments c =
      if c.active_assignment /= "" || c.slot_taken then c else drain_each c.deferred_assignments c

  -- After the executor has sent the result of `a`.
  unfoldable pub end_job : JobAssignment → JobResult → Client S → Client S
  end_job a result c =
      drain_deferred_assignments
        (record (queue (record result { dispatch_token = a.dispatch_token }) c) {
          active_assignment = "";
          active_dispatch_token = "";
          slot_taken = false;
        })

  abbrev pub forget_if : Bool → String → Client S → Client S
  forget_if false id c = c
  forget_if true id c = record c { executor = executor.forget_execution id c.executor }

  abbrev pub after_ack : String → Client S → Outbox × Option Ack → Client S
  after_ack id c (box, none) = with_outbox c box
  after_ack id c (box, some a) =
      drain_deferred_assignments (forget_if a.canonical id (note_settled id a (with_outbox c box)))

  unfoldable pub acknowledge : String → String → Bool → Client S → Client S
  acknowledge id token success c =
      if valid_job_id id && success then after_ack id c (ack_result id token c.outbox) else c
