-- ===== src/Dispatch/Cancelling.antt =====
-- internal/pool/client.go: cancelJob. It holds the mutex at its start and, in a goroutine, after the
-- executor's cancellation has returned.
use rungpu_agent.Base.{
  remove, String, Bool, true, false, not, ◌&&◌, ◌||◌, ◌∷◌, Option, none, some, lookup, delete,
  contains, ◌==◌, ◌/=◌, string_eq, nat_eq, if◌then◌else◌,
}
use rungpu_agent.Journal.Records.{is_some}
use rungpu_agent.Digest.{Sha256}
use rungpu_agent.Types.{JobAssignment, JobControl, valid_job_id}
use rungpu_agent.Outbox.State.{attempt_result_key}
use rungpu_agent.Dispatch.Client.{
  Client, JobExecutor, Texts, Tombstone, tracks_attempt, reject_deferred_assignment,
  cancellation_tombstone, Remembered, kept, fenced, put_tombstone,
}
use rungpu_agent.Dispatch.Starting.{forget_if, drain_deferred_assignments}

-- What the goroutine does: the executor's CancelAttempt, its Cancel, or nothing.
pub data Work : Type 0 where
  cancels_attempt : Work
  cancels_job : Work
  cancels_nothing : Work

abbrev pub is_cancels_attempt : Work → Bool
is_cancels_attempt cancels_attempt = true
is_cancels_attempt cancels_job = false
is_cancels_attempt cancels_nothing = false

abbrev pub acknowledge_cancel : {S : Type 0} → JobControl → Option String → Client S → Client S
acknowledge_cancel control none c = record c {
  sent =
      record {
        job_id = control.job_id;
        dispatch_token = control.dispatch_token;
        success = true;
        error = "";
      }
      ∷ c.sent;
}
acknowledge_cancel control (some e) c = record c {
  sent =
      record {
        job_id = control.job_id;
        dispatch_token = control.dispatch_token;
        success = false;
        error = e;
      }
      ∷ c.sent;
}

module _ ⦃h : Sha256⦄ {S : Type 0} (executor : JobExecutor S) (texts : Texts) where
  -- The key in `cancelling`.
  abbrev pub cancel_key : JobControl → String
  cancel_key control =
      if control.dispatch_token == ""
      then control.job_id
      else attempt_result_key control.job_id control.dispatch_token

  abbrev pub unstarted : Tombstone → Tombstone
  unstarted t = record t { known_unstarted = true }

  -- A deferred attempt that is cancelled never starts; it gets a tombstone, if one can be had.
  abbrev pub mark_unstarted : String → Client S × Remembered → Client S
  mark_unstarted key (c, kept t) = put_tombstone key (unstarted t) c
  mark_unstarted key (c, fenced e) = c

  -- A cancellation of the whole job, without a token, has no tombstone before.
  abbrev pub bury : JobControl → Option Tombstone → JobAssignment → Client S → Client S
  bury control (some t) a c =
      put_tombstone (attempt_result_key control.job_id control.dispatch_token) (unstarted t) c
  bury control none a c =
      if a.dispatch_token /= ""
      then mark_unstarted (attempt_result_key control.job_id a.dispatch_token)
          (cancellation_tombstone texts control.job_id a.dispatch_token c)
      else c

  unfoldable pub drop_deferred : JobControl → Option Tombstone → JobAssignment → Client S → Client S
  drop_deferred control tombstone a c =
      reject_deferred_assignment a "job cancelled before deferred execution" (
        bury control tombstone a
          (record c { deferred_assignments = delete control.job_id c.deferred_assignments }))

  abbrev pub is_addressed : JobControl → Option JobAssignment → Bool
  is_addressed control none = false
  is_addressed control (some a) =
      control.dispatch_token == "" || control.dispatch_token == a.dispatch_token

  abbrev pub drop_if_deferred :
      JobControl → Option Tombstone → Option JobAssignment → Client S → Client S
  drop_if_deferred control tombstone none c = c
  drop_if_deferred control tombstone (some a) c =
      if control.dispatch_token == "" || control.dispatch_token == a.dispatch_token
      then drop_deferred control tombstone a c
      else c

  -- The tombstone proves that the attempt does not run.
  abbrev pub is_proven : Option Tombstone → Bool
  is_proven none = false
  is_proven (some t) = t.known_unstarted || t.stop_verified

  abbrev pub work_for : JobControl → Bool → Client S → Work
  work_for control was_deferred c =
      if control.dispatch_token /= ""
      then (if tracks_attempt executor control.job_id control.dispatch_token c
          then cancels_attempt
          else cancels_nothing)
      else if was_deferred
          && c.active_assignment /= control.job_id
          && not (executor.is_tracked control.job_id c.executor)
      then cancels_nothing
      else cancels_job

  -- `was_deferred` counts as a proof: the tombstone says that the attempt never started.
  unfoldable pub is_unconfirmed : JobControl → Option Tombstone → Bool → Client S → Bool
  is_unconfirmed control tombstone was_deferred c =
      control.dispatch_token /= ""
      && not (tracks_attempt executor control.job_id control.dispatch_token c)
      && not (was_deferred || is_proven tombstone)

  abbrev pub not_tracked_text : String
  not_tracked_text = "dispatch attempt is not tracked; execution stop cannot be confirmed"

  abbrev pub decide : JobControl → Option Tombstone → Bool → Client S → Client S × Option Work
  decide control tombstone was_deferred c =
      if is_unconfirmed control tombstone was_deferred c
      then (
        acknowledge_cancel control (some not_tracked_text)
            (record c { cancelling = remove (cancel_key control) c.cancelling }),
        none,
      )
      else (c, some (work_for control was_deferred c))

  unfoldable pub cancel_with : JobControl → Option Tombstone → Client S → Client S × Option Work
  unfolding drop_deferred is_unconfirmed
  cancel_with control tombstone c =
      if contains (cancel_key control) c.cancelling
      then (c, none)
      else (let deferred = lookup control.job_id c.deferred_assignments in
          decide control tombstone (is_addressed control deferred) (
            drop_if_deferred control tombstone deferred
              (record c { cancelling = cancel_key control ∷ c.cancelling })))

  abbrev pub cancel_remembered : JobControl → Client S × Remembered → Client S × Option Work
  cancel_remembered control (c, fenced e) = (acknowledge_cancel control (some e) c, none)
  cancel_remembered control (c, kept t) = cancel_with control (some t) c

  -- The first use of the mutex; with `some`, the goroutine goes on.
  unfoldable pub begin_cancel : JobControl → Client S → Client S × Option Work
  begin_cancel control c =
      if not (valid_job_id control.job_id)
      then (c, none)
      else if control.dispatch_token == ""
      then cancel_with control none c
      else cancel_remembered control
          (cancellation_tombstone texts control.job_id control.dispatch_token c)

  abbrev pub verify_stop : String → Option Tombstone → Client S → Client S
  verify_stop key none c = c
  verify_stop key (some t) c = put_tombstone key (record t { stop_verified = true }) c

  abbrev pub no_error : Option String → Bool
  no_error none = true
  no_error (some e) = false

  abbrev pub note_stop : JobControl → Bool → Client S → Client S
  note_stop control false c = c
  note_stop control true c =
      verify_stop (cancel_key control) (lookup (cancel_key control) c.cancellation_tombstones) c

  abbrev pub forgets : JobControl → Work → Option String → Client S → Bool
  forgets control work error c =
      no_error error
      && not (is_some (lookup control.job_id c.outbox.results))
      && (control.dispatch_token == ""
          || (is_cancels_attempt work
              && tracks_attempt executor control.job_id control.dispatch_token c))

  abbrev pub released : JobControl → Client S → Client S
  released control c = record c { cancelling = remove (cancel_key control) c.cancelling }

  -- The goroutine, after the executor has answered with `error`.
  unfoldable pub end_cancel : JobControl → Work → Option String → Client S → Client S
  end_cancel control work error c =
      let noted =
        released control (note_stop control (is_cancels_attempt work && no_error error) c) in
      acknowledge_cancel control error (
        drain_deferred_assignments executor
          (forget_if executor (forgets control work error noted) control.job_id noted))
