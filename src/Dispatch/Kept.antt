-- ===== src/Dispatch/Kept.antt =====
-- A property of a client that is closed in the sense of Dispatch/Closed.antt is kept by an assignment
-- and by both steps of a cancellation (internal/pool/client.go).
use rungpu_agent.Base.{
  String, Bool, true, false, not, ◌&&◌, ◌||◌, Option, none, some, lookup, length, leb, ◌==◌, ◌/=◌,
  string_eq, if◌then◌else◌, ◌≡◌, refl, arith, ◌<◌,
}
use rungpu_agent.Digest.{Sha256}
use rungpu_agent.Types.{JobAssignment, valid_job_id}
use rungpu_agent.Journal.Records.{is_some, AttemptRecord}
use rungpu_agent.Journal.Store.{AttemptJournal}
use rungpu_agent.Journal.Operations.{Outcome, ok, fail, admit}
use rungpu_agent.Outbox.State.{PendingResult}
use rungpu_agent.Dispatch.Client.{
  Client, JobExecutor, Texts, with_journal, reject_deferred_assignment, max_deferred_assignments,
  is_tombstoned, assignment_cancelling, failed_result, tracks_attempt,
}
use rungpu_agent.Dispatch.Starting.{queue, start_assignment}
use rungpu_agent.Dispatch.Assigning.{
  Reading, assignment_error, reject_tombstoned, reject_fenced, reject_second, after_admit,
  admit_deferred, defer_behind, begin_assignment, consider, assign, pending_result, is_answered,
  is_settled, is_result_of, fence_text,
}
use rungpu_agent.Dispatch.Cancelling.{}
use rungpu_agent.Dispatch.Closed.{named_of_valid, IsClosedUnder, if-Closed}

module _ ⦃h : Sha256⦄ {S : Type 0} (executor : JobExecutor S) (texts : Texts) (reading : Reading)
    (P : Client S → Type 0) (closed : IsClosedUnder executor P) where
  either : (b : Bool) (x y : Client S) → P x → P y → P (if b then x else y)
  either = if-Closed executor P closed

  reject-Closed :
      (a : JobAssignment) (e : String) (c : Client S) → P c → P (reject_deferred_assignment a e c)
  unfolding reject_deferred_assignment
  reject-Closed a e c p = closed.boxes c _ p

  reject_tombstoned-Closed :
      (a : JobAssignment) (c : Client S) → P c → P (reject_tombstoned executor texts reading a c)
  unfolding reject_tombstoned
  reject_tombstoned-Closed a c p = either _ _ _ p (reject-Closed a _ c p)

  reject_fenced-Closed :
      (a : JobAssignment) (c : Client S) → P c → P (reject_fenced executor texts reading a c)
  unfolding reject_fenced
  reject_fenced-Closed a c p = either (tracks_attempt executor a.job_id a.dispatch_token c) _ _ p (
      either (a.dispatch_token /= "") _ _
        (either (is_result_of a.dispatch_token (pending_result a c)) _ _ p
          (reject-Closed a fence_text c p))
        (either
          (not (is_some (pending_result a c))
            && c.active_assignment /= a.job_id
            && not (executor.is_tracked a.job_id c.executor))
          _ _ (closed.boxes c (queue (failed_result c.gpu_id a fence_text) c).outbox p) p))

  admit_deferred-Closed :
      (a : JobAssignment) (j : Option AttemptJournal) (c : Client S)
      → (a.job_id == "") ≡ false
      → length c.deferred_assignments < max_deferred_assignments
      → P c
      → P (admit_deferred executor texts reading a j c)
  admit_deferred-Closed a none c named room p = closed.defers a c named room p
  admit_deferred-Closed a (some j) c named room p = at (admit a c.backend j)
    where
      at :
          (o : AttemptJournal × Outcome AttemptRecord)
          → P (after_admit executor texts reading a c o)
      at (k, fail e) = reject-Closed a _ (with_journal c (some k)) (closed.boxes c _ p)
      at (k, ok r) = closed.defers a (with_journal c (some k)) named room (closed.boxes c _ p)

  defer_behind-Closed :
      (q : PendingResult) (a : JobAssignment) (e : Option String) (c : Client S)
      → (a.job_id == "") ≡ false
      → P c
      → P (defer_behind executor texts reading q a e c)
  unfolding defer_behind
  defer_behind-Closed q a e c named p =
      either _ _ _ p (either _ _ _ (reject-Closed a _ c p) (at (assignment_error reading a e)))
    where
      full :
          (b : Bool)
          → leb max_deferred_assignments (length c.deferred_assignments) ≡ b
          → P (
              if b
              then reject_deferred_assignment a "deferred assignment queue is full" c
              else admit_deferred executor texts reading a c.outbox.journal c)
      full true w = reject-Closed a _ c p
      full false w = admit_deferred-Closed a c.outbox.journal c named (ground arith) p

      at :
          (o : Option String)
          → P (elim o [
            | some x ↦ reject_deferred_assignment a x c
            | none ↦
                if leb max_deferred_assignments (length c.deferred_assignments)
                then reject_deferred_assignment a "deferred assignment queue is full" c
                else admit_deferred executor texts reading a c.outbox.journal c
          ])
      at (some x) = reject-Closed a x c p
      at none = full (leb max_deferred_assignments (length c.deferred_assignments)) refl

  begin_assignment-Closed :
      (a : JobAssignment) (e : Option String) (c : Client S)
      → (a.job_id == "") ≡ false
      → P c
      → P (begin_assignment executor texts reading a e c)
  unfolding begin_assignment
  begin_assignment-Closed a e c named p = either _ _ _ p (at (assignment_error reading a e))
    where
      at :
          (o : Option String)
          → P (elim o [
            | some x ↦ queue (failed_result c.gpu_id a x) c
            | none ↦
                if assignment_cancelling a c
                then queue (failed_result c.gpu_id a "job cancellation is in progress") c
                else start_assignment executor a false c
          ])
      at (some x) = closed.boxes c _ p
      at none = either _ _ _ (closed.boxes c _ p) (closed.starts a false c named p)

  consider-Closed :
      (a : JobAssignment) (e : Option String) (c : Client S)
      → (a.job_id == "") ≡ false
      → P c
      → P (consider executor texts reading a e c)
  unfolding consider reject_second
  consider-Closed a e c named p = at (lookup a.job_id c.deferred_assignments) (pending_result a c)
    where
      at :
          (d : Option JobAssignment) (q : Option PendingResult)
          → P (elim d [
            | some deferred ↦ reject_second deferred a c
            | none ↦ elim q [
              | some p ↦ defer_behind executor texts reading p a e c
              | none ↦ begin_assignment executor texts reading a e c
            ]
          ])
      at (some deferred) q = either _ _ _ p (reject-Closed a _ c p)
      at none (some q) = defer_behind-Closed q a e c named p
      at none none = begin_assignment-Closed a e c named p

  pub assign-Closed :
      (a : JobAssignment) (e : Option String) (c : Client S)
      → P c
      → P (assign executor texts reading a e c)
  unfolding assign
  assign-Closed a e c p = at (valid_job_id a.job_id) refl
    where
      rest : Bool → Client S
      rest b =
          if b || is_answered a c || is_settled a c
          then c
          else if is_tombstoned a.job_id a.dispatch_token c
          then reject_tombstoned executor texts reading a c
          else if c.cancellation_admission_fenced
          then reject_fenced executor texts reading a c
          else consider executor texts reading a e c

      at : (b : Bool) → valid_job_id a.job_id ≡ b → P (rest (not b))
      at false w = p
      at true w = either _ _ _ p (
          either _ _ _ (reject_tombstoned-Closed a c p) (
            either _ _ _ (reject_fenced-Closed a c p)
              (consider-Closed a e c (named_of_valid a.job_id w) p)))
