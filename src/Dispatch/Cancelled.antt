-- ===== src/Dispatch/Cancelled.antt =====
-- A property of a client that is closed in the sense of Dispatch/Closed.antt is kept by both steps of
-- a cancellation (internal/pool/client.go, cancelJob).
use rungpu_agent.Base.{
  remove, String, Bool, true, false, not, ◌&&◌, ◌∷◌, Option, none, some, lookup, contains, ◌==◌,
  string_eq, if◌then◌else◌, ◌≡◌, refl, ap, inl,
}
use rungpu_agent.Digest.{Sha256}
use rungpu_agent.Types.{JobAssignment, JobControl, valid_job_id}
use rungpu_agent.Journal.Records.{is_some}
use rungpu_agent.Outbox.State.{attempt_result_key}
use rungpu_agent.Dispatch.Client.{
  Client, JobExecutor, Texts, Tombstone, cancellation_tombstone, Remembered, kept, fenced,
}
use rungpu_agent.Dispatch.Assigning.{Reading}
use rungpu_agent.Dispatch.Cancelling.{
  Work, begin_cancel, end_cancel, cancel_with, cancel_remembered, decide, drop_if_deferred,
  note_stop, verify_stop, is_addressed, acknowledge_cancel, cancel_key, is_unconfirmed,
  not_tracked_text, work_for, is_cancels_attempt, no_error,
}
use rungpu_agent.Dispatch.Closed.{IsClosedUnder, drain-Closed, forget_if-Closed}
use rungpu_agent.Dispatch.Shut.{IsBuried}
use rungpu_agent.Dispatch.Dropped.{cancellation_tombstone-Closed, drop_if_deferred-Closed}

module _ ⦃h : Sha256⦄ {S : Type 0} (executor : JobExecutor S) (texts : Texts) (reading : Reading)
    (P : Client S → Type 0) (closed : IsClosedUnder executor P) where
  acknowledge_cancel-Closed :
      (control : JobControl) (e : Option String) (c : Client S)
      → P c
      → P (acknowledge_cancel control e c)
  acknowledge_cancel-Closed control none c p = closed.notes _ _ c p
  acknowledge_cancel-Closed control (some e) c p = closed.notes _ _ c p

  decide-Closed :
      (control : JobControl) (t : Option Tombstone) (b : Bool) (c : Client S)
      → P c
      → P (decide executor texts control t b c).0
  unfolding is_unconfirmed
  decide-Closed control t b c p = at (is_unconfirmed executor texts control t b c)
    where
      at :
          (u : Bool)
          → let q : Client S × Option Work =
              if u
              then (
                acknowledge_cancel control (some (not_tracked_text executor texts)) (record c {
                  cancelling = remove (cancel_key executor texts control) c.cancelling;
                }),
                none,
              )
              else (c, some (work_for executor texts control b c)) in
            P q.0
      at true =
          acknowledge_cancel-Closed control (some (not_tracked_text executor texts))
            (record c { cancelling = remove (cancel_key executor texts control) c.cancelling })
            (closed.notes (remove (cancel_key executor texts control) c.cancelling) c.sent c p)
      at false = p

  cancel_with-Closed :
      (control : JobControl) (t : Option Tombstone) (c : Client S)
      → ((u : Tombstone)
          → t ≡ some u
          → is_some (
              lookup
                (attempt_result_key control.job_id control.dispatch_token)
                c.cancellation_tombstones)
            ≡ true)
      → P c
      → P (cancel_with executor texts control t c).0
  unfolding cancel_with
  cancel_with-Closed control t c there p =
      at (contains (cancel_key executor texts control) c.cancelling)
    where
      noted : Client S
      noted = record c { cancelling = cancel_key executor texts control ∷ c.cancelling }

      deferred : Option JobAssignment
      deferred = lookup control.job_id c.deferred_assignments

      at :
          (b : Bool)
          → let q : Client S × Option Work =
              if b
              then (c, none)
              else decide executor texts control t
                  (is_addressed executor texts control deferred)
                  (drop_if_deferred executor texts control t deferred noted) in
            P q.0
      at true = p
      at false =
          decide-Closed control t (is_addressed executor texts control deferred)
            (drop_if_deferred executor texts control t deferred noted)
            (drop_if_deferred-Closed executor texts reading P closed control t noted there deferred
              (closed.notes _ c.sent c p))

  pub cancel_remembered-Closed :
      (control : JobControl) (q : Client S × Remembered)
      → P q.0
      → IsBuried (attempt_result_key control.job_id control.dispatch_token) q
      → P (cancel_remembered executor texts control q).0
  cancel_remembered-Closed control (c, fenced e) p buried =
      acknowledge_cancel-Closed control (some e) c p
  cancel_remembered-Closed control (c, kept t) p buried =
      cancel_with-Closed control (some t) c (λ u w. buried t refl) p

  pub begin_cancel-Closed :
      (control : JobControl) (c : Client S) → P c → P (begin_cancel executor texts control c).0
  unfolding begin_cancel
  begin_cancel-Closed control c p = at (valid_job_id control.job_id) (control.dispatch_token == "")
    where
      at :
          (valid whole : Bool)
          → let q : Client S × Option Work =
              if not valid
              then (c, none)
              else if whole
              then cancel_with executor texts control none c
              else cancel_remembered executor texts control
                  (cancellation_tombstone texts control.job_id control.dispatch_token c) in
            P q.0
      at false whole = p
      at true true = cancel_with-Closed control none c (λ u w. absurd (cc w)) p
      at true false =
          let (q, buried) =
            cancellation_tombstone-Closed executor texts reading P closed control.job_id
              control.dispatch_token c p in
          cancel_remembered-Closed control
            (cancellation_tombstone texts control.job_id control.dispatch_token c) q buried

  verify_stop-Closed :
      (key : String) (o : Option Tombstone) (c : Client S)
      → lookup key c.cancellation_tombstones ≡ o
      → P c
      → P (verify_stop executor texts key o c)
  verify_stop-Closed key none c w p = p
  verify_stop-Closed key (some t) c w p = closed.buries key _ c (inl (ap is_some w)) p

  note_stop-Closed :
      (control : JobControl) (b : Bool) (c : Client S)
      → P c
      → P (note_stop executor texts control b c)
  note_stop-Closed control false c p = p
  note_stop-Closed control true c p = verify_stop-Closed _ _ c refl p

  pub end_cancel-Closed :
      (control : JobControl) (work : Work) (e : Option String) (c : Client S)
      → P c
      → P (end_cancel executor texts control work e c)
  unfolding end_cancel
  end_cancel-Closed control work e c p = acknowledge_cancel-Closed control e _ (
      drain-Closed executor P closed _ (
        forget_if-Closed executor P closed _ control.job_id _ (
          closed.notes _ _ _
            (note_stop-Closed control (is_cancels_attempt work && no_error executor texts e) c p))))
