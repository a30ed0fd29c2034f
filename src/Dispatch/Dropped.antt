-- ===== src/Dispatch/Dropped.antt =====
-- A property of a client that is closed in the sense of Dispatch/Closed.antt is kept when a
-- cancellation gets its tombstone and drops a deferred assignment (internal/pool/client.go).
use rungpu_agent.Base.{
  String, Bool, true, false, not, ◌&&◌, Option, none, some, lookup, delete, length, leb, ◌/=◌,
  string_eq, if◌then◌else◌, ◌≡◌, refl, arith, ◌⊎◌, inl, inr, ◌<◌, Bool-cases, lookup-insert_self,
}
use rungpu_agent.Digest.{Sha256}
use rungpu_agent.Types.{JobAssignment, JobControl}
use rungpu_agent.Journal.Records.{is_some, AttemptRecord}
use rungpu_agent.Journal.Store.{AttemptJournal}
use rungpu_agent.Journal.Operations.{Outcome, ok, fail, remember_cancellation}
use rungpu_agent.Outbox.State.{attempt_result_key}
use rungpu_agent.Dispatch.Client.{
  Client, JobExecutor, Texts, Tombstone, with_journal, reject_deferred_assignment,
  cancellation_tombstone, remember, remember_in, Remembered, kept, fenced, put_tombstone, fence,
  tombstone_of, max_cancellation_tombstones, blank_tombstone,
}
use rungpu_agent.Dispatch.Assigning.{Reading}
use rungpu_agent.Dispatch.Cancelling.{
  drop_deferred, drop_if_deferred, bury, mark_unstarted, unstarted,
}
use rungpu_agent.Dispatch.Closed.{IsClosedUnder, if-Closed}
use rungpu_agent.Dispatch.Shut.{IsBuried}

module _ ⦃h : Sha256⦄ {S : Type 0} (executor : JobExecutor S) (texts : Texts) (reading : Reading)
    (P : Client S → Type 0) (closed : IsClosedUnder executor P) where
  either : (b : Bool) (x y : Client S) → P x → P y → P (if b then x else y)
  either = if-Closed executor P closed

  reject-Closed :
      (a : JobAssignment) (e : String) (c : Client S) → P c → P (reject_deferred_assignment a e c)
  unfolding reject_deferred_assignment
  reject-Closed a e c p = closed.boxes c _ p

  pub cancellation_tombstone-Closed :
      (id token : String) (c : Client S)
      → P c
      → P (cancellation_tombstone texts id token c).0
        × IsBuried (attempt_result_key id token) (cancellation_tombstone texts id token c)
  unfolding cancellation_tombstone
  cancellation_tombstone-Closed id token c p =
      at
        (not (is_some (lookup (attempt_result_key id token) c.cancellation_tombstones))
          && leb max_cancellation_tombstones (length c.cancellation_tombstones))
        refl
    where
      key : String
      key = attempt_result_key id token

      in_journal :
          (q : AttemptJournal × Outcome AttemptRecord)
          → (is_some (lookup key c.cancellation_tombstones) ≡ true)
            ⊎ (length c.cancellation_tombstones < max_cancellation_tombstones)
          → P (remember_in texts key c q).0 × IsBuried key (remember_in texts key c q)
      in_journal (j, fail e) room = (closed.fences _ (closed.boxes c _ p), λ t w. absurd (cc w))
      in_journal (j, ok r) room = (
        closed.buries key (tombstone_of r) (with_journal c (some j)) room (closed.boxes c _ p),
        λ t w. ground (arith, lookup-insert_self key (tombstone_of r) c.cancellation_tombstones),
      )

      remembered :
          (o : Option AttemptJournal)
          → (is_some (lookup key c.cancellation_tombstones) ≡ true)
            ⊎ (length c.cancellation_tombstones < max_cancellation_tombstones)
          → let q : Client S × Remembered = elim o [
            | some j ↦ remember_in texts key c (remember_cancellation id token false j)
            | none ↦
                let t : Tombstone = blank_tombstone (lookup key c.cancellation_tombstones) in
                (put_tombstone key t c, kept t)
          ] in
            P q.0 × IsBuried key q
      remembered (some j) room = in_journal (remember_cancellation id token false j) room
      remembered none room =
          let t : Tombstone = blank_tombstone (lookup key c.cancellation_tombstones) in
          (
            closed.buries key t c room p,
            λ u w. ground (arith, lookup-insert_self key t c.cancellation_tombstones),
          )

      at :
          (b : Bool)
          → (not (is_some (lookup key c.cancellation_tombstones))
              && leb max_cancellation_tombstones (length c.cancellation_tombstones))
            ≡ b
          → let q : Client S × Remembered =
              if b
              then (
                fence c,
                fenced "cancellation tombstone capacity reached; agent admission is fenced",
              )
              else remember texts key id token c in
            P q.0 × IsBuried key q
      at true w = (closed.fences c p, λ t v. absurd (cc v))
      at false w = remembered c.outbox.journal (room w)
        where
          room :
              (not (is_some (lookup key c.cancellation_tombstones))
                  && leb max_cancellation_tombstones (length c.cancellation_tombstones))
                ≡ false
              → (is_some (lookup key c.cancellation_tombstones) ≡ true)
                ⊎ (length c.cancellation_tombstones < max_cancellation_tombstones)
          room w = elim (Bool-cases (is_some (lookup key c.cancellation_tombstones))) [
            | inl here ↦ inl here
            | inr absent ↦ inr (ground arith)
          ]

  mark_unstarted-Closed :
      (key : String) (q : Client S × Remembered)
      → P q.0
      → IsBuried key q
      → P (mark_unstarted executor texts key q)
  mark_unstarted-Closed key (c, kept t) p buried =
      closed.buries key (unstarted executor texts t) c (inl (buried t refl)) p
  mark_unstarted-Closed key (c, fenced e) p buried = p

  bury-Closed :
      (control : JobControl) (t : Option Tombstone) (a : JobAssignment) (c : Client S)
      → ((u : Tombstone)
          → t ≡ some u
          → is_some (
              lookup
                (attempt_result_key control.job_id control.dispatch_token)
                c.cancellation_tombstones)
            ≡ true)
      → P c
      → P (bury executor texts control t a c)
  bury-Closed control (some t) a c there p =
      closed.buries _ (unstarted executor texts t) c (inl (there t refl)) p
  bury-Closed control none a c there p =
      let (q, buried) = cancellation_tombstone-Closed control.job_id a.dispatch_token c p in
      either (a.dispatch_token /= "") _ _
        (mark_unstarted-Closed (attempt_result_key control.job_id a.dispatch_token)
          (cancellation_tombstone texts control.job_id a.dispatch_token c) q buried)
        p

  module _ (control : JobControl) (t : Option Tombstone) (c : Client S)
      (there : (u : Tombstone)
        → t ≡ some u
        → is_some (
            lookup
              (attempt_result_key control.job_id control.dispatch_token)
              c.cancellation_tombstones)
          ≡ true) where
    pub drop_if_deferred-Closed :
        (d : Option JobAssignment) → P c → P (drop_if_deferred executor texts control t d c)
    unfolding drop_deferred
    drop_if_deferred-Closed none p = p
    drop_if_deferred-Closed (some a) p =
        either _ _ _
          (reject-Closed a "job cancelled before deferred execution" _ (
            bury-Closed control t a
              (record c { deferred_assignments = delete control.job_id c.deferred_assignments })
              there (closed.undefers control.job_id c p)))
          p
