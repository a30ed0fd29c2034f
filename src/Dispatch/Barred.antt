-- ===== src/Dispatch/Barred.antt =====
-- A cancelled attempt is never started, whatever comes after (internal/pool/client.go).
use rungpu_agent.Base.{
  String, Bool, true, false, not, ◌&&◌, ◌||◌, ◌∷◌, Option, Map, lookup, insert, contains, All,
  All-insert, All-delete, ◌==◌, ◌/=◌, string_eq, pair_eq, nat_eq, if◌then◌else◌, ◌≡◌, refl, sym, ap,
  subst, arith, ◌⊎◌, inl, inr, Bool-cases, lookup-insert,
}
use rungpu_agent.Journal.Records.{is_some}
use text.Mathlib.TextEquality.{eq_iff}
use rungpu_agent.Digest.{Sha256}
use rungpu_agent.Types.{JobAssignment, JobControl, valid_job_id}
use rungpu_agent.Journal.Store.{AttemptJournal}
use rungpu_agent.Outbox.State.{attempt_result_key}
use rungpu_agent.Dispatch.Client.{
  Client, JobExecutor, StartReply, accepted, refused, Texts, Tombstone, is_tombstoned,
  failed_result, cancellation_tombstone,
}
use rungpu_agent.Dispatch.Starting.{started, start_assignment, queue, with_executor}
use rungpu_agent.Dispatch.Assigning.{Reading}
use rungpu_agent.Dispatch.Closed.{IsNamed, IsClosedUnder}
use rungpu_agent.Dispatch.Cancelling.{begin_cancel}
use rungpu_agent.Dispatch.Cancelled.{cancel_remembered-Closed}
use rungpu_agent.Dispatch.Shut.{cancellation_tombstone-IsShut}
use rungpu_agent.Dispatch.Invariants.{Reached-Closed}
use rungpu_agent.Dispatch.Histories.{Logged, logged, Reached}

abbrev is_attempt : String → String → JobAssignment → Bool
is_attempt id token a = a.job_id == id && a.dispatch_token == token

same_attempt :
    (id token : String) (a : JobAssignment)
    → is_attempt id token a ≡ true
    → (a.job_id ≡ id) × (a.dispatch_token ≡ token)
same_attempt id token a w = ground (arith, eq_iff a.job_id id, eq_iff a.dispatch_token token)

module _ ⦃h : Sha256⦄ {S : Type 0} (executor : JobExecutor S) (texts : Texts)
    (reading : Reading) where
  -- The attempt has a tombstone, or admission is fenced, and Start was never called with it.
  pub record IsBarred (id token : String) (c : Client (Logged S)) : Type 0 where
    pub waiting : All IsNamed c.deferred_assignments
    pub barrier :
        (is_some (lookup (attempt_result_key id token) c.cancellation_tombstones) ≡ true)
        ⊎ (c.cancellation_admission_fenced ≡ true)
    pub unstarted : contains (id, token) c.executor.1 ≡ false

  module _ (id token : String) (given : (token == "") ≡ false) where
    if-IsBarred :
        (b : Bool) (x y : Client (Logged S))
        → IsBarred id token x
        → IsBarred id token y
        → IsBarred id token (if b then x else y)
    if-IsBarred true x y p q = p
    if-IsBarred false x y p q = q

    started-IsBarred :
        (a : JobAssignment) (d : Bool) (c : Client (Logged S))
        (r : Option AttemptJournal × S × StartReply)
        → is_attempt id token a ≡ false
        → IsBarred id token c
        → IsBarred id token (
            started
              (logged executor)
              a
              d
              c
              (r.0, (r.1, (a.job_id, a.dispatch_token) ∷ c.executor.1), r.2))
    started-IsBarred a d c (j, s, accepted) other b = record {
      waiting = b.waiting;
      barrier = b.barrier;
      unstarted = ground (arith, other, b.unstarted);
    }
    started-IsBarred a d c (j, s, refused tracked e) other b =
        if-IsBarred (d || not tracked)
          (queue (failed_result c.gpu_id a e)
            (with_executor (logged executor) j (s, (a.job_id, a.dispatch_token) ∷ c.executor.1) c))
          (with_executor (logged executor) j (s, (a.job_id, a.dispatch_token) ∷ c.executor.1) c)
          (record {
            waiting = b.waiting;
            barrier = b.barrier;
            unstarted = ground (arith, other, b.unstarted);
          })
          (record {
            waiting = b.waiting;
            barrier = b.barrier;
            unstarted = ground (arith, other, b.unstarted);
          })

    -- The guard of startAssignmentLocked.
    start-IsBarred :
        (a : JobAssignment) (d : Bool) (c : Client (Logged S))
        → IsBarred id token c
        → IsBarred id token (start_assignment (logged executor) a d c)
    unfolding start_assignment is_tombstoned
    start-IsBarred a d c b =
        if-guarded
          (c.cancellation_admission_fenced
            || (a.dispatch_token /= "" && is_tombstoned a.job_id a.dispatch_token c))
          refl
      where
        free : Client (Logged S)
        free =
            if c.slot_taken
            then queue (failed_result c.gpu_id a "GPU is already running a job") c
            else started (logged executor) a d c
                ((logged executor).start a c.outbox.journal c.executor)

        other :
            (c.cancellation_admission_fenced
                || (a.dispatch_token /= "" && is_tombstoned a.job_id a.dispatch_token c))
              ≡ false
            → is_attempt id token a ≡ false
        other w = elim b.barrier [
          | inr shut ↦ absurd (ground (arith, shut, w))
          | inl grave ↦ elim (Bool-cases (is_attempt id token a)) [
            | inr different ↦ different
            | inl same ↦
                let (job, tok) = same_attempt id token a same in
                let barred : is_some (
                      lookup (attempt_result_key a.job_id a.dispatch_token)
                        c.cancellation_tombstones)
                    ≡ true =
                  cc (
                    ap (λ x. attempt_result_key x a.dispatch_token) job,
                    ap (λ x. attempt_result_key id x) tok,
                    grave,
                  ) in
                let named : (a.dispatch_token == "") ≡ false =
                  subst (λ x. (x == "") ≡ false) (sym tok) given in
                absurd (ground (arith, barred, named, w))
          ]
        ]

        if-guarded :
            (g : Bool)
            → (c.cancellation_admission_fenced
                || (a.dispatch_token /= "" && is_tombstoned a.job_id a.dispatch_token c))
              ≡ g
            → IsBarred id token (
                if g
                then queue
                    (failed_result c.gpu_id a
                      "dispatch attempt cannot start: cancellation admission fence")
                    c
                else free)
        if-guarded true w = record {
          waiting = b.waiting;
          barrier = b.barrier;
          unstarted = b.unstarted;
        }
        if-guarded false w =
            if-IsBarred c.slot_taken
              (queue (failed_result c.gpu_id a "GPU is already running a job") c)
              (started (logged executor) a d c
                ((logged executor).start a c.outbox.journal c.executor))
              (record { waiting = b.waiting; barrier = b.barrier; unstarted = b.unstarted })
              (started-IsBarred a d c (executor.start a c.outbox.journal c.executor.0) (other w) b)

    buried :
        (key : String) (t : Tombstone) (m : Map Tombstone)
        → is_some (lookup (attempt_result_key id token) m) ≡ true
        → is_some (lookup (attempt_result_key id token) (insert key t m)) ≡ true
    buried key t m old = ground (arith, old, lookup-insert key (attempt_result_key id token) t m)

    IsBarred-Closed : IsClosedUnder (logged executor) (IsBarred id token)
    IsBarred-Closed = record {
      named = λ c b. b.waiting;
      boxes = λ c box b. again b.waiting b.barrier b.unstarted;
      starts = λ a d c name b. start-IsBarred a d c b;
      defers = λ a c name room b.
          again (All-insert IsNamed a.job_id a c.deferred_assignments name b.waiting) b.barrier
            b.unstarted;
      undefers = λ gone c b.
          again (All-delete IsNamed gone c.deferred_assignments b.waiting) b.barrier b.unstarted;
      buries = λ key t c room b.
          again b.waiting
            (elim b.barrier [
              | inl old ↦ inl (buried key t c.cancellation_tombstones old)
              | inr shut ↦ inr shut
            ])
            b.unstarted;
      fences = λ c b. again b.waiting (inr refl) b.unstarted;
      notes = λ keys acks c b. again b.waiting b.barrier b.unstarted;
      settles = λ key c b. again b.waiting b.barrier b.unstarted;
      frees = λ c b. again b.waiting b.barrier b.unstarted;
      forgets = λ job c b. again b.waiting b.barrier b.unstarted;
    }
      where
        again :
            {c : Client (Logged S)}
            → All IsNamed c.deferred_assignments
            → (is_some (lookup (attempt_result_key id token) c.cancellation_tombstones) ≡ true)
              ⊎ (c.cancellation_admission_fenced ≡ true)
            → contains (id, token) c.executor.1 ≡ false
            → IsBarred id token c
        again w t u = record { waiting = w; barrier = t; unstarted = u }

    IsBarred-Reached :
        (first c : Client (Logged S))
        → Reached executor texts reading first c
        → IsBarred id token first
        → IsBarred id token c
    IsBarred-Reached =
        Reached-Closed executor texts reading (IsBarred id token) IsBarred-Closed
          (λ s d b. record { waiting = b.waiting; barrier = b.barrier; unstarted = b.unstarted })

    -- In every history of a client, whatever its executor, its journal and its outbox do, an attempt
    -- with a dispatch token that has a tombstone, or any such attempt once admission is fenced, is
    -- never started if it was not started before: the executor's Start is not called with it any
    -- more. The deferred assignments must name jobs, as they always do.
    pub barred_never_starts :
        (first c : Client (Logged S))
        → Reached executor texts reading first c
        → All IsNamed first.deferred_assignments
        → (is_tombstoned id token first ≡ true) ⊎ (first.cancellation_admission_fenced ≡ true)
        → contains (id, token) first.executor.1 ≡ false
        → contains (id, token) c.executor.1 ≡ false
    unfolding is_tombstoned
    barred_never_starts first c past named shut new =
        (IsBarred-Reached first c past
          (record { waiting = named; barrier = shut; unstarted = new })).unstarted

  -- Once cancelJob has seen a cancellation of an attempt that was not started before, the attempt is
  -- never started in any later history, whatever the executor, the journal and the outbox do, and
  -- also if the cancellation itself was refused. The cancellation must have a valid job ID and a
  -- dispatch token, and the deferred assignments must name jobs, as they always do.
  pub cancelled_never_starts :
      (control : JobControl) (c c' : Client (Logged S))
      → valid_job_id control.job_id ≡ true
      → (control.dispatch_token == "") ≡ false
      → All IsNamed c.deferred_assignments
      → contains (control.job_id, control.dispatch_token) c.executor.1 ≡ false
      → Reached executor texts reading (begin_cancel (logged executor) texts control c).0 c'
      → contains (control.job_id, control.dispatch_token) c'.executor.1 ≡ false
  unfolding begin_cancel
  cancelled_never_starts control c c' valid given named new past =
      let id = control.job_id in
      let token = control.dispatch_token in
      let q = cancellation_tombstone texts id token c in
      let shut = cancellation_tombstone-IsShut texts id token c in
      let first : IsBarred id token q.0 = record {
        waiting = subst (All IsNamed) (sym shut.deferred) named;
        barrier = shut.barrier;
        unstarted = subst (λ x. contains (id, token) x.1 ≡ false) (sym shut.executor) new;
      } in
      let begun : IsBarred id token (begin_cancel (logged executor) texts control c).0 =
        rw (begin_cancel, valid, given)
          (cancel_remembered-Closed (logged executor) texts reading (IsBarred id token)
            (IsBarred-Closed id token given) control q first shut.buried) in
      (IsBarred-Reached id token given (begin_cancel (logged executor) texts control c).0 c' past
        begun).unstarted
