-- ===== src/Dispatch/Closed.antt =====
-- What a property of a client (internal/pool/client.go) must be closed under so that starting,
-- draining and the end of a job keep it.
use rungpu_agent.Base.{
  String, Bool, true, false, List, [], ◌∷◌, Option, none, some, lookup, delete, length, All, ◌==◌,
  string_eq, if◌then◌else◌, ◌≡◌, refl, ap, ◌⊎◌, inl, inr, ◌<◌, Bool-cases,
}
use rungpu_agent.Journal.Records.{is_some}
use text.Mathlib.TextEquality.{eq_iff}
use rungpu_agent.Digest.{Sha256}
use rungpu_agent.Types.{JobAssignment, JobResult, JobCancelAck, valid_job_id}
use rungpu_agent.Outbox.State.{Outbox, attempt_result_key}
use rungpu_agent.Outbox.Operations.{ack_result, Ack}
use rungpu_agent.Dispatch.Client.{
  Client, JobExecutor, Tombstone, fence, put_tombstone, max_deferred_assignments,
  max_cancellation_tombstones,
}
use rungpu_agent.Dispatch.Starting.{
  remember_settled, note_settled, start_assignment, drain_each, drain_deferred_assignments, end_job,
  forget_if, after_ack, acknowledge,
}
use rungpu_agent.Dispatch.Assigning.{put_deferred}

-- An assignment names a job.
abbrev pub IsNamed : String × JobAssignment → Type 0
IsNamed entry = (entry.1.job_id == "") ≡ false

empty_is_invalid : valid_job_id "" ≡ false
unfolding valid_job_id
empty_is_invalid = refl

pub named_of_valid : (id : String) → valid_job_id id ≡ true → (id == "") ≡ false
named_of_valid id w = elim (Bool-cases (id == "")) [
  | inl same ↦ absurd (cc (w, ap valid_job_id ((eq_iff id "").0 same), empty_is_invalid))
  | inr other ↦ other
]

module _ ⦃h : Sha256⦄ {S : Type 0} (executor : JobExecutor S) where
  pub record IsClosedUnder (P : Client S → Type 0) : Type 0 where
    pub named : (c : Client S) → P c → All IsNamed c.deferred_assignments
    pub boxes : (c : Client S) (box : Outbox) → P c → P (record c { outbox = box })
    pub starts :
        (a : JobAssignment) (d : Bool) (c : Client S)
        → (a.job_id == "") ≡ false
        → P c
        → P (start_assignment executor a d c)
    pub defers :
        (a : JobAssignment) (c : Client S)
        → (a.job_id == "") ≡ false
        → length c.deferred_assignments < max_deferred_assignments
        → P c
        → P (put_deferred a c)
    pub undefers :
        (id : String) (c : Client S)
        → P c
        → P (record c { deferred_assignments = delete id c.deferred_assignments })
    pub buries :
        (key : String) (t : Tombstone) (c : Client S)
        → (is_some (lookup key c.cancellation_tombstones) ≡ true)
          ⊎ (length c.cancellation_tombstones < max_cancellation_tombstones)
        → P c
        → P (put_tombstone key t c)
    pub fences : (c : Client S) → P c → P (fence c)
    pub notes :
        (keys : List String) (acks : List JobCancelAck) (c : Client S)
        → P c
        → P (record c { cancelling = keys; sent = acks })
    pub settles :
        (key : String) (c : Client S)
        → P c
        → P (record c { settled_attempts = remember_settled key c.settled_attempts })
    pub frees :
        (c : Client S)
        → P c
        → P (record c { active_assignment = ""; active_dispatch_token = ""; slot_taken = false })
    pub forgets :
        (id : String) (c : Client S)
        → P c
        → P (record c { executor = executor.forget_execution id c.executor })

  module _ (P : Client S → Type 0) (closed : IsClosedUnder P) where
    pub if-Closed : (b : Bool) (x y : Client S) → P x → P y → P (if b then x else y)
    if-Closed true x y p q = p
    if-Closed false x y p q = q

    drain_each-Closed :
        (waiting : List (String × JobAssignment)) (c : Client S)
        → All IsNamed waiting
        → P c
        → P (drain_each executor waiting c)
    unfolding drain_each
    drain_each-Closed [] c named p = p
    drain_each-Closed ((id, a) ∷ rest) c (name, names) p =
        let next : Client S =
          start_assignment executor a true
            (record c { deferred_assignments = delete id c.deferred_assignments }) in
        let next-P : P next = closed.starts a true _ name (closed.undefers id c p) in
        if-Closed _ _ _ (drain_each-Closed rest c names p)
          (if-Closed _ _ _ next-P (drain_each-Closed rest next names next-P))

    pub drain-Closed : (c : Client S) → P c → P (drain_deferred_assignments executor c)
    unfolding drain_deferred_assignments
    drain-Closed c p =
        if-Closed _ _ _ p (drain_each-Closed c.deferred_assignments c (closed.named c p) p)

    pub forget_if-Closed :
        (b : Bool) (id : String) (c : Client S) → P c → P (forget_if executor b id c)
    forget_if-Closed true id c p = closed.forgets id c p
    forget_if-Closed false id c p = p

    note_settled-Closed : (id : String) (a : Ack) (c : Client S) → P c → P (note_settled id a c)
    note_settled-Closed id a c p =
        if-Closed _ _ _ (closed.settles (attempt_result_key id a.token) c p) p

    after_ack-Closed :
        (id : String) (c : Client S) (o : Outbox × Option Ack) → P c → P (after_ack executor id c o)
    after_ack-Closed id c (box, none) p = closed.boxes c box p
    after_ack-Closed id c (box, some a) p =
        drain-Closed _
          (forget_if-Closed a.canonical id _ (note_settled-Closed id a _ (closed.boxes c box p)))

    pub acknowledge-Closed :
        (id token : String) (success : Bool) (c : Client S)
        → P c
        → P (acknowledge executor id token success c)
    unfolding acknowledge
    acknowledge-Closed id token success c p =
        if-Closed _ _ _ (after_ack-Closed id c (ack_result id token c.outbox) p) p

    pub end_job-Closed :
        (a : JobAssignment) (result : JobResult) (c : Client S)
        → P c
        → P (end_job executor a result c)
    unfolding end_job
    end_job-Closed a result c p = drain-Closed _ (closed.frees _ (closed.boxes c _ p))
