-- ===== src/Dispatch/Progress.antt =====
-- A free GPU does not wait while an assignment that may start is deferred (internal/pool/client.go,
-- drainDeferredAssignmentsLocked).
use rungpu_agent.Base.{
  String, Bool, true, false, not, ◌||◌, List, [], ◌∷◌, Option, lookup, delete, any, All, ◌==◌, ◌/=◌,
  string_eq, if◌then◌else◌, ◌≡◌, refl, ap, ◌∙◌, arith,
}
use rungpu_agent.Journal.Records.{is_some}
use text.Mathlib.TextEquality.{eq_iff}
use rungpu_agent.Digest.{Sha256}
use rungpu_agent.Types.{JobAssignment}
use rungpu_agent.Journal.Store.{AttemptJournal}
use rungpu_agent.Dispatch.Client.{
  Client, JobExecutor, StartReply, accepted, refused, is_tombstoned, assignment_cancelling,
}
use rungpu_agent.Dispatch.Starting.{
  started, start_assignment, drain_each, drain_deferred_assignments,
}
use rungpu_agent.Dispatch.Closed.{IsNamed}

module _ ⦃h : Sha256⦄ {S : Type 0} where
  -- A result of the job is still pending, or the job is being cancelled.
  abbrev pub must_wait : Client S → String × JobAssignment → Bool
  must_wait c (id, a) = is_some (lookup id c.outbox.results) || assignment_cancelling a c

  abbrev pub IsStartable : Client S → String × JobAssignment → Type 0
  IsStartable c entry =
      IsNamed entry × (is_tombstoned entry.1.job_id entry.1.dispatch_token c ≡ false)

  abbrev pub IsActive : Client S → Type 0
  IsActive c = (c.active_assignment == "") ≡ false

module _ ⦃h : Sha256⦄ {S : Type 0} (executor : JobExecutor S) where
  -- Start accepts the assignment in the executor's present state, if it does not have to wait.
  abbrev pub IsWelcome : Client S → String × JobAssignment → Type 0
  IsWelcome c entry =
      must_wait c entry ≡ false → (executor.start entry.1 c.outbox.journal c.executor).2 ≡ accepted

  started_active :
      (a : JobAssignment) (c : Client S) (r : Option AttemptJournal × S × StartReply)
      → r.2 ≡ accepted
      → (started executor a true c r).active_assignment ≡ a.job_id
  started_active a c (j, s, accepted) w = refl
  started_active a c (j, s, refused b e) w = absurd (cc w)

  start_active :
      (a : JobAssignment) (c : Client S)
      → c.cancellation_admission_fenced ≡ false
      → c.slot_taken ≡ false
      → is_tombstoned a.job_id a.dispatch_token c ≡ false
      → (executor.start a c.outbox.journal c.executor).2 ≡ accepted
      → (start_assignment executor a true c).active_assignment ≡ a.job_id
  unfolding start_assignment
  start_active a c open_now free alive welcome = ground (
    arith,
    open_now,
    free,
    alive,
    started_active a c (executor.start a c.outbox.journal c.executor) welcome,
  )

  -- One round of the loop.
  round-IsActive :
      (waits : Bool) (skipped next more : Client S)
      → (waits ≡ false → IsActive next)
      → (waits ≡ true → IsActive skipped)
      → IsActive (if waits then skipped else if next.active_assignment /= "" then next else more)
  round-IsActive true skipped next more active later = later refl
  round-IsActive false skipped next more active later = ground (arith, active refl)

  drain_each-IsActive :
      (waiting : List (String × JobAssignment)) (c : Client S)
      → c.cancellation_admission_fenced ≡ false
      → c.slot_taken ≡ false
      → All (IsStartable c) waiting
      → All (IsWelcome c) waiting
      → any (λ entry. not (must_wait c entry)) waiting ≡ true
      → IsActive (drain_each executor waiting c)
  unfolding drain_each is_tombstoned
  drain_each-IsActive [] c open_now free all welcome ready = absurd (cc ready)
  drain_each-IsActive ((id, a) ∷ rest) c open_now free ((name, alive), all) (here, welcome) ready =
      let next : Client S =
        start_assignment executor a true
          (record c { deferred_assignments = delete id c.deferred_assignments }) in
      let active : must_wait c (id, a) ≡ false → next.active_assignment ≡ a.job_id = λ waits.
        start_active a (record c { deferred_assignments = delete id c.deferred_assignments })
          open_now free alive (here waits) in
      round-IsActive (must_wait c (id, a)) (drain_each executor rest c) next
        (drain_each executor rest next) (λ waits. ap (λ x. x == "") (active waits) ∙ name)
        (λ waits.
          drain_each-IsActive rest c open_now free all welcome (ground (arith, waits, ready)))

  -- When the GPU is free and admission is not fenced, then draining makes an assignment active if one
  -- is deferred that has no pending result of its job and is not being cancelled. Start must accept
  -- such assignments in the executor's present state; no deferred attempt may have a tombstone, and
  -- each must name a job.
  pub drain_deferred_assignments-IsActive :
      (c : Client S)
      → c.active_assignment ≡ ""
      → c.slot_taken ≡ false
      → c.cancellation_admission_fenced ≡ false
      → All (IsStartable c) c.deferred_assignments
      → All (IsWelcome c) c.deferred_assignments
      → any (λ entry. not (must_wait c entry)) c.deferred_assignments ≡ true
      → IsActive (drain_deferred_assignments executor c)
  unfolding drain_deferred_assignments
  drain_deferred_assignments-IsActive c idle free open_now all welcome ready =
      let drained = drain_each-IsActive c.deferred_assignments c open_now free all welcome ready in
      ground (arith, drained, idle, free, eq_iff c.active_assignment "")
