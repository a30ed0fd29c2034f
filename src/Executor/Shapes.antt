-- ===== src/Executor/Shapes.antt =====
-- The shapes of an executor's steps (internal/job/executor.go): a step either adds one execution
-- that holds the GPU, or changes flags of executions that are there.
use rungpu_agent.Base.{
  ℕ, suc, String, Bool, true, false, Option, none, some, lookup, nat_eq, string_eq, if◌then◌else◌,
  ◌≡◌, refl, sym, ap, subst, ◌⊎◌, inl, inr, Bool-cases, Option-cases,
}
use rungpu_agent.Digest.{Sha256}
use rungpu_agent.Types.{JobAssignment}
use rungpu_agent.Journal.Records.{AttemptRecord, JournalError, OwnedResource}
use rungpu_agent.Journal.Store.{AttemptJournal}
use rungpu_agent.Journal.Operations.{
  Outcome, ok, fail, admit, complete, remember_cancellation, assign_docker_daemon,
}
use rungpu_agent.Executor.State.{
  Execution, Executor, update, write, forget_execution, mark_stop_unverified, keeps_execution,
}
use rungpu_agent.Executor.Start.{Machine, refusal, enrol, start, new_execution}
use rungpu_agent.Executor.Run.{enter, assign_daemon, assigned, finish}
use rungpu_agent.Executor.Cancel.{
  cancel_begin, cancel_end, cancel_untracked, cancel_tracked, confirm, is_other, proves_stop,
  token_or_empty, CancelAnswer, confirmed, waits,
}
use rungpu_agent.Executor.Histories.{
  Step, starts, enters_runtime, assigns_daemon, keeps_workspace, marks, finishes, begins_cancel,
  ends_cancel, forgets, calls, closes,
}
use rungpu_agent.Executor.Invariant.{Same, Same-refl, Same-update}
use rungpu_agent.Executor.Running.{some_inj, finished-Same}

module _ ⦃h : Sha256⦄ where
  pub record Quiet (e e' : Executor) : Type 0 where
    pub same_next : e'.next ≡ e.next
    pub same : (t : ℕ) → Same (e.heap t) (e'.heap t)

  pub record Adds (e e' : Executor) (x : Execution) : Type 0 where
    pub next_more : e'.next ≡ suc e.next
    pub extended : e'.heap ≡ update e.heap e.next x
    pub held : x.is_held ≡ true
    pub first_time : x.restored ≡ false

  abbrev pub HasShape : Executor → Executor → Type 0
  HasShape e e' = Quiet e e' ⊎ ((x : Execution) × Adds e e' x)

  still : (e e' : Executor) → e'.next ≡ e.next → e'.heap ≡ e.heap → Quiet e e'
  still e e' n p = record {
    same_next = n;
    same = λ t. subst (λ f. Same (e.heap t) (f t)) (sym p) (Same-refl (e.heap t));
  }

  written :
      (e e' : Executor) (t : ℕ) (x : Execution)
      → e'.next ≡ e.next
      → e'.heap ≡ update e.heap t x
      → Same (e.heap t) x
      → Quiet e e'
  written e e' t x n p s = record {
    same_next = n;
    same = λ u. subst (λ f. Same (e.heap u) (f u)) (sym p) (Same-update e.heap t x s u);
  }

  enrol-HasShape :
      (a : JobAssignment) (e : Executor) (p : AttemptJournal × Outcome AttemptRecord)
      → HasShape e (enrol a e p).0
  enrol-HasShape a e (j, fail x) = inl (still e _ refl refl)
  enrol-HasShape a e (j, ok r) = inr (
    new_execution a r.resource,
    record { next_more = refl; extended = refl; held = refl; first_time = refl },
  )

  start-HasShape : (m : Machine) (a : JobAssignment) (e : Executor) → HasShape e (start m a e).0
  unfolding start
  start-HasShape m a e = elim (Option-cases (refusal m a e)) [
    | inr (x, w) ↦ rw (start, w) (inl (still e e refl refl))
    | inl w ↦ rw (start, w) (enrol-HasShape a e (admit a e.backend e.journal))
  ]

  noted-Same :
      (x : Execution) (r : OwnedResource) (b : Bool)
      → Same x (record x { resource = r; stop_unverified = b })
  noted-Same x r b = record { job = refl; token = refl; origin = refl; held = λ w. w }

  assigned-Quiet :
      (id : String) (e e' : Executor) (o : Outcome AttemptRecord)
      (p : AttemptJournal × Outcome AttemptRecord)
      → assigned id e p ≡ some (e', o)
      → Quiet e e'
  assigned-Quiet id e e' o (j, fail x) w =
      subst (Quiet e) (ap (λ y. y.0) (some_inj _ _ w)) (still e _ refl refl)
  assigned-Quiet id e e' o (j, ok r) w = elim (Option-cases (lookup id e.executions)) [
    | inl miss ↦ absurd (cc (rw (assigned, miss) at w))
    | inr (u, found) ↦
        subst (Quiet e) (ap (λ y. y.0) (some_inj _ _ (rw (assigned, found) at w)))
          (written e _ u _ refl refl (noted-Same (e.heap u) r.resource (e.heap u).stop_unverified))
  ]

  marked-Quiet : (id : String) (e e' : Executor) → mark_stop_unverified id e ≡ some e' → Quiet e e'
  unfolding mark_stop_unverified
  marked-Quiet id e e' w = elim (Option-cases (lookup id e.executions)) [
    | inl miss ↦ absurd (cc (rw (mark_stop_unverified, miss) at w))
    | inr (u, found) ↦
        subst (Quiet e) (some_inj _ _ (rw (mark_stop_unverified, found) at w))
          (written e _ u _ refl refl (noted-Same (e.heap u) (e.heap u).resource true))
  ]

  confirm-Quiet :
      (t : ℕ) (e : Executor) (p : AttemptJournal × Option JournalError) → Quiet e (confirm t e p).0
  confirm-Quiet t e (j, some x) =
      written e _ t _ refl refl (noted-Same (e.heap t) (e.heap t).resource true)
  confirm-Quiet t e (j, none) =
      written e _ t _ refl refl
        (record { job = refl; token = refl; origin = refl; held = λ w. absurd (cc w) })

  cancel_untracked-Quiet :
      (e : Executor) (p : AttemptJournal × Outcome AttemptRecord) → Quiet e (cancel_untracked e p).0
  cancel_untracked-Quiet e (j, fail x) = still e _ refl refl
  cancel_untracked-Quiet e (j, ok r) = elim (Bool-cases (proves_stop r)) [
    | inl w ↦ rw w (still e _ refl refl)
    | inr w ↦ rw w (still e _ refl refl)
  ]

  cancel_tracked-Quiet :
      (t : ℕ) (e : Executor) (p : AttemptJournal × Outcome AttemptRecord)
      → Quiet e (cancel_tracked t e p).0
  cancel_tracked-Quiet t e (j, fail x) = still e _ refl refl
  cancel_tracked-Quiet t e (j, ok r) = at (e.heap t).stop_confirmed
    where
      at :
          (b : Bool)
          → let p : Executor × CancelAnswer = if b then (record e { journal = j }, confirmed) else (
            write t (record (e.heap t) { cancel_requested = true }) (record e { journal = j }),
            waits t r.known_unstarted,
          ) in
            Quiet e p.0
      at true = still e _ refl refl
      at false =
          written e _ t _ refl refl
            (record { job = refl; token = refl; origin = refl; held = λ w. w })

  cancel_begin-Quiet :
      (id : String) (token : Option String) (e : Executor) → Quiet e (cancel_begin id token e).0
  unfolding cancel_begin
  cancel_begin-Quiet id token e = elim (Option-cases (lookup id e.executions)) [
    | inl miss ↦
        rw (cancel_begin, miss)
          (cancel_untracked-Quiet e
            (remember_cancellation id (token_or_empty token) false e.journal))
    | inr (t, found) ↦ elim (Bool-cases (is_other token (e.heap t))) [
      | inl w ↦ rw (cancel_begin, found, w) (still e e refl refl)
      | inr w ↦
          rw (cancel_begin, found, w)
            (cancel_tracked-Quiet t e
              (remember_cancellation id (e.heap t).dispatch_token false e.journal))
    ]
  ]

  forget-Quiet : (id : String) (e : Executor) → Quiet e (forget_execution id e)
  unfolding forget_execution
  forget-Quiet id e = elim (Option-cases (lookup id e.executions)) [
    | inl miss ↦ rw (forget_execution, miss) (still e e refl refl)
    | inr (t, found) ↦ elim (Bool-cases (keeps_execution e id (e.heap t))) [
      | inl w ↦ rw (forget_execution, found, w) (still e e refl refl)
      | inr w ↦ rw (forget_execution, found, w) (still e _ refl refl)
    ]
  ]

  pub Step-HasShape : (e e' : Executor) → Step e e' → HasShape e e'
  unfolding enter finish assign_daemon cancel_end
  Step-HasShape e e' (starts m a) = start-HasShape m a e
  Step-HasShape e e' (enters_runtime t live) = inl (still e _ refl refl)
  Step-HasShape e e' (assigns_daemon t daemon w r live p) = inl (
      assigned-Quiet (e.heap t).job_id e e' r
        (assign_docker_daemon (e.heap t).job_id (e.heap t).dispatch_token daemon e.journal) p)
  Step-HasShape e e' (keeps_workspace t live) = inl (still e _ refl refl)
  Step-HasShape e e' (marks t w live p) = inl (marked-Quiet (e.heap t).job_id e e' p)
  Step-HasShape e e' (finishes t result live) =
      inl (written e _ t _ refl refl (finished-Same _ _ (e.heap t)))
  Step-HasShape e e' (begins_cancel id token) = inl (cancel_begin-Quiet id token e)
  Step-HasShape e e' (ends_cancel t lt ended asked) =
      inl (
        confirm-Quiet t e
          (complete (e.heap t).job_id (e.heap t).dispatch_token none true e.journal))
  Step-HasShape e e' (forgets id) = inl (forget-Quiet id e)
  Step-HasShape e e' closes = inl (still e _ refl refl)
  Step-HasShape e e' (calls c client) = inl (still e _ refl refl)
