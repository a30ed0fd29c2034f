-- ===== src/Executor/Ending.antt =====
-- The end of an execution (internal/job/executor.go): what execute noted decides whether the
-- goroutine gives the GPU back.
use rungpu_agent.Base.{
  ℕ, Bool, true, false, ◌||◌, Option, none, some, lookup, contains, string_eq, nat_eq, ◌≡◌, refl,
  ◌∙◌, subst, arith, inl, inr, Option-cases,
}
use text.Mathlib.TextEquality.{eq_iff}
use rungpu_agent.Digest.{Sha256}
use rungpu_agent.Types.{JobResult}
use rungpu_agent.Journal.Records.{JournalError}
use rungpu_agent.Journal.Operations.{complete}
use rungpu_agent.Executor.State.{Execution, Executor, mark_stop_unverified}
use rungpu_agent.Executor.Run.{finish, finished, is_stopped}
use rungpu_agent.Executor.Histories.{IsLive}
use rungpu_agent.Executor.Invariant.{IsSafe}
use rungpu_agent.Executor.Running.{some_inj}
use rungpu_agent.Executor.Execute.{Executed, note_workspace, note_unverified, end_execution}

module _ ⦃h : Sha256⦄ where
  finished_held :
      (stopped : Bool) (o : Option JournalError) (x : Execution)
      → stopped ≡ false
      → x.is_held ≡ true
      → ((finished stopped o x).is_held ≡ true) × ((finished stopped o x).done ≡ true)
  finished_held stopped (some y) x w held = (held, refl)
  finished_held false none x w held = (held, refl)
  finished_held true none x w held = absurd (cc w)

  finish_held :
      (t : ℕ) (result : JobResult) (e : Executor)
      → is_stopped e (e.heap t) ≡ false
      → (e.heap t).is_held ≡ true
      → (((finish t result e).0.heap t).is_held ≡ true)
        × (((finish t result e).0.heap t).done ≡ true)
  unfolding finish
  finish_held t result e w held =
      let (l, r) =
        finished_held (is_stopped e (e.heap t))
          (complete (e.heap t).job_id (e.heap t).dispatch_token (some result)
            (is_stopped e (e.heap t)) e.journal).1
          (e.heap t) w held in
      (ground (arith, l), ground (arith, r))

  finished_free :
      (stopped : Bool) (o : Option JournalError) (x : Execution)
      → stopped ≡ true
      → o ≡ none
      → ((finished stopped o x).is_held ≡ false) × ((finished stopped o x).stop_confirmed ≡ true)
  finished_free true none x w good = (refl, refl)
  finished_free false none x w good = absurd (cc w)
  finished_free b (some y) x w good = absurd (cc good)

  noted :
      (unverified kept : Bool) (t : ℕ) (e e' : Executor)
      → lookup (e.heap t).job_id e.executions ≡ some t
      → (unverified || kept) ≡ true
      → note_unverified unverified (e.heap t).job_id (note_workspace kept (e.heap t).job_id e)
        ≡ some e'
      → (is_stopped e' (e'.heap t) ≡ false) × ((e'.heap t).is_held ≡ (e.heap t).is_held)
  unfolding mark_stop_unverified is_stopped
  noted true true t e e' found w made =
      subst (λ y. (is_stopped y (y.heap t) ≡ false) × ((y.heap t).is_held ≡ (e.heap t).is_held))
        (some_inj _ e' (rw (mark_stop_unverified, found) at made)) (ground arith, ground arith)
  noted true false t e e' found w made =
      subst (λ y. (is_stopped y (y.heap t) ≡ false) × ((y.heap t).is_held ≡ (e.heap t).is_held))
        (some_inj _ e' (rw (mark_stop_unverified, found) at made)) (ground arith, ground arith)
  noted false true t e e' found w made =
      subst (λ y. (is_stopped y (y.heap t) ≡ false) × ((y.heap t).is_held ≡ (e.heap t).is_held))
        (some_inj _ e' made) (ground (arith, eq_iff (e.heap t).job_id (e.heap t).job_id), refl)
  noted false false t e e' found w made = absurd (cc w)

  -- An execution for which execute noted an unverified stop or a running workspace still holds the
  -- GPU when its goroutine has ended, whatever Complete answered. The executor must satisfy its
  -- invariant, and the execution must not be done before.
  pub end_execution-held :
      (t : ℕ) (x : Executed) (e e' : Executor) (answer : Option JournalError)
      → IsSafe e
      → IsLive t e
      → (x.is_unverified || x.is_kept) ≡ true
      → end_execution t x e ≡ some (e', answer)
      → ((e'.heap t).is_held ≡ true) × ((e'.heap t).done ≡ true)
  unfolding end_execution
  end_execution-held t x e e' answer safe (lt, running) w made =
      elim (Option-cases (
        note_unverified x.is_unverified (e.heap t).job_id
          (note_workspace x.is_kept (e.heap t).job_id e))) [
            | inl panics ↦ absurd (cc (rw (end_execution, panics) at made))
            | inr (m, after) ↦
                let f = safe.fits t lt in
                let (kept, same) =
                  noted x.is_unverified x.is_kept t e m (f.tracked (f.live running)) w after in
                subst (λ y. ((y.0.heap t).is_held ≡ true) × ((y.0.heap t).done ≡ true))
                  (some_inj _ (e', answer) (rw (end_execution, after) at made))
                  (finish_held t x.result m kept (same ∙ f.live running))
          ]

  -- An execution for which execute noted neither gives the GPU back when its goroutine ends, and its
  -- stop counts as confirmed, if Complete wrote the journal, no cancellation was requested, no stop
  -- was unverified before and no workspace of its job is noted.
  pub end_execution-free :
      (t : ℕ) (x : Executed) (e : Executor)
      → x.is_unverified ≡ false
      → x.is_kept ≡ false
      → (e.heap t).cancel_requested ≡ false
      → (e.heap t).stop_unverified ≡ false
      → contains (e.heap t).job_id e.workspaces ≡ false
      → (finish t x.result e).1 ≡ none
      → (end_execution t x e ≡ some (finish t x.result e))
        × (((finish t x.result e).0.heap t).is_held ≡ false)
        × (((finish t x.result e).0.heap t).stop_confirmed ≡ true)
  unfolding end_execution finish is_stopped
  end_execution-free t x e verified left asked clean none' good =
      let b : Bool = is_stopped e (e.heap t) in
      let (free, confirmed) =
        finished_free b
          (complete (e.heap t).job_id (e.heap t).dispatch_token (some x.result) b e.journal).1
          (e.heap t) (ground arith) good in
      (ground (arith, verified, left), ground (arith, free), ground (arith, confirmed))
