-- ===== src/Executor/Running.antt =====
-- The steps of an execution's goroutine keep the invariant (internal/job/executor.go, the goroutine of
-- Start and the uses of the mutex in execute).
use rungpu_agent.Base.{
  ℕ, String, Bool, true, false, Option, none, some, lookup, nat_eq, string_eq, ◌≡◌, ◌≢◌, refl, sym,
  ap, subst, inl, inr, ◌<◌, Option-cases,
}
use rungpu_agent.Digest.{Sha256}
use rungpu_agent.Types.{JobResult}
use rungpu_agent.Journal.Records.{AttemptRecord, JournalError, OwnedResource}
use rungpu_agent.Journal.Store.{AttemptJournal}
use rungpu_agent.Journal.Operations.{Outcome, ok, fail, complete}
use rungpu_agent.Journal.Runs.{Holds}
use rungpu_agent.Executor.State.{Execution, Executor, update, mark_stop_unverified}
use rungpu_agent.Executor.Start.{}
use rungpu_agent.Executor.Run.{assigned, finish, finished, is_stopped}
use rungpu_agent.Executor.Cancel.{}
use rungpu_agent.Executor.Histories.{}
use rungpu_agent.Executor.Kept.{IsStopped, Keeps, Anywhere, Keeps-refl, complete-Keeps, complete_ok}
use rungpu_agent.Executor.Invariant.{
  IsSafe, Sound, Fits, Same, key_at, Sound-Keeps, Sound-update, Fits-Keeps,
}

pub some_inj : {A : Type 0} (a b : A) → some a ≡ some b → a ≡ b
some_inj a b e = cc e

module _ ⦃h : Sha256⦄ where
  -- Fields that no fact speaks of.
  pub noted-IsSafe :
      (e : Executor) (j : AttemptJournal) (u : ℕ) (resource : OwnedResource) (b : Bool)
      → u < e.next
      → Keeps Anywhere e.journal j
      → IsSafe e
      → Sound
          (update e.heap u (record (e.heap u) { resource = resource; stop_unverified = b }))
          e.next
          e.executions
          j
  noted-IsSafe e j u resource b lt keeps safe =
      let f = Fits-Keeps keeps (λ w. tt) (safe.fits u lt) in
      Sound-update u _ (record { job = refl; token = refl; origin = refl; held = λ w. w })
        (record {
          tracked = f.tracked;
          released = f.released;
          confirmed = f.confirmed;
          live = f.live;
          settled = f.settled;
          cancelled = f.cancelled;
        })
        keeps (λ s ls ne w. tt) safe

  pub assigned-IsSafe :
      (id : String) (e e' : Executor) (o : Outcome AttemptRecord)
      (p : AttemptJournal × Outcome AttemptRecord)
      → IsSafe e
      → Keeps Anywhere e.journal p.0
      → assigned id e p ≡ some (e', o)
      → IsSafe e'
  assigned-IsSafe id e e' o (j, fail x) safe keeps w =
      subst IsSafe (ap (λ y. y.0) (some_inj _ _ w)) (Sound-Keeps keeps safe)
  assigned-IsSafe id e e' o (j, ok r) safe keeps w = elim (Option-cases (lookup id e.executions)) [
    | inl miss ↦ cc (rw (assigned, miss) at w)
    | inr (u, found) ↦ subst IsSafe (ap (λ y. y.0) (some_inj _ _ (rw (assigned, found) at w))) (
        noted-IsSafe e j u r.resource (e.heap u).stop_unverified (safe.known id u found).0 keeps
          safe)
  ]

  pub marked-IsSafe :
      (id : String) (e e' : Executor) → IsSafe e → mark_stop_unverified id e ≡ some e' → IsSafe e'
  unfolding mark_stop_unverified
  marked-IsSafe id e e' safe w = elim (Option-cases (lookup id e.executions)) [
    | inl miss ↦ cc (rw (mark_stop_unverified, miss) at w)
    | inr (u, found) ↦ subst IsSafe (some_inj _ _ (rw (mark_stop_unverified, found) at w)) (
        noted-IsSafe e e.journal u (e.heap u).resource true (safe.known id u found).0
          (Keeps-refl e.journal safe.keyed) safe)
  ]

  pub finished-Same :
      (stopped : Bool) (o : Option JournalError) (x : Execution) → Same x (finished stopped o x)
  finished-Same stopped (some y) x = record {
    job = refl;
    token = refl;
    origin = refl;
    held = λ w. w;
  }
  finished-Same false none x = record { job = refl; token = refl; origin = refl; held = λ w. w }
  finished-Same true none x = record {
    job = refl;
    token = refl;
    origin = refl;
    held = λ w. absurd (cc w);
  }

  -- The execution that a goroutine or a cancellation holds changes, and its flags with it.
  module _ (e : Executor) (safe : IsSafe e) (t : ℕ) (lt : t < e.next) where
    abbrev x : Execution
    x = e.heap t

    finished-Fits :
        (quiet : String → Type 0) (stopped' : Bool) (o : Option JournalError) (j : AttemptJournal)
        → x.done ≡ false
        → Keeps quiet e.journal j
        → (stopped' ≡ true → o ≡ none → Holds IsStopped (key_at x) j)
        → Fits e.executions j t (finished stopped' o x)
    finished-Fits quiet stopped' (some y) j running keeps good =
        let f =
          Fits-Keeps keeps (λ w. absurd (cc (w, (safe.fits t lt).live running))) (safe.fits t lt) in
        record {
          tracked = f.tracked;
          released = f.released;
          confirmed = f.confirmed;
          live = λ w. absurd cc;
          settled = λ w. refl;
          cancelled = f.cancelled;
        }
    finished-Fits quiet false none j running keeps good =
        let f =
          Fits-Keeps keeps (λ w. absurd (cc (w, (safe.fits t lt).live running))) (safe.fits t lt) in
        record {
          tracked = f.tracked;
          released = f.released;
          confirmed = f.confirmed;
          live = λ w. absurd cc;
          settled = λ w. refl;
          cancelled = f.cancelled;
        }
    finished-Fits quiet true none j running keeps good = record {
      tracked = λ w. absurd cc;
      released = λ w. good refl refl;
      confirmed = λ w. refl;
      live = λ w. absurd cc;
      settled = λ w. refl;
      cancelled = λ w. keeps.closed (key_at x) ((safe.fits t lt).cancelled w);
    }

    pub finish-IsSafe : (result : JobResult) → x.done ≡ false → IsSafe (finish t result e).0
    unfolding finish
    finish-IsSafe result running =
        let s = is_stopped e x in
        let keeps = complete-Keeps e.journal safe.keyed x.job_id x.dispatch_token (some result) s in
        Sound-update t _ (finished-Same s _ x) (finished-Fits _ s _ _ running keeps (good s)) keeps
          quiet safe
      where
        good :
            (s : Bool)
            → s ≡ true
            → (complete x.job_id x.dispatch_token (some result) s e.journal).1 ≡ none
            → Holds IsStopped
                (key_at x)
                (complete x.job_id x.dispatch_token (some result) s e.journal).0
        good true w o = complete_ok e.journal safe.keyed _ _ (some result) (inl refl) o
        good false w o = absurd cc

        quiet :
            (s : ℕ) → s < e.next → s ≢ t → (e.heap s).is_held ≡ false → key_at x ≢ key_at (e.heap s)
        quiet s ls ne free same =
            let both = safe.apart s t ls lt ne (inl (sym same)) in
            cc (running, (safe.fits t lt).settled both.1)
