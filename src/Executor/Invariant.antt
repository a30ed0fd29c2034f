-- ===== src/Executor/Invariant.antt =====
-- The invariant of an executor's histories (internal/job/executor.go): what holds of every execution
-- that was ever started, and that an update of one of them or of the journal keeps.
use rungpu_agent.Base.{
  ℕ, String, true, false, some, Map, lookup, ◌==◌, nat_eq, string_eq, ◌≡◌, ◌≢◌, refl, sym, ◌∙◌,
  subst, ◌⊎◌, inl, inr, ◌<◌, Bool-cases, nat_beq_iff,
}
use rungpu_agent.Digest.{Sha256}
use rungpu_agent.Journal.Records.{attempt_key}
use rungpu_agent.Journal.Store.{AttemptJournal}
use rungpu_agent.Journal.Lifecycle.{IsKeyed}
use rungpu_agent.Journal.Runs.{Holds}
use rungpu_agent.Journal.Admission.{IsClosed}
use rungpu_agent.Executor.State.{Execution, Executor, update}
use rungpu_agent.Executor.Kept.{IsStopped, Keeps, Anywhere}

abbrev pub BothRestored : Execution → Execution → Type 0
BothRestored x y = (x.restored ≡ true) × (y.restored ≡ true)

module _ ⦃h : Sha256⦄ where
  abbrev pub key_at : Execution → String
  key_at x = attempt_key x.job_id x.dispatch_token

  -- An execution that holds the GPU is tracked; one that does not has a verified stop in the
  -- journal; the goroutine of one that is not done holds it.
  pub record Fits (executions : Map ℕ) (j : AttemptJournal) (t : ℕ) (x : Execution) : Type 0 where
    pub tracked : x.is_held ≡ true → lookup x.job_id executions ≡ some t
    pub released : x.is_held ≡ false → Holds IsStopped (key_at x) j
    pub confirmed : x.stop_confirmed ≡ true → x.is_held ≡ false
    pub live : x.done ≡ false → x.is_held ≡ true
    pub settled : x.restored ≡ true → x.done ≡ true
    pub cancelled : x.cancel_requested ≡ true → Holds IsClosed (key_at x) j

  -- Two executions are of different attempts and do not both hold the GPU, unless both were
  -- restored from the journal.
  abbrev pub Apart : Execution → Execution → Type 0
  Apart x y = (key_at x ≡ key_at y) ⊎ ((x.is_held ≡ true) × (y.is_held ≡ true)) → BothRestored x y

  pub record Sound (heap : ℕ → Execution) (next : ℕ) (executions : Map ℕ) (j : AttemptJournal)
      : Type 0 where
    pub keyed : IsKeyed j.records
    pub fits : (t : ℕ) → t < next → Fits executions j t (heap t)
    pub known :
        (id : String) (t : ℕ) → lookup id executions ≡ some t → (t < next) × ((heap t).job_id ≡ id)
    pub apart : (s t : ℕ) → s < next → t < next → s ≢ t → Apart (heap s) (heap t)

  abbrev pub IsSafe : Executor → Type 0
  IsSafe e = Sound e.heap e.next e.executions e.journal

  pub Fits-Keeps :
      {quiet : String → Type 0} {ex : Map ℕ} {j j' : AttemptJournal} {t : ℕ} {x : Execution}
      → Keeps quiet j j'
      → (x.is_held ≡ false → quiet (key_at x))
      → Fits ex j t x
      → Fits ex j' t x
  Fits-Keeps {x} keeps q f = record {
    tracked = f.tracked;
    released = λ w. keeps.stopped (key_at x) (q w) (f.released w);
    confirmed = f.confirmed;
    live = f.live;
    settled = f.settled;
    cancelled = λ w. keeps.closed (key_at x) (f.cancelled w);
  }

  -- A change of the journal that loses no proof of a stop.
  pub Sound-Keeps :
      {heap : ℕ → Execution} {n : ℕ} {ex : Map ℕ} {j j' : AttemptJournal}
      → Keeps Anywhere j j'
      → Sound heap n ex j
      → Sound heap n ex j'
  Sound-Keeps keeps s = record {
    keyed = keeps.keyed;
    fits = λ t lt. Fits-Keeps keeps (λ w. tt) (s.fits t lt);
    known = s.known;
    apart = s.apart;
  }

  -- The fields that no code writes after the execution is made.
  pub record Same (x y : Execution) : Type 0 where
    pub job : y.job_id ≡ x.job_id
    pub token : y.dispatch_token ≡ x.dispatch_token
    pub origin : y.restored ≡ x.restored
    pub held : y.is_held ≡ true → x.is_held ≡ true

  Apart-Same : (x x' y y' : Execution) → Same x x' → Same y y' → Apart x y → Apart x' y'
  Apart-Same x x' y y' p q a w =
      let (u, v) = a (elim w [
        | inl same_key ↦ inl (cc (p.job, p.token, q.job, q.token, same_key))
        | inr (l, r) ↦ inr (p.held l, q.held r)
      ]) in
      (p.origin ∙ u, q.origin ∙ v)

  pub Same-refl : (x : Execution) → Same x x
  Same-refl x = record { job = refl; token = refl; origin = refl; held = λ w. w }

  pub Same-update :
      (heap : ℕ → Execution) (t : ℕ) (x : Execution)
      → Same (heap t) x
      → (s : ℕ) → Same (heap s) (update heap t x s)
  Same-update heap t x same s = elim (Bool-cases (t == s)) [
    | inl e ↦ rw e (subst (λ u. Same (heap u) x) ((nat_beq_iff t s).0 e) same)
    | inr e ↦ rw e (Same-refl (heap s))
  ]

  -- One execution changes, together with the journal.
  pub Sound-update :
      {quiet : String → Type 0} {heap : ℕ → Execution} {n : ℕ} {ex : Map ℕ} {j j' : AttemptJournal}
      (t : ℕ) (x : Execution)
      → Same (heap t) x
      → Fits ex j' t x
      → Keeps quiet j j'
      → ((s : ℕ) → s < n → s ≢ t → (heap s).is_held ≡ false → quiet (key_at (heap s)))
      → Sound heap n ex j
      → Sound (update heap t x) n ex j'
  Sound-update {heap} {n} {ex} {j} {j'} t x same fit keeps q s = record {
    keyed = keeps.keyed;
    fits = fits;
    known = λ id u w. let (lt, e) = s.known id u w in (lt, (Same-update heap t x same u).job ∙ e);
    apart = λ u v lu lv ne.
        Apart-Same _ _ _ _ (Same-update heap t x same u) (Same-update heap t x same v)
          (s.apart u v lu lv ne);
  }
    where
      fits : (u : ℕ) → u < n → Fits ex j' u (update heap t x u)
      fits u lt = elim (Bool-cases (t == u)) [
        | inl e ↦ rw e (subst (λ v. Fits ex j' v x) ((nat_beq_iff t u).0 e) fit)
        | inr e ↦
            rw e
              (Fits-Keeps keeps (q u lt (λ w. cc (e, (nat_beq_iff t u).1 (sym w)))) (s.fits u lt))
      ]
