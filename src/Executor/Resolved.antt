-- ===== src/Executor/Resolved.antt =====
-- What restoring one record (internal/job/recovery.go) keeps, and when the record is resolved.
use rungpu_agent.Base.{
  String, Bool, true, false, ◌∷◌, Option, none, some, lookup, string_eq, ◌==◌, nat_eq,
  if◌then◌else◌, ◌≡◌, refl, ◌∙◌, ◌⊎◌, inl, inr, Option-cases,
}
use rungpu_agent.Digest.{Sha256}
use rungpu_agent.Journal.Records.{AttemptRecord, JournalError}
use rungpu_agent.Journal.Store.{AttemptJournal}
use rungpu_agent.Journal.Operations.{}
use rungpu_agent.Journal.Lifecycle.{key_of}
use rungpu_agent.Journal.Runs.{Holds}
use rungpu_agent.Journal.Admission.{IsClosed}
use rungpu_agent.Executor.State.{Execution, Executor}
use rungpu_agent.Executor.Kept.{IsStopped, Keeps, Anywhere, Keeps-refl}
use rungpu_agent.Executor.Invariant.{key_at, Sound-Keeps}
use rungpu_agent.Executor.Extension.{joined_self}
use rungpu_agent.Executor.Recovery.{
  RecoveryError, track, restored_execution, journal_step, keep_reserved,
}
use rungpu_agent.Executor.Opening.{Opening, IsTracked, track_known, track-Opening}

module _ ⦃h : Sha256⦄ where
  -- What restoring one record does: the journal loses no proof of a stop, and what was tracked is
  -- still tracked.
  pub record Restoring (e e' : Executor) : Type 0 where
    pub opening : Opening e'
    pub keeps : Keeps Anywhere e.journal e'.journal
    pub tracked : (id : String) → IsTracked id e → IsTracked id e'
    pub same_gpu : e'.gpu_id ≡ e.gpu_id

  -- The job of the record holds the GPU, or the record's stop is verified.
  abbrev pub IsResolved : AttemptRecord → Executor → Type 0
  IsResolved r e = IsTracked r.job_id e ⊎ Holds IsStopped (key_of r) e.journal

  pub Restoring-refl : (e : Executor) → Opening e → Restoring e e
  Restoring-refl e o = record {
    opening = o;
    keeps = Keeps-refl e.journal o.safe.keyed;
    tracked = λ id w. w;
    same_gpu = refl;
  }

  pub Restoring-journal :
      (e : Executor) (j : AttemptJournal)
      → Opening e
      → Keeps Anywhere e.journal j
      → Restoring e (record e { journal = j })
  Restoring-journal e j o keeps = record {
    opening = record {
      safe = Sound-Keeps keeps o.safe;
      all_restored = o.all_restored;
      all_held = o.all_held;
    };
    keeps = keeps;
    tracked = λ id w. w;
    same_gpu = refl;
  }

  pub Restoring-trans : (a b c : Executor) → Restoring a b → Restoring b c → Restoring a c
  Restoring-trans a b c p q = record {
    opening = q.opening;
    keeps = record {
      keyed = q.keeps.keyed;
      stopped = λ k w s. q.keeps.stopped k tt (p.keeps.stopped k tt s);
      closed = λ k s. q.keeps.closed k (p.keeps.closed k s);
    };
    tracked = λ id w. q.tracked id (p.tracked id w);
    same_gpu = q.same_gpu ∙ p.same_gpu;
  }

  pub IsResolved-Restoring :
      (r : AttemptRecord) (a b : Executor) → Restoring a b → IsResolved r a → IsResolved r b
  IsResolved-Restoring r a b p (inl w) = inl (p.tracked r.job_id w)
  IsResolved-Restoring r a b p (inr w) = inr (p.keeps.stopped (key_of r) tt w)

  -- The outcome of a part of the loop's body.
  abbrev pub Restores : AttemptRecord → Executor → Executor × Option RecoveryError → Type 0
  Restores r e p = p.1 ≡ none → Restoring e p.0 × IsResolved r p.0

  pub journal_step-Restores :
      (r : AttemptRecord) (e : Executor) (p : AttemptJournal × Option JournalError)
      → Opening e
      → Keeps Anywhere e.journal p.0
      → (p.1 ≡ none → Holds IsStopped (key_of r) p.0)
      → Restores r e (journal_step e p)
  journal_step-Restores r e (j, some x) o keeps stop w = absurd (cc w)
  journal_step-Restores r e (j, none) o keeps stop w =
      (Restoring-journal e j o keeps, inr (stop refl))

  pub track_restored :
      (e : Executor) (x : Execution)
      → Opening e
      → (x.restored ≡ true) × (x.is_held ≡ true) × (x.done ≡ true) × (x.stop_confirmed ≡ false)
      → (x.cancel_requested ≡ true → Holds IsClosed (key_at x) e.journal)
      → lookup x.job_id e.executions ≡ none
      → Restoring e (track x e)
  track_restored e x o flags closed free = record {
    opening = track-Opening e o x flags closed free;
    keeps = Keeps-refl e.journal o.safe.keyed;
    tracked = λ id (t, found). (t, track_known e o x flags closed free id t found);
    same_gpu = refl;
  }

  pub keep_reserved-Restores :
      (r : AttemptRecord) (e : Executor)
      → Opening e
      → (r.cancel_requested ≡ true → Holds IsClosed (key_of r) e.journal)
      → Restores r e (keep_reserved r e)
  unfolding keep_reserved
  keep_reserved-Restores r e o closed w = elim (Option-cases (lookup r.job_id e.executions)) [
    | inr (t, taken) ↦ absurd (cc (rw (keep_reserved, taken) at w))
    | inl free ↦ rw (keep_reserved, free) (at free (r.runtime == "workspace"))
  ]
    where
      at :
          lookup r.job_id e.executions ≡ none
          → (b : Bool)
          → let e' : Executor = track (restored_execution r) e in
            let e2 : Executor =
              if b then record e' { workspaces = r.job_id ∷ e.workspaces } else e' in
            Restoring e e2 × IsResolved r e2
      at free true =
          let p = track_restored e (restored_execution r) o (refl, refl, refl, refl) closed free in
          (
            record {
              opening = record {
                safe = p.opening.safe;
                all_restored = p.opening.all_restored;
                all_held = p.opening.all_held;
              };
              keeps = p.keeps;
              tracked = p.tracked;
              same_gpu = refl;
            },
            inl (e.next, joined_self e.heap e.next e.executions (restored_execution r)),
          )
      at free false = (
        track_restored e (restored_execution r) o (refl, refl, refl, refl) closed free,
        inl (e.next, joined_self e.heap e.next e.executions (restored_execution r)),
      )
