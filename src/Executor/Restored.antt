-- ===== src/Executor/Restored.antt =====
-- After restoreJournal (internal/job/recovery.go) the executor satisfies its invariant, and no
-- attempt of the journal is left unresolved and untracked.
use rungpu_agent.Base.{
  ℕ, true, List, [], ◌∷◌, Option, none, some, lookup, All, All-map, string_eq, nat_eq, ◌≡◌, refl,
  subst, arith, ◌⊎◌, inl, inr, ◌<◌,
}
use rungpu_agent.Digest.{Sha256}
use rungpu_agent.Journal.Records.{AttemptRecord}
use rungpu_agent.Journal.Store.{AttemptJournal}
use rungpu_agent.Journal.Operations.{}
use rungpu_agent.Journal.Lifecycle.{IsKeyed, key_of}
use rungpu_agent.Journal.Runs.{Holds}
use rungpu_agent.Journal.Admission.{IsClosed}
use rungpu_agent.Executor.State.{Executor}
use rungpu_agent.Executor.Kept.{IsStopped}
use rungpu_agent.Executor.Invariant.{IsSafe}
use rungpu_agent.Executor.Recovery.{
  Surroundings, RecoveryError, restore_record, and_then, restore_records, restore_journal,
}
use rungpu_agent.Executor.Opening.{Opening}
use rungpu_agent.Executor.Resolved.{
  Restoring, IsResolved, Restoring-refl, Restoring-trans, IsResolved-Restoring,
}
use rungpu_agent.Executor.Accounts.{IsUnresolved, Accounts, record-Accounts}

module _ ⦃h : Sha256⦄ where
  -- The whole loop.
  abbrev pub AllAccount : List AttemptRecord → Executor → Executor × Option RecoveryError → Type 0
  AllAccount rs e p =
      p.1 ≡ none → Restoring e p.0 × All (λ r. IsUnresolved e.gpu_id r → IsResolved r p.0) rs

  abbrev pub AllClosed : List AttemptRecord → AttemptJournal → Type 0
  AllClosed rs j = All (λ r. r.cancel_requested ≡ true → Holds IsClosed (key_of r) j) rs

  and_then-Accounts :
      (r : AttemptRecord) (rs : List AttemptRecord) (e : Executor)
      (rest : Executor → Executor × Option RecoveryError) (p : Executor × Option RecoveryError)
      → ((e' : Executor) → Restoring e e' → AllAccount rs e' (rest e'))
      → Accounts r e p
      → AllAccount (r ∷ rs) e (and_then rest p)
  and_then-Accounts r rs e rest (e', some x) more one w = absurd (cc w)
  and_then-Accounts r rs e rest (e', none) more one w =
      let (kept, resolved) = one refl in
      let (kept2, all_resolved) = more e' kept w in
      (
        Restoring-trans e e' (rest e').0 kept kept2,
        (
          λ u. IsResolved-Restoring r e' (rest e').0 kept2 (resolved u),
          subst (λ g. All (λ x. IsUnresolved g x → IsResolved x (rest e').0) rs) kept.same_gpu
              all_resolved,
        ),
      )

  records-Accounts :
      (s : Surroundings) (rs : List AttemptRecord) (e : Executor)
      → Opening e
      → AllClosed rs e.journal
      → AllAccount rs e (restore_records s rs e)
  unfolding restore_records
  records-Accounts s [] e o closed = λ w. (Restoring-refl e o, tt)
  records-Accounts s (r ∷ rs) e o (c, cs) =
      and_then-Accounts r rs e (restore_records s rs) (restore_record s r e)
        (λ e' kept.
          records-Accounts s rs e' kept.opening
            (All-map (λ x closed w. kept.keeps.closed (key_of x) (closed w)) rs cs))
        (record-Accounts s r e o c)

  abbrev pub AllPresent : List AttemptRecord → AttemptJournal → Type 0
  AllPresent rs j = All (λ r. lookup (key_of r) j.records ≡ some r) rs

  -- restoreJournal on a new executor, and what its loop leaves of each record.
  pub restore_journal-Accounts :
      (s : Surroundings) (rs : List AttemptRecord) (e : Executor)
      → e.next ≡ 0
      → IsKeyed e.journal.records
      → AllPresent rs e.journal
      → AllAccount rs (record e { executions = [] }) (restore_journal s rs e)
  unfolding restore_journal lookup
  restore_journal-Accounts s rs e new keyed present =
      records-Accounts s rs (record e { executions = [] }) empty
        (All-map (λ r found c. (r, found, inr (inl c))) rs present)
    where
      none_below : {A : Type 0} → (t : ℕ) → t < e.next → A
      none_below t lt = absurd (omega (arith, new, lt))

      empty : Opening (record e { executions = [] })
      empty = record {
        safe = record {
          keyed = keyed;
          fits = λ t lt. none_below t lt;
          known = λ id t found. absurd (cc found);
          apart = λ s t ls lt ne. none_below s ls;
        };
        all_restored = λ t lt. none_below t lt;
        all_held = λ t lt. none_below t lt;
      }

  -- When restoreJournal succeeds on a new executor, the executor satisfies the invariant of its
  -- histories, and of every record that has no verified stop and may have been admitted, or that is
  -- an unverified entry of this GPU's old outbox, either the job is tracked by an execution that
  -- holds the GPU, or the journal now has a verified stop that is closed to admission. The journal's
  -- records must stand under their own keys, and the given records must be in it.
  pub restore_journal-IsSafe :
      (s : Surroundings) (rs : List AttemptRecord) (e : Executor)
      → e.next ≡ 0
      → IsKeyed e.journal.records
      → AllPresent rs e.journal
      → (restore_journal s rs e).1 ≡ none
      → let e' : Executor = (restore_journal s rs e).0 in
        IsSafe e'
        × All
            (λ r.
              IsUnresolved e.gpu_id r
              → ((t : ℕ) × (lookup r.job_id e'.executions ≡ some t) × ((e'.heap t).is_held ≡ true))
                ⊎ Holds IsStopped (key_of r) e'.journal)
            rs
  restore_journal-IsSafe s rs e new keyed present w =
      let (kept, resolved) = restore_journal-Accounts s rs e new keyed present w in
      (kept.opening.safe, All-map (held (restore_journal s rs e).0 kept.opening) rs resolved)
    where
      held :
          (e' : Executor)
          → Opening e'
          → (r : AttemptRecord) → (IsUnresolved e.gpu_id r → IsResolved r e')
          → IsUnresolved e.gpu_id r
          → ((t : ℕ) × (lookup r.job_id e'.executions ≡ some t) × ((e'.heap t).is_held ≡ true))
            ⊎ Holds IsStopped (key_of r) e'.journal
      held e' o r resolved u = elim (resolved u) [
        | inl (t, found) ↦ inl (t, found, o.all_held t (o.safe.known r.job_id t found).0)
        | inr stop ↦ inr stop
      ]
