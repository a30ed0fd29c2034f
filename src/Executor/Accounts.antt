-- ===== src/Executor/Accounts.antt =====
-- What the restoring of one record leaves (internal/job/recovery.go, the body of the loop of
-- restoreJournal).
use rungpu_agent.Base.{
  String, Bool, true, false, ◌&&◌, ◌||◌, not, Option, none, some, lookup, string_eq, ◌==◌, ◌/=◌,
  nat_eq, if◌then◌else◌, ◌≡◌, refl, arith, ◌⊎◌, inl, inr, Bool-cases, Option-cases,
}
use text.Mathlib.TextEquality.{eq_iff}
use rungpu_agent.Digest.{Sha256}
use rungpu_agent.Types.{JobResult}
use rungpu_agent.Journal.Records.{AttemptRecord, JournalError, docker_runtime_name, is_some}
use rungpu_agent.Journal.Store.{AttemptJournal}
use rungpu_agent.Journal.Operations.{
  find, complete, block_replay, recover_unstarted, recovered_unstarted, or_else, restarted,
}
use rungpu_agent.Journal.Lifecycle.{IsKeyed, key_of, block_replay-Change, recover_unstarted-Change}
use rungpu_agent.Journal.Runs.{Holds}
use rungpu_agent.Journal.Admission.{IsClosed, store_ok-Holds}
use rungpu_agent.Executor.State.{Executor}
use rungpu_agent.Executor.Kept.{
  IsStopped, Keeps, Anywhere, Change-Keeps, complete_stopped-Keeps, complete_ok,
}
use rungpu_agent.Executor.Extension.{joined_self}
use rungpu_agent.Executor.Recovery.{
  Surroundings, RecoveryError, legacy_execution, track_unverified_legacy, Container, gone, runs_on,
  unknown, check_container, final_result, journal_step, then_keep, reserve, settle_container,
  restore_record,
}
use rungpu_agent.Executor.Opening.{Opening}
use rungpu_agent.Executor.Resolved.{
  Restoring, IsResolved, Restores, Restoring-refl, Restoring-journal, Restoring-trans,
  journal_step-Restores, keep_reserved-Restores, track_restored,
}

module _ ⦃h : Sha256⦄ where
  block_replay-Keeps :
      (id token : String) (b : Bool) (j : AttemptJournal)
      → IsKeyed j.records
      → Keeps Anywhere j (block_replay id token b j).0
  block_replay-Keeps id token b j keyed =
      Change-Keeps j _ keyed (block_replay-Change j keyed id token b)

  then_keep-Restores :
      (r : AttemptRecord) (e : Executor) (p : AttemptJournal × Option JournalError)
      → Opening e
      → Keeps Anywhere e.journal p.0
      → (r.cancel_requested ≡ true → Holds IsClosed (key_of r) e.journal)
      → Restores r e (then_keep r (journal_step e p))
  then_keep-Restores r e (j, some x) o keeps closed w = absurd (cc w)
  then_keep-Restores r e (j, none) o keeps closed w =
      let first = Restoring-journal e j o keeps in
      let (next, resolved) =
        keep_reserved-Restores r (record e { journal = j }) first.opening
          (λ c. keeps.closed (key_of r) (closed c)) w in
      (Restoring-trans e _ _ first next, resolved)

  reserve-Restores :
      (b : Bool) (r : AttemptRecord) (e : Executor)
      → Opening e
      → (r.cancel_requested ≡ true → Holds IsClosed (key_of r) e.journal)
      → Restores r e (reserve b r e)
  unfolding reserve
  reserve-Restores b r e o closed =
      then_keep-Restores r e (block_replay r.job_id r.dispatch_token b e.journal) o
        (block_replay-Keeps r.job_id r.dispatch_token b e.journal o.safe.keyed) closed

  settle-Restores :
      (c : Container) (r : AttemptRecord) (e : Executor)
      → Opening e
      → (r.cancel_requested ≡ true → Holds IsClosed (key_of r) e.journal)
      → Restores r e (settle_container c r e)
  settle-Restores gone r e o closed =
      journal_step-Restores r e
        (complete r.job_id r.dispatch_token (some (final_result e.gpu_id r r.result)) true
          e.journal)
        o (complete_stopped-Keeps e.journal o.safe.keyed r.job_id r.dispatch_token _)
        (complete_ok e.journal o.safe.keyed r.job_id r.dispatch_token
          (some (final_result e.gpu_id r r.result)) (inl refl))
  settle-Restores runs_on r e o closed = reserve-Restores false r e o closed
  settle-Restores unknown r e o closed = reserve-Restores true r e o closed

  recover_ok :
      (r : AttemptRecord) (j : AttemptJournal)
      → IsKeyed j.records
      → (recover_unstarted r j).1 ≡ none
      → Holds IsStopped (key_of r) (recover_unstarted r j).0
  unfolding recover_unstarted docker_runtime_name
  recover_ok r j keyed good = elim (Option-cases (find j r.job_id r.dispatch_token)) [
    | inl e ↦ absurd (cc (rw (e, recover_unstarted) at good))
    | inr (c, e) ↦
        elim (Bool-cases (
          not c.known_unstarted
          && (not (docker_runtime_name c.runtime) || not (c.docker_daemon_id == "")))) [
            | inl t ↦ absurd (cc (rw (e, recover_unstarted, t) at good))
            | inr t ↦
                rw (e, recover_unstarted, t)
                  (store_ok-Holds IsStopped (key_of r) (recovered_unstarted c) j (keyed _ c e)
                    (refl, inr (inr (has_result c c.result)))
                    (rw (e, recover_unstarted, t) at good))
          ]
  ]
    where
      has_result :
          (c : AttemptRecord) (x : Option JobResult)
          → is_some (or_else x (some (restarted c))) ≡ true
      has_result c none = refl
      has_result c (some y) = refl

  -- The attempts that a restart must account for: those without a verified stop that may have been
  -- admitted, and this GPU's old outbox entries of unknown state.
  abbrev pub IsUnresolved : String → AttemptRecord → Type 0
  IsUnresolved gpu r =
      ((r.legacy_unverified ≡ true) × (r.gpu_id ≡ gpu))
      ⊎ ((r.legacy_unverified ≡ false)
          × ((r.phase == "unknown") ≡ false)
          × (r.stop_verified ≡ false))

  abbrev pub Accounts : AttemptRecord → Executor → Executor × Option RecoveryError → Type 0
  Accounts r e p = p.1 ≡ none → Restoring e p.0 × (IsUnresolved e.gpu_id r → IsResolved r p.0)

  legacy-Accounts :
      (s : Surroundings) (r : AttemptRecord) (e : Executor)
      → Opening e
      → r.legacy_unverified ≡ true
      → Accounts r e (track_unverified_legacy s r e)
  unfolding track_unverified_legacy
  legacy-Accounts s r e o old w =
      elim (Bool-cases (not r.legacy_unverified || r.gpu_id /= e.gpu_id)) [
        | inl other ↦
            rw (track_unverified_legacy, other) (Restoring-refl e o, λ u. absurd (foreign other u))
        | inr mine ↦ elim (Option-cases (lookup r.job_id e.executions)) [
          | inr (t, found) ↦
              rw (track_unverified_legacy, mine, found) (Restoring-refl e o, λ u. inl (t, found))
          | inl free ↦ elim (Bool-cases (s.takes_lease r)) [
            | inr busy ↦ absurd (cc (rw (track_unverified_legacy, mine, free, busy) at w))
            | inl leased ↦
                rw (track_unverified_legacy, mine, free, leased)
                  (
                    track_restored e (legacy_execution r) o (refl, refl, refl, refl)
                        (λ c. absurd (cc c)) free,
                    λ u. inl (e.next, joined_self e.heap e.next e.executions (legacy_execution r)),
                  )
          ]
        ]
      ]
    where
      foreign : (not r.legacy_unverified || r.gpu_id /= e.gpu_id) ≡ true → ¬ IsUnresolved e.gpu_id r
      foreign other (inl (l, same)) = ground (arith, eq_iff r.gpu_id e.gpu_id)
      foreign other (inr (l, p, v)) = cc (old, l)

  if-Accounts :
      (r : AttemptRecord) (e : Executor) (b : Bool) (p q : Executor × Option RecoveryError)
      → (b ≡ true → Accounts r e p)
      → (b ≡ false → Accounts r e q)
      → Accounts r e (if b then p else q)
  if-Accounts r e true p q yes' no' = yes' refl
  if-Accounts r e false p q yes' no' = no' refl

  resolved-Accounts :
      (r : AttemptRecord) (e : Executor) (p : Executor × Option RecoveryError)
      → Restores r e p
      → Accounts r e p
  resolved-Accounts r e p good w = let (kept, done') = good w in (kept, λ u. done')

  pub record-Accounts :
      (s : Surroundings) (r : AttemptRecord) (e : Executor)
      → Opening e
      → (r.cancel_requested ≡ true → Holds IsClosed (key_of r) e.journal)
      → Accounts r e (restore_record s r e)
  unfolding restore_record
  record-Accounts s r e o closed =
      if-Accounts r e r.legacy_unverified _ _ (legacy-Accounts s r e o) (λ new.
        if-Accounts r e (r.phase == "unknown" || r.stop_verified) _ _
          (λ skip w. (Restoring-refl e o, λ u. absurd (skipped new skip u)))
          (λ go.
            if-Accounts r e
              (r.known_unstarted || (docker_runtime_name r.runtime && r.docker_daemon_id == "")) _ _
              (λ unstarted. resolved-Accounts r e _ (
                journal_step-Restores r e (recover_unstarted r e.journal) o
                  (Change-Keeps e.journal _ o.safe.keyed
                    (recover_unstarted-Change e.journal o.safe.keyed r))
                  (recover_ok r e.journal o.safe.keyed)))
              (λ started.
                if-Accounts r e (not (s.takes_lease r)) _ _ (λ busy w. absurd (cc w))
                  (λ leased.
                    if-Accounts r e (docker_runtime_name r.runtime) _ _
                      (λ docker.
                        resolved-Accounts r e _
                          (settle-Restores (check_container s r) r e o closed))
                      (λ native. resolved-Accounts r e _ (reserve-Restores true r e o closed))))))
    where
      skipped :
          r.legacy_unverified ≡ false
          → (r.phase == "unknown" || r.stop_verified) ≡ true
          → ¬ IsUnresolved e.gpu_id r
      skipped new skip (inl (l, g)) = cc (new, l)
      skipped new skip (inr (l, p, v)) = ground arith
