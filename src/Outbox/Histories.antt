-- ===== src/Outbox/Histories.antt =====
-- internal/pool/result_outbox.go: the outbox over histories in which its operations interleave.
use rungpu_agent.Base.{
  ℕ, ◌≡◌, refl, sym, subst, inl, inr, String, string_eq, true, List, [], ◌∷◌, some, Map, keys,
  lookup, if◌then◌else◌, ◌==◌, Bool-cases, arith,
}
use rungpu_agent.Digest.{Sha256}
use rungpu_agent.Types.{JobResult}
use rungpu_agent.Outbox.State.{PendingResult, OutboxFile, Outbox, next_fault}
use rungpu_agent.Outbox.Operations.{
  put_pending, new_pending, queue_result, queue_attempt_rejection, ack_result, load_result_files,
  all_due, load_pending_results,
}
use rungpu_agent.Outbox.Sending.{current, prepare}
use rungpu_agent.Outbox.Soundness.{IsEntry, AreEntries, IsSound, AreEntries-insert, AreEntries-move}
use rungpu_agent.Outbox.Invariant.{
  IsSound-queue_result, IsSound-queue_attempt_rejection, IsSound-ack_result,
}
use rungpu_agent.Outbox.Reload.{Loads, skipped, added, Loads-load_content}
use rungpu_agent.Outbox.Rounds.{IsSound-prepare-current}

module _ ⦃h : Sha256⦄ where
  IsSound-Loads :
      (name : String) (box after : Outbox) → Loads name box after → IsSound box → IsSound after
  unfolding put_pending
  IsSound-Loads name box _ skipped sound = sound
  IsSound-Loads name box _ (added r found own absent) sound =
      AreEntries-insert box.files box.results name (new_pending name r true box.next_serial)
        (record { own_key = refl; own_result = own; in_file = λ d. found })
        (λ key q differs e. sound key q e)

  IsSound-load_result_files :
      (names : List String) (box : Outbox) → IsSound box → IsSound (load_result_files names box)
  unfolding load_result_files
  IsSound-load_result_files [] box sound = sound
  IsSound-load_result_files (name ∷ names) box sound =
      IsSound-load_result_files names _
        (IsSound-Loads name box _ (Loads-load_content name box) sound)

  -- What all_due has under a key it had before, but for the next attempt.
  all_due-lookup :
      (key : String) (m : Map PendingResult) (q : PendingResult)
      → lookup key (all_due m) ≡ some q
      → (p : PendingResult) × (lookup key m ≡ some p) × (q ≡ record p { next_attempt = 0 })
  unfolding all_due lookup
  all_due-lookup key [] q e = absurd (cc e)
  all_due-lookup key ((j, p) ∷ m) q e = elim (Bool-cases (j == key)) [
    | inl same ↦ (p, rw (same) refl, ground (arith, e, same))
    | inr other ↦ rw (other) (all_due-lookup key m q (ground (arith, e, other)))
  ]

  AreEntries-all_due :
      (files : Map OutboxFile) (results : Map PendingResult)
      → AreEntries files results
      → AreEntries files (all_due results)
  AreEntries-all_due files results entries key q e =
      let (p, found, same) = all_due-lookup key results q e in
      let entry = entries key p found in
      subst (λ x. IsEntry files key x) (sym same)
        (record { own_key = entry.own_key; own_result = entry.own_result; in_file = entry.in_file })

  IsSound-load_pending_results : (box : Outbox) → IsSound box → IsSound (load_pending_results box)
  unfolding load_pending_results
  IsSound-load_pending_results box sound =
      let (readable, faults) = next_fault box.faults in
      let listed = record box { faults = faults } in
      AreEntries-all_due _ _
        (IsSound-load_result_files (if readable then keys box.files else []) listed sound)

  -- The outboxes of a process that started with an empty map over any directory. A round of sending
  -- is its single attempts, so that other operations come between them; `elsewhere` is what the
  -- rest of the agent does: it leaves results and files.
  pub data Reached : Outbox → Type 0 where
    started : (box : Outbox) → box.results ≡ [] → Reached box
    queued : (r : JobResult) (box : Outbox) → Reached box → Reached (queue_result r box)
    rejected :
        (r : JobResult) (box : Outbox) → Reached box → Reached (queue_attempt_rejection r box)
    acked : (id token : String) (box : Outbox) → Reached box → Reached (ack_result id token box).0
    loaded : (box : Outbox) → Reached box → Reached (load_pending_results box)
    attempted :
        (now : ℕ) (p q : PendingResult) (box : Outbox)
        → current p box ≡ some q
        → Reached box
        → Reached (prepare now q box)
    elsewhere :
        (box after : Outbox)
        → after.files ≡ box.files
        → after.results ≡ box.results
        → Reached box
        → Reached after

  AreEntries-nil : (files : Map OutboxFile) → AreEntries files []
  unfolding lookup
  AreEntries-nil files key p e = absurd (cc e)

  IsSound-empty : (box : Outbox) → box.results ≡ [] → IsSound box
  IsSound-empty box empty = AreEntries-move refl empty (AreEntries-nil box.files)

  -- In every history, whatever fails in it, a pending result stands under its own key: its job's
  -- id, which is valid, or the key of its job and dispatch token. If it is marked durable, its file
  -- in the outbox directory holds it.
  pub IsSound-Reached : (box : Outbox) → Reached box → IsSound box
  IsSound-Reached _ (started box empty) = IsSound-empty box empty
  IsSound-Reached _ (queued r box before) = IsSound-queue_result r box (IsSound-Reached box before)
  IsSound-Reached _ (rejected r box before) =
      IsSound-queue_attempt_rejection r box (IsSound-Reached box before)
  IsSound-Reached _ (acked id token box before) =
      IsSound-ack_result id token box (IsSound-Reached box before)
  IsSound-Reached _ (loaded box before) =
      IsSound-load_pending_results box (IsSound-Reached box before)
  IsSound-Reached _ (attempted now p q box same before) =
      IsSound-prepare-current now box p q same (IsSound-Reached box before)
  IsSound-Reached after (elsewhere box _ files results before) =
      AreEntries-move files results (IsSound-Reached box before)
