-- ===== src/Outbox/Invariant.antt =====
-- internal/pool/result_outbox.go: queueing, acknowledging and sending keep the outbox in order.
use rungpu_agent.Base.{
  ◌≡◌, inl, inr, String, string_eq, Bool, true, false, not, ◌&&◌, ◌||◌, List, Option, none, some,
  Map, lookup, delete, lookup-delete, ◌==◌, ◌/=◌, Bool-cases, arith, beq_refl,
}
use rungpu_agent.Digest.{Sha256}
use rungpu_agent.Types.{JobResult, valid_job_id}
use rungpu_agent.Journal.Records.{JournalError}
use rungpu_agent.Journal.Store.{AttemptJournal}
use rungpu_agent.Journal.Operations.{remember_result, accept}
use rungpu_agent.Outbox.State.{
  PendingResult, OutboxFile, Outbox, next_fault, attempt_result_key, is_foreign_key,
}
use rungpu_agent.Outbox.Operations.{
  in_journal, in_journal_at, add_persisted, add_result, queue_result, queue_attempt_rejection,
  drop_result, drop_at, answer, keeps_pending, is_present, drop_accepted, ack_pending, ack_result,
  acked_key,
}
use rungpu_agent.Outbox.Soundness.{
  AreEntries, IsSound, Persisted-persist_result_at_key, IsSound-put_pending,
}

module _ ⦃h : Sha256⦄ where
  job_key_own : (r : JobResult) → valid_job_id r.job_id ≡ true → is_foreign_key r.job_id r ≡ false
  unfolding is_foreign_key
  job_key_own r v = ground (arith, v, beq_refl r.job_id)

  attempt_key_own :
      (r : JobResult)
      → valid_job_id r.job_id ≡ true
      → (r.dispatch_token == "") ≡ false
      → is_foreign_key (attempt_result_key r.job_id r.dispatch_token) r ≡ false
  unfolding is_foreign_key
  attempt_key_own r v t =
      ground (arith, v, t, beq_refl (attempt_result_key r.job_id r.dispatch_token))

  -- A call of the journal leaves results and files.
  IsSound-in_journal :
      (call : AttemptJournal → AttemptJournal × Option JournalError) (box : Outbox)
      → IsSound box
      → IsSound (in_journal call box).0
  IsSound-in_journal call box sound = journal_cases box.journal
    where
      journal_cases : (o : Option AttemptJournal) → IsSound (in_journal_at o call box).0
      journal_cases none = sound
      journal_cases (some j) = sound

  IsSound-add_persisted :
      (key : String) (r : JobResult) (w : Outbox × Option JournalError)
      → is_foreign_key key r ≡ false
      → IsSound w.0
      → IsSound (add_persisted key r w)
  unfolding add_persisted
  IsSound-add_persisted key r (box, some e) own sound = sound
  IsSound-add_persisted key r (box, none) own sound =
      IsSound-put_pending key r box _ (Persisted-persist_result_at_key key r box) own sound

  IsSound-add_result :
      (key : String) (r : JobResult) (box : Outbox)
      → is_foreign_key key r ≡ false
      → IsSound box
      → IsSound (add_result key r box)
  unfolding add_result
  IsSound-add_result key r box own sound =
      IsSound-add_persisted key r _ own (IsSound-in_journal (remember_result r) box sound)

  pub IsSound-queue_result :
      (r : JobResult) (box : Outbox) → IsSound box → IsSound (queue_result r box)
  unfolding queue_result
  IsSound-queue_result r box sound =
      elim (Bool-cases
        (not (valid_job_id r.job_id) || keeps_pending (lookup r.job_id box.results) r)) [
          | inl e ↦ rw (e) sound
          | inr e ↦
              rw (e) (IsSound-add_result r.job_id r box (job_key_own r (ground (arith, e))) sound)
        ]

  pub IsSound-queue_attempt_rejection :
      (r : JobResult) (box : Outbox) → IsSound box → IsSound (queue_attempt_rejection r box)
  unfolding queue_attempt_rejection
  IsSound-queue_attempt_rejection r box sound =
      let key = attempt_result_key r.job_id r.dispatch_token in
      elim (Bool-cases (
        not (valid_job_id r.job_id)
        || r.dispatch_token == ""
        || is_present (lookup key box.results))) [
          | inl e ↦ rw (e) sound
          | inr e ↦ rw (e) (
              IsSound-add_result key r box
                (attempt_key_own r (ground (arith, e)) (ground (arith, e))) sound)
        ]

  -- Removing a key from both.
  AreEntries-delete :
      (files : Map OutboxFile) (results : Map PendingResult) (k : String)
      → AreEntries files results
      → AreEntries (delete k files) (delete k results)
  AreEntries-delete files results k sound key p e = elim (Bool-cases (k == key)) [
    | inl same ↦ absurd (ground (arith, lookup-delete k key results, same, e))
    | inr other ↦
        let here = lookup-delete k key results in
        let there = lookup-delete k key files in
        let entry = sound key p (ground (arith, here, other, e)) in
        record {
          own_key = entry.own_key;
          own_result = entry.own_result;
          in_file = λ d. ground (arith, there, other, entry.in_file d);
        }
  ]

  IsSound-drop_result :
      (key : String) (box : Outbox) → IsSound box → IsSound (drop_result key box).0
  unfolding drop_result
  IsSound-drop_result key box sound = drop_cases (next_fault box.faults)
    where
      drop_cases : (f : Bool × List Bool) → IsSound (drop_at f key box).0
      drop_cases (true, faults) = AreEntries-delete box.files box.results key sound
      drop_cases (false, faults) = sound

  IsSound-drop_accepted :
      (key id : String) (p : PendingResult) (w : Outbox × Option JournalError)
      → IsSound w.0
      → IsSound (drop_accepted key id p w).0
  unfolding drop_accepted
  IsSound-drop_accepted key id p (box, some e) sound = sound
  IsSound-drop_accepted key id p (box, none) sound =
      answer_cases (drop_result key box) (IsSound-drop_result key box sound)
    where
      answer_cases : (w : Outbox × Bool) → IsSound w.0 → IsSound (answer key id p w).0
      answer_cases (box, true) s = s
      answer_cases (box, false) s = s

  IsSound-ack_pending :
      (key id token : String) (o : Option PendingResult) (box : Outbox)
      → IsSound box
      → IsSound (ack_pending key id token o box).0
  unfolding ack_pending
  IsSound-ack_pending key id token none box sound = sound
  IsSound-ack_pending key id token (some p) box sound =
      elim (Bool-cases (p.result.dispatch_token /= "" && p.result.dispatch_token /= token)) [
        | inl e ↦ rw (e) sound
        | inr e ↦ rw (e) (
            IsSound-drop_accepted key id p _
              (IsSound-in_journal (accept id p.result.dispatch_token) box sound))
      ]

  pub IsSound-ack_result :
      (id token : String) (box : Outbox) → IsSound box → IsSound (ack_result id token box).0
  unfolding ack_result
  IsSound-ack_result id token box sound =
      IsSound-ack_pending (acked_key id token box) id token _ box sound
