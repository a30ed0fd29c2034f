-- ===== src/Outbox/Acknowledged.antt =====
-- internal/pool/result_outbox.go: what an acknowledgement removes.
use rungpu_agent.Base.{
  ◌≡◌, refl, ap, ◌⊎◌, inl, inr, String, string_eq, Bool, true, false, ◌&&◌, List, Option, none,
  some, lookup, delete, ◌==◌, ◌/=◌, Bool-cases, arith,
}
use text.Mathlib.TextEquality.{eq_iff}
use rungpu_agent.Digest.{Sha256}
use rungpu_agent.Journal.Records.{JournalError}
use rungpu_agent.Journal.Store.{AttemptJournal}
use rungpu_agent.Journal.Operations.{accept}
use rungpu_agent.Outbox.State.{PendingResult, Outbox, next_fault, attempt_result_key}
use rungpu_agent.Outbox.Operations.{
  Ack, in_journal, in_journal_at, drop_at, drop_result, answer, drop_accepted, ack_pending,
  ack_result, acked_key,
}

module _ ⦃h : Sha256⦄ where
  -- Nothing, or one pending result with its file, whose dispatch token is empty or the one that is
  -- acknowledged.
  pub data Acknowledged (id token : String) (box : Outbox) : Outbox × Option Ack → Type 0 where
    refused :
        (after : Outbox)
        → after.results ≡ box.results
        → after.files ≡ box.files
        → Acknowledged id token box (after, none)
    removed :
        (key : String) (p : PendingResult) (after : Outbox)
        → (key ≡ id) ⊎ (key ≡ attempt_result_key id token)
        → lookup key box.results ≡ some p
        → (p.result.dispatch_token ≡ "") ⊎ (p.result.dispatch_token ≡ token)
        → after.results ≡ delete key box.results
        → after.files ≡ delete key box.files
        → Acknowledged id token box
            (after, some (record { canonical = key == id; token = p.result.dispatch_token }))

  in_journal-keeps :
      (call : AttemptJournal → AttemptJournal × Option JournalError) (box : Outbox)
      → ((in_journal call box).0.results ≡ box.results)
        × ((in_journal call box).0.files ≡ box.files)
  in_journal-keeps call box = journal_cases box.journal
    where
      journal_cases :
          (o : Option AttemptJournal)
          → ((in_journal_at o call box).0.results ≡ box.results)
            × ((in_journal_at o call box).0.files ≡ box.files)
      journal_cases none = (refl, refl)
      journal_cases (some j) = (refl, refl)

  module _ (id token key : String) (box : Outbox) (p : PendingResult)
      (named : (key ≡ id) ⊎ (key ≡ attempt_result_key id token))
      (found : lookup key box.results ≡ some p)
      (own : (p.result.dispatch_token ≡ "") ⊎ (p.result.dispatch_token ≡ token)) where
    Acknowledged-drop_accepted :
        (w : Outbox × Option JournalError)
        → w.0.results ≡ box.results
        → w.0.files ≡ box.files
        → Acknowledged id token box (drop_accepted key id p w)
    unfolding drop_accepted drop_result
    Acknowledged-drop_accepted (after, some e) r f = refused after r f
    Acknowledged-drop_accepted (after, none) r f = fault_cases (next_fault after.faults)
      where
        fault_cases :
            (f : Bool × List Bool)
            → Acknowledged id token box (answer key id p (drop_at f key after))
        fault_cases (true, faults) =
            removed key p _ named found own (ap (delete key) r) (ap (delete key) f)
        fault_cases (false, faults) = refused _ r f

  token_cases : (t token : String) → (t /= "" && t /= token) ≡ false → (t ≡ "") ⊎ (t ≡ token)
  token_cases t token e = ground (arith, e, eq_iff t "", eq_iff t token)

  Acknowledged-ack_pending :
      (id token key : String) (box : Outbox) (o : Option PendingResult)
      → (key ≡ id) ⊎ (key ≡ attempt_result_key id token)
      → lookup key box.results ≡ o
      → Acknowledged id token box (ack_pending key id token o box)
  unfolding ack_pending
  Acknowledged-ack_pending id token key box none named found = refused box refl refl
  Acknowledged-ack_pending id token key box (some p) named found =
      elim (Bool-cases (p.result.dispatch_token /= "" && p.result.dispatch_token /= token)) [
        | inl e ↦ rw (e) (refused box refl refl)
        | inr e ↦
            let kept = in_journal-keeps (accept id p.result.dispatch_token) box in
            rw (e) (
              Acknowledged-drop_accepted id token key box p named found (token_cases _ token e) _
                kept.0 kept.1)
      ]

  acked_key-cases :
      (id token : String) (box : Outbox)
      → (acked_key id token box ≡ id) ⊎ (acked_key id token box ≡ attempt_result_key id token)
  unfolding acked_key
  acked_key-cases id token box = ground arith

  -- An acknowledgement removes one pending result and its file, which are under the job's id or
  -- under the key of the job and the acknowledged token, and whose token is that one or empty; the
  -- answer then has that result's token, and is canonical if the key is the job's id. Or it is not
  -- accepted, and removes nothing.
  pub ack_result-Acknowledged :
      (id token : String) (box : Outbox) → Acknowledged id token box (ack_result id token box)
  unfolding ack_result
  ack_result-Acknowledged id token box =
      Acknowledged-ack_pending id token (acked_key id token box) box _
        (acked_key-cases id token box) refl
