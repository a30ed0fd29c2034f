-- ===== src/Outbox/Soundness.antt =====
-- internal/pool/result_outbox.go: the invariant of the outbox, and that every operation keeps it.
use rungpu_agent.Base.{
  ◌≡◌, ◌≢◌, refl, sym, ap, subst, ◌∙◌, inl, inr, String, string_eq, Bool, true, false, List, some,
  Map, lookup, insert, lookup-insert, lookup-insert_self, lookup-insert_ne, if◌then◌else◌, ◌==◌,
  Bool-cases,
}
use text.Mathlib.TextEquality.{eq_iff}
use rungpu_agent.Digest.{Sha256}
use rungpu_agent.Types.{JobResult}
use rungpu_agent.Outbox.State.{
  PendingResult, OutboxFile, stored, Outbox, next_fault, is_foreign_key, write_result,
  persist_result_at_key,
}
use rungpu_agent.Outbox.Operations.{new_pending, put_pending}

module _ ⦃h : Sha256⦄ where
  -- What is pending under a key: a result with that key as its own, which stands in the file of
  -- the key if it is durable.
  pub record IsEntry (files : Map OutboxFile) (key : String) (p : PendingResult) : Type 0 where
    pub own_key : p.key ≡ key
    pub own_result : is_foreign_key key p.result ≡ false
    pub in_file : p.durable ≡ true → lookup key files ≡ some (stored p.result)

  abbrev pub AreEntries : Map OutboxFile → Map PendingResult → Type 0
  AreEntries files results =
      (key : String) (p : PendingResult) → lookup key results ≡ some p → IsEntry files key p

  abbrev pub IsSound : Outbox → Type 0
  IsSound box = AreEntries box.files box.results

  -- What a write of a result does: nothing, or it puts the result into the file of its own key.
  pub data Persisted (key : String) (r : JobResult) (box : Outbox) : Outbox × Bool → Type 0 where
    kept :
        (after : Outbox)
        → after.files ≡ box.files
        → after.results ≡ box.results
        → Persisted key r box (after, false)
    saved :
        (after : Outbox)
        → after.files ≡ insert key (stored r) box.files
        → after.results ≡ box.results
        → Persisted key r box (after, true)

  pub Persisted-persist_result_at_key :
      (key : String) (r : JobResult) (box : Outbox)
      → Persisted key r box (persist_result_at_key key r box)
  unfolding persist_result_at_key
  Persisted-persist_result_at_key key r box = elim (Bool-cases (is_foreign_key key r)) [
    | inl e ↦ rw (e) (kept box refl refl)
    | inr e ↦ rw (e) (write_persisted (next_fault box.faults))
  ]
    where
      write_persisted : (f : Bool × List Bool) → Persisted key r box (write_result f key r box)
      write_persisted (true, faults) = saved _ refl refl
      write_persisted (false, faults) = kept _ refl refl

  -- An entry under another key does not notice a write.
  IsEntry-other :
      (files : Map OutboxFile) (k key : String) (p : PendingResult) (f : OutboxFile)
      → k ≢ key
      → IsEntry files key p
      → IsEntry (insert k f files) key p
  IsEntry-other files k key p f differs e = record {
    own_key = e.own_key;
    own_result = e.own_result;
    in_file = λ d. lookup-insert_ne k key f files differs ∙ e.in_file d;
  }

  IsEntry-move :
      (files : Map OutboxFile) {k key : String} {p q : PendingResult}
      → k ≡ key
      → p ≡ q
      → IsEntry files k p
      → IsEntry files key q
  IsEntry-move files {k} {key} {p} {q} same e entry =
      subst (λ x. IsEntry files key x) e (subst (λ x. IsEntry files x p) same entry)

  pub some_value : (p q : PendingResult) → some p ≡ some q → p ≡ q
  some_value p q e = cc e

  -- The entry of a new result, and the others.
  pub AreEntries-insert :
      (files : Map OutboxFile) (results : Map PendingResult) (k : String) (p : PendingResult)
      → IsEntry files k p
      → ((key : String) (q : PendingResult)
          → k ≢ key
          → lookup key results ≡ some q
          → IsEntry files key q)
      → AreEntries files (insert k p results)
  AreEntries-insert files results k p new old key q e = elim (Bool-cases (k == key)) [
    | inl same ↦
        let found =
          sym (
            lookup-insert k key p results ∙ ap (λ b. if b then some p else lookup key results) same)
          ∙ e in
        IsEntry-move files ((eq_iff k key).0 same) (some_value p q found) new
    | inr other ↦
        let differs : k ≢ key = λ same. absurd (cc ((eq_iff k key).1 same, other)) in
        old key q differs (sym (lookup-insert_ne k key p results differs) ∙ e)
  ]

  pub AreEntries-move :
      {files files' : Map OutboxFile} {results results' : Map PendingResult}
      → files ≡ files'
      → results ≡ results'
      → AreEntries files' results'
      → AreEntries files results
  AreEntries-move {files} {files'} {results} {results'} e f sound =
      subst (λ x. AreEntries x results) (sym e) (subst (λ x. AreEntries files' x) (sym f) sound)

  -- A result under its key, with or without its file, is an entry among the others.
  pub AreEntries-kept :
      (files : Map OutboxFile) (results : Map PendingResult) (p : PendingResult)
      → is_foreign_key p.key p.result ≡ false
      → p.durable ≡ false
      → AreEntries files results
      → AreEntries files (insert p.key p results)
  AreEntries-kept files results p own d sound =
      AreEntries-insert files results p.key p
        (record { own_key = refl; own_result = own; in_file = λ e. absurd (cc (d, e)) })
        (λ key q differs e. sound key q e)

  pub AreEntries-saved :
      (files : Map OutboxFile) (results : Map PendingResult) (p : PendingResult)
      → is_foreign_key p.key p.result ≡ false
      → AreEntries files results
      → AreEntries (insert p.key (stored p.result) files) (insert p.key p results)
  AreEntries-saved files results p own sound =
      AreEntries-insert (insert p.key (stored p.result) files) results p.key p
        (record {
          own_key = refl;
          own_result = own;
          in_file = λ d. lookup-insert_self p.key (stored p.result) files;
        })
        (λ key q differs e.
          IsEntry-other files p.key key q (stored p.result) differs (sound key q e))

  pub IsSound-put_pending :
      (key : String) (r : JobResult) (box : Outbox) (w : Outbox × Bool)
      → Persisted key r box w
      → is_foreign_key key r ≡ false
      → IsSound box
      → IsSound (put_pending key r w)
  unfolding put_pending
  IsSound-put_pending key r box (_, false) (kept after e f) own sound =
      AreEntries-move e (ap (insert key (new_pending key r false after.next_serial)) f)
        (AreEntries-kept box.files box.results _ own refl sound)
  IsSound-put_pending key r box (_, true) (saved after e f) own sound =
      AreEntries-move e (ap (insert key (new_pending key r true after.next_serial)) f) (
        AreEntries-saved box.files box.results (new_pending key r true after.next_serial) own sound)
