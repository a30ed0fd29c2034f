-- ===== src/Outbox/Reload.antt =====
-- internal/pool/result_outbox.go: loadPendingResults finds every result that was durable.
use rungpu_agent.Base.{
  ◌≡◌, refl, sym, ap, subst, ◌∙◌, ◌⊎◌, inl, inr, String, string_eq, true, false, Option, none, some,
  Map, lookup, insert, lookup-insert, if◌then◌else◌, ◌==◌, Bool-cases, arith,
}
use text.Mathlib.TextEquality.{eq_iff}
use rungpu_agent.Digest.{Sha256}
use rungpu_agent.Types.{JobResult}
use rungpu_agent.Outbox.State.{
  PendingResult, OutboxFile, stored, unreadable, Outbox, attempt_result_key, is_foreign_key,
}
use rungpu_agent.Outbox.Operations.{
  new_pending, put_pending, is_present, key_in_file, load_at, load_content,
}
use rungpu_agent.Outbox.Soundness.{AreEntries, AreEntries-insert, some_value}

module _ ⦃h : Sha256⦄ where
  key_in_file-own :
      (name : String) (r : JobResult)
      → (key_in_file name r ≡ none)
        ⊎ ((key_in_file name r ≡ some name) × (is_foreign_key name r ≡ false))
  unfolding key_in_file is_foreign_key
  key_in_file-own name r =
      ground
        (arith, eq_iff name r.job_id, eq_iff name (attempt_result_key r.job_id r.dispatch_token))

  pub own-key_in_file :
      (name : String) (r : JobResult)
      → is_foreign_key name r ≡ false
      → key_in_file name r ≡ some name
  unfolding key_in_file is_foreign_key
  own-key_in_file name r own =
      ground (
        arith,
        own,
        eq_iff name r.job_id,
        eq_iff name (attempt_result_key r.job_id r.dispatch_token),
      )

  -- What loading one file does.
  pub data Loads (name : String) (box : Outbox) : Outbox → Type 0 where
    skipped : Loads name box box
    added :
        (r : JobResult)
        → lookup name box.files ≡ some (stored r)
        → is_foreign_key name r ≡ false
        → lookup name box.results ≡ none
        → Loads name box (put_pending name r (box, true))

  Loads-load_at :
      (name : String) (r : JobResult) (box : Outbox)
      → lookup name box.files ≡ some (stored r)
      → Loads name box (load_at (key_in_file name r) r box)
  Loads-load_at name r box found = elim (key_in_file-own name r) [
    | inl e ↦ rw (e) skipped
    | inr (e, own) ↦ rw (e) (present_cases (lookup name box.results) refl own)
  ]
    where
      present_cases :
          (o : Option PendingResult)
          → lookup name box.results ≡ o
          → is_foreign_key name r ≡ false
          → Loads name box (if is_present o then box else put_pending name r (box, true))
      present_cases none e own = added r found own e
      present_cases (some p) e own = skipped

  pub Loads-load_content :
      (name : String) (box : Outbox)
      → Loads name box (load_content name (lookup name box.files) box)
  Loads-load_content name box = file_cases (lookup name box.files) refl
    where
      file_cases :
          (o : Option OutboxFile)
          → lookup name box.files ≡ o
          → Loads name box (load_content name o box)
      file_cases none e = skipped
      file_cases (some unreadable) e = skipped
      file_cases (some (stored r)) e = Loads-load_at name r box e

  -- Of a sound outbox, all of whose results are in their files.
  pub record IsLoaded (files : Map OutboxFile) (box : Outbox) : Type 0 where
    pub same_files : box.files ≡ files
    pub entries : AreEntries files box.results
    pub all_durable :
        (key : String) (p : PendingResult) → lookup key box.results ≡ some p → p.durable ≡ true

  lookup-new :
      (k key : String) (p q : PendingResult) (results : Map PendingResult)
      → lookup key (insert k p results) ≡ some q
      → (p ≡ q) ⊎ (lookup key results ≡ some q)
  lookup-new k key p q results e = elim (Bool-cases (k == key)) [
    | inl same ↦ inl (some_value p q (ground (arith, lookup-insert k key p results, same, e)))
    | inr other ↦ inr (ground (arith, lookup-insert k key p results, other, e))
  ]

  pub IsLoaded-Loads :
      (files : Map OutboxFile) (name : String) (box after : Outbox)
      → Loads name box after
      → IsLoaded files box
      → IsLoaded files after
  unfolding put_pending
  IsLoaded-Loads files name box _ skipped l = l
  IsLoaded-Loads files name box _ (added r found own absent) l =
      let p = new_pending name r true box.next_serial in
      let stays = sym (ap (lookup name) l.same_files) ∙ found in
      record {
        same_files = l.same_files;
        entries =
            AreEntries-insert files box.results name p
              (record { own_key = refl; own_result = own; in_file = λ d. stays })
              (λ key q differs e. l.entries key q e);
        all_durable = λ key q e.
            durable_cases p q (lookup-new name key p q box.results e) refl (l.all_durable key q);
      }
    where
      durable_cases :
          {A : Type 0} (p q : PendingResult)
          → (p ≡ q) ⊎ A
          → p.durable ≡ true
          → (A → q.durable ≡ true)
          → q.durable ≡ true
      durable_cases p q (inl e) d f = subst (λ x. x.durable ≡ true) e d
      durable_cases p q (inr a) d f = f a
