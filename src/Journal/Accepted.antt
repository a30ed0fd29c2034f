-- ===== src/Journal/Accepted.antt =====
-- What openAttemptJournal (internal/job/journal.go) accepts, whatever the directory holds.
use text.Mathlib.TextEquality.{eq_iff}
use rungpu_agent.Base.{
  String, true, List, [], none, some, Map, lookup, keys, length, contains, string_eq, nat_eq, ◌==◌,
  ◌≡◌, refl, sym, ap, ◌∙◌, subst, arith, ◌≤◌, Bool-cases, inl, inr,
}
use rungpu_agent.Digest.{Sha256}
use rungpu_agent.Journal.Records.{
  AttemptRecord, JournalIdentity, validate, is_some, uncatalogued_execution, identity_mismatch,
  max_journal_attempts,
}
use rungpu_agent.Journal.Store.{AttemptJournal, Disk, put_catalog, put_identity, catalog_of}
use rungpu_agent.Journal.Operations.{Outcome, ok}
use rungpu_agent.Journal.Load.{
  ◌>>=◌, ◌>>◌, require, write, done, read_identity, identity_matches, initialize, read_catalog,
  load_keys, load_files, as_read, catalog_complete, add_uncatalogued, save_if_changed, register,
  assemble, rebuild, open_journal,
}
use rungpu_agent.Journal.Lifecycle.{IsKeyed}
use rungpu_agent.Journal.Readmission.{contains-keys}
use rungpu_agent.Journal.Reading.{
  Outcome-cases, bind-ok, require-ok, all-true, contains-add_uncatalogued, AreAccepted,
  load_files-Accepted,
}

module _ ⦃h : Sha256⦄ where
  -- An accepted journal: it is of this GPU and without a fault, its catalog lists exactly its
  -- records, and each of them is valid, under its own key, and marked as recovered.
  pub record IsAccepted (gpu_id : String) (j : AttemptJournal) : Type 0 where
    pub same_gpu : j.identity.gpu_id ≡ gpu_id
    pub usable : j.fault ≡ none
    pub keyed : IsKeyed j.records
    pub valid :
        (k : String) (r : AttemptRecord)
        → lookup k j.records ≡ some r
        → validate j.identity r ≡ none
    pub few : length j.records ≤ max_journal_attempts
    pub remembered : j.recovered ≡ keys j.records
    pub listed : (k : String) → contains k j.catalog ≡ is_some (lookup k j.records)

  IsAccepted-ok :
      (gpu_id : String) (x j : AttemptJournal)
      → ok x ≡ ok j
      → IsAccepted gpu_id x
      → IsAccepted gpu_id j
  IsAccepted-ok gpu_id x j e a = subst (IsAccepted gpu_id) (cc e) a

  assembled :
      (i : JournalIdentity) (records : Map AttemptRecord) (catalog full : List String) (d : Disk)
      (j : AttemptJournal)
      → load_files i (as_read d.fits d.record_files) [] ≡ ok records
      → catalog_complete records catalog ≡ true
      → add_uncatalogued records catalog ≡ ok full
      → (d' : Disk) → (assemble i records full d').1 ≡ ok j
      → IsAccepted i.gpu_id j
  unfolding catalog_complete lookup
  assembled i records catalog full d j loaded complete added d' w =
      IsAccepted-ok i.gpu_id _ j w (record {
        same_gpu = refl;
        usable = refl;
        keyed = a.keyed;
        valid = a.valid;
        few = a.few;
        remembered = refl;
        listed = listed;
      })
    where
      empty : AreAccepted i []
      empty = record {
        keyed = λ k r found. absurd (cc found);
        valid = λ k r found. absurd (cc found);
        few = omega arith;
      }

      a : AreAccepted i records
      a = load_files-Accepted i (as_read d.fits d.record_files) [] records empty loaded

      listed : (k : String) → contains k full ≡ is_some (lookup k records)
      listed k = elim (Bool-cases (contains k catalog)) [
        | inl old ↦
            let found = all-true (λ x. is_some (lookup x records)) catalog k complete old in
            ground (arith, contains-add_uncatalogued k records catalog full added, found)
        | inr new ↦
            ground (
              arith,
              contains-add_uncatalogued k records catalog full added,
              contains-keys k records,
            )
      ]

  rebuild-Accepted :
      (i : JournalIdentity) (d : Disk) (j : AttemptJournal)
      → (rebuild i d).1 ≡ ok j
      → IsAccepted i.gpu_id j
  unfolding rebuild
  rebuild-Accepted i d j w = elim (Outcome-cases (read_catalog i d.catalog_file)) [
    | inl (_, f) ↦ absurd (cc (rw (f, rebuild) at w))
    | inr (names, p) ↦ elim (Outcome-cases (load_keys [] names)) [
      | inl (_, f) ↦ absurd (cc (rw (p, f, rebuild) at w))
      | inr (catalog, q) ↦ elim (Outcome-cases (load_files i (as_read d.fits d.record_files) [])) [
        | inl (_, f) ↦ absurd (cc (rw (p, q, f, rebuild) at w))
        | inr (records, loaded) ↦ loaded_step names catalog records p q loaded
      ]
    ]
  ]
    where
      loaded_step :
          (names catalog : List String) (records : Map AttemptRecord)
          → read_catalog i d.catalog_file ≡ ok names
          → load_keys [] names ≡ ok catalog
          → load_files i (as_read d.fits d.record_files) [] ≡ ok records
          → IsAccepted i.gpu_id j
      loaded_step names catalog records p q loaded =
          elim (Bool-cases (catalog_complete records catalog)) [
            | inr f ↦ absurd (cc (rw (p, q, loaded, f, rebuild) at w))
            | inl complete ↦ elim (Outcome-cases (add_uncatalogued records catalog)) [
              | inl (_, f) ↦ absurd (cc (rw (p, q, loaded, complete, f, rebuild) at w))
              | inr (full, added) ↦
                  let (_, d1, _, w) =
                    bind-ok (save_if_changed i catalog full)
                      (λ _. register i records d.registered_owner >> assemble i records full) d j
                      (rw (p, q, loaded, complete, added, rebuild) at w) in
                  let (_, d2, _, w) =
                    bind-ok (register i records d.registered_owner) (λ _. assemble i records full)
                      d1 j w in
                  assembled i records catalog full d j loaded complete added d2 w
            ]
          ]

  initialize-gpu_id :
      (i i' : JournalIdentity) (d : Disk) → (initialize i d).1 ≡ ok i' → i'.gpu_id ≡ i.gpu_id
  unfolding initialize catalog_of
  initialize-gpu_id i i' d w = elim (Bool-cases i.initialized) [
    | inl old ↦ ap (λ o. o.gpu_id) (sym (ok_inj (rw (old, initialize) at w)))
    | inr new ↦
        let (_, d1, _, w) =
          bind-ok (λ d. require (length d.record_files == 0) uncatalogued_execution d)
            (λ _.
              write (put_catalog (catalog_of i []))
              >> (write (put_identity initialized) >> done initialized))
            d i' (rw (new, initialize) at w) in
        let (_, d2, _, w) =
          bind-ok (write (put_catalog (catalog_of i [])))
            (λ _. write (put_identity initialized) >> done initialized) d1 i' w in
        let (_, d3, _, w) =
          bind-ok (write (put_identity initialized)) (λ _. done initialized) d2 i' w in
        ap (λ o. o.gpu_id) (sym (ok_inj w))
  ]
    where
      initialized : JournalIdentity
      initialized = record i { initialized = true }

      ok_inj : {a b : JournalIdentity} → ◌≡◌ {A = Outcome JournalIdentity} (ok a) (ok b) → a ≡ b
      ok_inj e = cc e

  -- When the opening succeeds, whatever the directory holds, the journal is accepted: it is of this
  -- GPU and without a fault, its catalog lists exactly its records, and each of its records is
  -- valid, under its own key and marked as recovered.
  pub open_journal-IsAccepted :
      (gpu_id random_owner : String) (d : Disk) (j : AttemptJournal)
      → (open_journal gpu_id random_owner d).1 ≡ ok j
      → IsAccepted gpu_id j
  unfolding open_journal
  open_journal-IsAccepted gpu_id random_owner d j w =
      let (i, d1, _, w) =
        bind-ok (read_identity gpu_id random_owner)
          (λ i.
            require (identity_matches gpu_id d.registered_owner i) identity_mismatch
            >> (initialize i >>= rebuild))
          d j w in
      let (_, d2, matches, w) =
        bind-ok (require (identity_matches gpu_id d.registered_owner i) identity_mismatch)
          (λ _. initialize i >>= rebuild) d1 j w in
      let (i', d3, same, w) = bind-ok (initialize i) rebuild d2 j w in
      let ours = require-ok _ identity_mismatch d1 _ matches in
      subst (λ g. IsAccepted g j)
        (initialize-gpu_id i i' d2 same ∙ ground (arith, eq_iff i.gpu_id gpu_id, ours))
        (rebuild-Accepted i' d3 j w)
