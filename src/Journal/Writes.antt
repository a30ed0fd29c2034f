-- ===== src/Journal/Writes.antt =====
-- What store (internal/job/journal.go) does to the files and to memory, over every outcome of its
-- two writes.
use rungpu_agent.Base.{
  String, List, [], ◌∷◌, Option, none, some, insert, contains, string_eq, ◌≡◌, refl, ◌⊎◌, inl, inr,
  Bool-cases, true, false,
}
use rungpu_agent.Digest.{Sha256}
use rungpu_agent.Journal.Records.{
  AttemptRecord, JournalError, fenced, write_failed, attempt_key, validate,
}
use rungpu_agent.Journal.Store.{
  AttemptJournal, Disk, intact, WriteOutcome, written, unwritten, unsettled, catalog_of, store,
  persist, settle, atomic_write, perform, write_record, add_to_catalog, on_disk, put_catalog,
  put_record, save_catalog,
}

module _ ⦃h : Sha256⦄ where
  -- The record's file is new, and the catalog's is the old one or lists the record.
  abbrev RecordWritten : AttemptJournal → AttemptRecord → Disk → Type 0
  RecordWritten j r d =
      let key : String = attempt_key r.job_id r.dispatch_token in
      (validate j.identity r ≡ none)
      × (d.record_files ≡ insert key (intact r) j.disk.record_files)
      × ((d.catalog_file ≡ j.disk.catalog_file)
          ⊎ ((contains key j.catalog ≡ false)
              × (d.catalog_file ≡ some (intact (catalog_of j.identity (key ∷ j.catalog))))))

  -- The disk after a store that failed.
  pub record Touched (j : AttemptJournal) (r : AttemptRecord) (d : Disk) : Type 0 where
    pub owner_kept : d.registered_owner ≡ j.disk.registered_owner
    pub identity_kept : d.identity_file ≡ j.disk.identity_file
    pub files :
        ((d.record_files ≡ j.disk.record_files) × (d.catalog_file ≡ j.disk.catalog_file))
        ⊎ RecordWritten j r d

  -- The disk and the catalog in memory after a store that succeeded.
  pub record Written (j : AttemptJournal) (r : AttemptRecord) (c : List String) (d : Disk)
      : Type 0 where
    pub owner_kept : d.registered_owner ≡ j.disk.registered_owner
    pub identity_kept : d.identity_file ≡ j.disk.identity_file
    pub valid : validate j.identity r ≡ none
    pub files :
        d.record_files
        ≡ insert (attempt_key r.job_id r.dispatch_token) (intact r) j.disk.record_files
    pub catalogued :
        ((contains (attempt_key r.job_id r.dispatch_token) j.catalog ≡ true)
          × (c ≡ j.catalog)
          × (d.catalog_file ≡ j.disk.catalog_file))
        ⊎ ((contains (attempt_key r.job_id r.dispatch_token) j.catalog ≡ false)
            × (c ≡ attempt_key r.job_id r.dispatch_token ∷ j.catalog)
            × (d.catalog_file
                ≡ some (
                    intact
                      (catalog_of j.identity (attempt_key r.job_id r.dispatch_token ∷ j.catalog)))))

  pub data Storing (r : AttemptRecord) (j : AttemptJournal)
      (p : AttemptJournal × Option JournalError) : Type 0 where
    stays : (e : JournalError) → j.fault ≡ some e → p ≡ (j, some e) → Storing r j p
    fails :
        (e : JournalError) (c : List String) (d : Disk)
        → j.fault ≡ none
        → Touched j r d
        → p ≡ (record j { fault = some (fenced e); catalog = c; disk = d }, some (fenced e))
        → Storing r j p
    succeeds :
        (c : List String) (d : Disk)
        → j.fault ≡ none
        → Written j r c d
        → p ≡ (
          record j {
            records = insert (attempt_key r.job_id r.dispatch_token) r j.records;
            catalog = c;
            disk = d;
          },
          none,
        )
        → Storing r j p

  module _ (r : AttemptRecord) (j : AttemptJournal) (f : j.fault ≡ none)
      (v : validate j.identity r ≡ none) where
    abbrev key : String
    key = attempt_key r.job_id r.dispatch_token

    abbrev with_file : List WriteOutcome → Disk
    with_file os = record j.disk {
      record_files = insert key (intact r) j.disk.record_files;
      outcomes = os;
    }

    abbrev with_catalog : List WriteOutcome → Disk
    with_catalog os = record (with_file os) {
      catalog_file = some (intact (catalog_of j.identity (key ∷ j.catalog)));
    }

    -- The record's file is written, and the catalog is next.
    half : (os : List WriteOutcome) → Touched j r (with_file os)
    half os = record { owner_kept = refl; identity_kept = refl; files = inr (v, refl, inl refl) }

    new_key :
        contains key j.catalog ≡ false
        → (os : List WriteOutcome)
        → Storing r j (
            settle key r (
              on_disk
                (record j { disk = with_file os; catalog = key ∷ j.catalog })
                (perform os
                  (put_catalog (catalog_of j.identity (key ∷ j.catalog)))
                  (with_file os))))
    unfolding perform settle
    new_key new os = go os
      where
        full : (rest : List WriteOutcome) → Touched j r (with_catalog rest)
        full rest = record {
          owner_kept = refl;
          identity_kept = refl;
          files = inr (v, refl, inr (new, refl));
        }

        done : (rest : List WriteOutcome) → Written j r (key ∷ j.catalog) (with_catalog rest)
        done rest = record {
          owner_kept = refl;
          identity_kept = refl;
          valid = v;
          files = refl;
          catalogued = inr (new, refl, refl);
        }

        go :
            (os : List WriteOutcome)
            → Storing r j (
                settle key r (
                  on_disk
                    (record j { disk = with_file os; catalog = key ∷ j.catalog })
                    (perform os
                      (put_catalog (catalog_of j.identity (key ∷ j.catalog)))
                      (with_file os))))
        go [] = succeeds (key ∷ j.catalog) (with_catalog []) f (done []) refl
        go (written ∷ rest) = succeeds (key ∷ j.catalog) (with_catalog rest) f (done rest) refl
        go (unwritten ∷ rest) =
            fails write_failed (key ∷ j.catalog) (with_file rest) f (half rest) refl
        go (unsettled ∷ rest) =
            fails write_failed (key ∷ j.catalog) (with_catalog rest) f (full rest) refl

    catalog_step :
        (os : List WriteOutcome)
        → Storing r j (settle key r (add_to_catalog key (record j { disk = with_file os }, none)))
    unfolding add_to_catalog settle atomic_write save_catalog
    catalog_step os = elim (Bool-cases (contains key j.catalog)) [
      | inl old ↦
          rw (old, add_to_catalog)
            (succeeds j.catalog (with_file os) f
              (record {
                owner_kept = refl;
                identity_kept = refl;
                valid = v;
                files = refl;
                catalogued = inl (old, refl, refl);
              })
              refl)
      | inr new ↦ rw (new, add_to_catalog) (new_key new os)
    ]

    file_step :
        (os : List WriteOutcome)
        → Storing r j
            (settle key r (add_to_catalog key (on_disk j (perform os (put_record key r) j.disk))))
    unfolding perform add_to_catalog settle
    file_step [] = catalog_step j.disk.outcomes
    file_step (written ∷ rest) = catalog_step rest
    file_step (unwritten ∷ rest) =
        fails write_failed j.catalog (record j.disk { outcomes = rest }) f
          (record { owner_kept = refl; identity_kept = refl; files = inl (refl, refl) }) refl
    file_step (unsettled ∷ rest) = fails write_failed j.catalog (with_file rest) f (half rest) refl

  persist_at :
      (r : AttemptRecord) (j : AttemptJournal) (o : Option JournalError)
      → j.fault ≡ none
      → validate j.identity r ≡ o
      → Storing r j (
          settle (attempt_key r.job_id r.dispatch_token) r (elim o [
            | some e ↦ (j, some e)
            | none ↦
                add_to_catalog
                  (attempt_key r.job_id r.dispatch_token)
                  (write_record (attempt_key r.job_id r.dispatch_token) r j)
          ]))
  unfolding settle write_record atomic_write
  persist_at r j none f v = file_step r j f v j.disk.outcomes
  persist_at r j (some e) f v =
      fails e j.catalog j.disk f
        (record { owner_kept = refl; identity_kept = refl; files = inl (refl, refl) }) refl

  store_at :
      (r : AttemptRecord) (j : AttemptJournal) (o : Option JournalError)
      → j.fault ≡ o
      → Storing r j (elim o [
        | some e ↦ (j, some e)
        | none ↦ settle (attempt_key r.job_id r.dispatch_token) r (persist r j)
      ])
  unfolding persist
  store_at r j (some e) f = stays e f refl
  store_at r j none f = persist_at r j (validate j.identity r) f refl

  -- Every store is one of the three.
  pub store-Storing : (r : AttemptRecord) (j : AttemptJournal) → Storing r j (store r j)
  unfolding store
  store-Storing r j = store_at r j j.fault refl
