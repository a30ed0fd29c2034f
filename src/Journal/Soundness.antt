-- ===== src/Journal/Soundness.antt =====
-- store (internal/job/journal.go) keeps the journal sound over every outcome of its writes.
use text.Mathlib.TextEquality.{eq_iff}
use rungpu_agent.Base.{
  String, true, false, ◌||◌, List, ◌∷◌, none, some, Map, lookup, insert, contains, length, ◌==◌,
  string_eq, ◌≡◌, sym, ap, ◌∙◌, subst, arith, ◌≤◌, Option-cases, inl, inr, ◌⊎◌, lookup-insert,
  length-insert, length-insert_present, length-insert_absent,
}
use rungpu_agent.Digest.{Sha256, decodes_to}
use rungpu_agent.Journal.Records.{
  AttemptRecord, JournalError, attempt_key, validate, is_some, max_journal_attempts,
}
use rungpu_agent.Journal.Store.{
  AttemptJournal, Disk, Stored, intact, catalog_of, sort, insert_sorted, store,
}
use rungpu_agent.Journal.Writes.{store-Storing, stays, fails, succeeds, Touched, Written}
use rungpu_agent.Journal.Load.{may_be_uncatalogued}
use rungpu_agent.Journal.Lifecycle.{key_of}
use rungpu_agent.Journal.Entries.{
  contains-insert_sorted, length-insert_sorted, stored, insert-stored, lookup-stored, length-stored,
}
use rungpu_agent.Journal.Durable.{
  catalog_file, AreInOrder, IsSynced, IsSound, IsStorable, AreInOrder-insert, AreInOrder-list,
}

module _ ⦃h : Sha256⦄ where
  key_decodes : (r : AttemptRecord) → decodes_to 32 (key_of r) ≡ true
  unfolding attempt_key
  key_decodes r = h.hex_sum_decodes _

  -- What a sound journal without a fault says of a storable record.
  module _ (r : AttemptRecord) (j : AttemptJournal) (sound : IsSound j) (f : j.fault ≡ none)
      (storable : IsStorable j r) where
    sync : IsSynced j sound.listed
    sync = sound.synced f

    -- The files with the record in them.
    abbrev new_files : Map (Stored AttemptRecord)
    new_files = insert (key_of r) (intact r) j.disk.record_files

    files_lookup :
        (k : String) → is_some (lookup k j.disk.record_files) ≡ is_some (lookup k j.records)
    files_lookup k = ap (λ x. is_some (lookup k x)) sync.same_records ∙ lookup-stored k j.records

    files_length : length j.disk.record_files ≡ length j.records
    files_length = ap length sync.same_records ∙ length-stored j.records

    new_files_few : length new_files ≤ max_journal_attempts
    new_files_few = elim storable [
      | inl known ↦ omega (
        arith,
        length-insert_present (key_of r) (intact r) j.disk.record_files
            (λ e. cc (files_lookup (key_of r), known, ap is_some e)),
        sound.durable.in_order.few,
      )
      | inr (_, room) ↦
          omega (arith, length-insert (key_of r) (intact r) j.disk.record_files, files_length)
    ]

    covered : (contains (key_of r) sound.listed ≡ true) ⊎ (may_be_uncatalogued r ≡ true)
    covered = elim storable [
      | inl known ↦ inl (sync.same_keys (key_of r) ∙ sync.catalogued (key_of r) ∙ known)
      | inr (u, _) ↦ inr u
    ]

    with_record :
        AreInOrder j.identity sound.listed j.disk.record_files
        → validate j.identity r ≡ none
        → AreInOrder j.identity sound.listed new_files
    with_record o v = AreInOrder-insert j.identity sound.listed _ r o v covered new_files_few

    abbrev new_listed : List String
    new_listed = insert_sorted (key_of r) sound.listed

    with_key :
        validate j.identity r ≡ none
        → contains (key_of r) j.catalog ≡ false
        → AreInOrder j.identity new_listed new_files
    with_key v new =
        AreInOrder-list j.identity sound.listed new_files (key_of r)
          (with_record sound.durable.in_order v) (sync.same_keys (key_of r) ∙ new) (key_decodes r)
          (ground (
            arith,
            lookup-insert (key_of r) (key_of r) (intact r) j.disk.record_files,
            eq_iff (key_of r) (key_of r),
          ))
          (elim storable [
            | inl known ↦ cc (sync.catalogued (key_of r), known, new)
            | inr (_, room) ↦ omega (arith, sync.as_many)
          ])

    new_catalog_file :
        some (intact (catalog_of j.identity (key_of r ∷ j.catalog)))
        ≡ catalog_file j.identity new_listed
    unfolding catalog_of sort
    new_catalog_file =
        ap (λ x. catalog_file j.identity (insert_sorted (key_of r) x)) (sym sync.same_catalog)

    -- No file is lost when one is written.
    kept :
        (k : String)
        → is_some (lookup k j.disk.record_files) ≡ true
        → is_some (lookup k new_files) ≡ true
    kept k p = ground (arith, lookup-insert (key_of r) k (intact r) j.disk.record_files)

    fails-IsSound :
        (e : JournalError) (c : List String) (d : Disk)
        → Touched j r d
        → IsSound (record j { fault = some e; catalog = c; disk = d })
    fails-IsSound e c d t = elim t.files [
      | inl (same_files, same_catalog) ↦
          build sound.listed (same_catalog ∙ sound.durable.catalog_written)
            (subst (AreInOrder j.identity sound.listed) (sym same_files) sound.durable.in_order)
            (λ k p. ap (λ x. is_some (lookup k x)) same_files ∙ p)
      | inr (v, files, catalog) ↦ elim catalog [
        | inl same_catalog ↦
            build sound.listed (same_catalog ∙ sound.durable.catalog_written)
              (subst (AreInOrder j.identity sound.listed) (sym files)
                (with_record sound.durable.in_order v))
              (λ k p. ap (λ x. is_some (lookup k x)) files ∙ kept k p)
        | inr (new, written) ↦
            build new_listed (written ∙ new_catalog_file)
              (subst (AreInOrder j.identity new_listed) (sym files) (with_key v new))
              (λ k p. ap (λ x. is_some (lookup k x)) files ∙ kept k p)
      ]
    ]
      where
        build :
            (listed : List String)
            → d.catalog_file ≡ catalog_file j.identity listed
            → AreInOrder j.identity listed d.record_files
            → ((k : String)
                → is_some (lookup k j.disk.record_files) ≡ true
                → is_some (lookup k d.record_files) ≡ true)
            → IsSound (record j { fault = some e; catalog = c; disk = d })
        build listed written order grows = record {
          opened = sound.opened;
          listed = listed;
          durable = record {
            registered = t.owner_kept ∙ sound.durable.registered;
            identity_written = t.identity_kept ∙ sound.durable.identity_written;
            catalog_written = written;
            in_order = order;
          };
          synced = λ no_fault. cc no_fault;
          remembered = λ k p. grows k (sound.remembered k p);
        }

    -- The records in memory with the new one.
    abbrev new_records : Map AttemptRecord
    new_records = insert (key_of r) r j.records

    files_follow :
        (files : Map (Stored AttemptRecord)) → files ≡ new_files → files ≡ stored new_records
    files_follow files e =
        e
        ∙ ap (insert (key_of r) (intact r)) sync.same_records
        ∙ insert-stored (key_of r) r j.records

    records_lookup :
        (k : String)
        → is_some (lookup k new_records) ≡ (key_of r == k || is_some (lookup k j.records))
    records_lookup k = ground (arith, lookup-insert (key_of r) k r j.records)

    new_same_catalog : new_listed ≡ sort (key_of r ∷ j.catalog)
    unfolding sort
    new_same_catalog = ap (insert_sorted (key_of r)) sync.same_catalog

    succeeds-IsSound :
        (c : List String) (d : Disk)
        → Written j r c d
        → IsSound (record j { records = new_records; catalog = c; disk = d })
    succeeds-IsSound c d w = elim w.catalogued [
      | inl (old, same, written) ↦
          build sound.listed (written ∙ sound.durable.catalog_written)
            (with_record sound.durable.in_order w.valid)
            (record {
              same_records = files_follow d.record_files w.files;
              same_catalog = sync.same_catalog ∙ ap sort (sym same);
              catalogued = λ k. ap (contains k) same ∙ old_catalogued old k;
              as_many =
                  sync.as_many
                  ∙ sym (
                      length-insert_present (key_of r) r j.records
                        (λ e. cc (sync.catalogued (key_of r), old, ap is_some e)));
              same_keys = λ k. sync.same_keys k ∙ ap (contains k) (sym same);
            })
      | inr (new, more, written) ↦
          build new_listed (written ∙ new_catalog_file) (with_key w.valid new) (record {
            same_records = files_follow d.record_files w.files;
            same_catalog = new_same_catalog ∙ ap sort (sym more);
            catalogued = λ k. ap (contains k) more ∙ new_catalogued k;
            as_many = new_as_many new;
            same_keys = λ k. new_same_keys k ∙ ap (contains k) (sym more);
          })
    ]
      where
        old_catalogued :
            contains (key_of r) j.catalog ≡ true
            → (k : String) → contains k j.catalog ≡ is_some (lookup k new_records)
        old_catalogued old k =
            ground (arith, records_lookup k, sync.catalogued k, eq_iff (key_of r) k)

        new_catalogued :
            (k : String) → contains k (key_of r ∷ j.catalog) ≡ is_some (lookup k new_records)
        new_catalogued k = ground (arith, records_lookup k, sync.catalogued k)

        new_same_keys : (k : String) → contains k new_listed ≡ contains k (key_of r ∷ j.catalog)
        new_same_keys k =
            ground (arith, contains-insert_sorted (key_of r) k sound.listed, sync.same_keys k)

        new_as_many : contains (key_of r) j.catalog ≡ false → length new_listed ≡ length new_records
        new_as_many new = omega (
          arith,
          length-insert_sorted (key_of r) sound.listed,
          sync.as_many,
          length-insert_absent (key_of r) r j.records
              (elim (Option-cases (lookup (key_of r) j.records)) [
                | inl e ↦ e
                | inr (x, e) ↦ cc (sync.catalogued (key_of r), new, ap is_some e)
              ]),
        )

        build :
            (listed : List String)
            → d.catalog_file ≡ catalog_file j.identity listed
            → AreInOrder j.identity listed new_files
            → IsSynced (record j { records = new_records; catalog = c; disk = d }) listed
            → IsSound (record j { records = new_records; catalog = c; disk = d })
        build listed written order same = record {
          opened = sound.opened;
          listed = listed;
          durable = record {
            registered = w.owner_kept ∙ sound.durable.registered;
            identity_written = w.identity_kept ∙ sound.durable.identity_written;
            catalog_written = written;
            in_order = subst (AreInOrder j.identity listed) (sym w.files) order;
          };
          synced = λ no_fault. same;
          remembered = λ k p.
              ap (λ x. is_some (lookup k x)) same.same_records ∙ lookup-stored k new_records ∙ p;
        }

  pub store-IsSound :
      (r : AttemptRecord) (j : AttemptJournal) → IsSound j → IsStorable j r → IsSound (store r j).0
  store-IsSound r j sound storable = elim (store-Storing r j) [
    | stays e f p ↦ subst IsSound (sym (ap (λ q. q.0) p)) sound
    | fails e c d f t p ↦
        subst IsSound (sym (ap (λ q. q.0) p)) (fails-IsSound r j sound f storable _ c d t)
    | succeeds c d f w p ↦
        subst IsSound (sym (ap (λ q. q.0) p)) (succeeds-IsSound r j sound f storable c d w)
  ]
