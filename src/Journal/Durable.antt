-- ===== src/Journal/Durable.antt =====
-- What holds of the journal's files at every moment, so that a crash finds them in order, and that
-- store (internal/job/journal.go) keeps it over every outcome of its writes.
use rungpu_agent.Base.{
  pos, String, true, false, List, Option, none, some, Map, lookup, insert, contains, length, All,
  All-map, string_eq, ◌≡◌, refl, arith, ◌≤◌, ◌<◌, ◌⊎◌, lookup-insert,
}
use rungpu_agent.Digest.{Sha256, decodes_to}
use rungpu_agent.Journal.Records.{
  AttemptRecord, JournalIdentity, validate, is_some, max_journal_attempts,
}
use rungpu_agent.Journal.Store.{
  AttemptJournal, Disk, Stored, intact, JournalCatalog, sort, insert_sorted,
}
use rungpu_agent.Journal.Load.{may_be_uncatalogued}
use rungpu_agent.Journal.Lifecycle.{key_of}
use rungpu_agent.Journal.Entries.{
  Distinct, DistinctKeys, contains-insert_sorted, length-insert_sorted, DistinctKeys-insert_sorted,
  All-insert_sorted, Distinct-insert, All-insert, stored,
}

abbrev pub catalog_file : JournalIdentity → List String → Option (Stored JournalCatalog)
catalog_file i listed =
    some (intact (record { version = pos 1; gpu_id = i.gpu_id; owner = i.owner; keys = listed }))

-- The identity of an opened journal.
pub record IsOpened (i : JournalIdentity) : Type 0 where
  pub version_one : i.version ≡ pos 1
  pub owner_decodes : decodes_to 32 i.owner ≡ true
  pub initialized : i.initialized ≡ true

module _ ⦃h : Sha256⦄ where
  -- A file holds a valid record of its own key, which the catalog lists or may lack.
  abbrev pub IsRecordFile : JournalIdentity → List String → String × Stored AttemptRecord → Type 0
  IsRecordFile i listed f =
      (r : AttemptRecord) × (f.1 ≡ intact r)
      × (validate i r ≡ none)
      × (key_of r ≡ f.0)
      × ((contains f.0 listed ≡ true) ⊎ (may_be_uncatalogued r ≡ true))

  -- The record files and the keys that the catalog file lists.
  pub record AreInOrder (i : JournalIdentity) (listed : List String)
      (files : Map (Stored AttemptRecord)) : Type 0 where
    pub good : All (IsRecordFile i listed) files
    pub distinct : Distinct files
    pub few : length files ≤ max_journal_attempts
    pub listed_distinct : DistinctKeys listed
    pub listed_decode : All (λ k. decodes_to 32 k ≡ true) listed
    pub listed_present : All (λ k. is_some (lookup k files) ≡ true) listed
    pub listed_few : length listed ≤ max_journal_attempts

  -- The disk alone.
  pub record IsDurable (i : JournalIdentity) (listed : List String) (d : Disk) : Type 0 where
    pub registered : d.registered_owner ≡ i.owner
    pub identity_written : d.identity_file ≡ some (intact i)
    pub catalog_written : d.catalog_file ≡ catalog_file i listed
    pub in_order : AreInOrder i listed d.record_files

  -- Without a fault the disk and the memory agree.
  pub record IsSynced (j : AttemptJournal) (listed : List String) : Type 0 where
    pub same_records : j.disk.record_files ≡ stored j.records
    pub same_catalog : listed ≡ sort j.catalog
    pub catalogued : (k : String) → contains k j.catalog ≡ is_some (lookup k j.records)
    pub as_many : length listed ≡ length j.records
    pub same_keys : (k : String) → contains k listed ≡ contains k j.catalog

  -- The journal's invariant.
  pub record IsSound (j : AttemptJournal) : Type 0 where
    pub opened : IsOpened j.identity
    pub listed : List String
    pub durable : IsDurable j.identity listed j.disk
    pub synced : j.fault ≡ none → IsSynced j listed
    pub remembered :
        (k : String)
        → is_some (lookup k j.records) ≡ true
        → is_some (lookup k j.disk.record_files) ≡ true

  -- A record may be stored if its attempt is known, or if nothing of it has run and there is room.
  abbrev pub IsStorable : AttemptJournal → AttemptRecord → Type 0
  IsStorable j r =
      (is_some (lookup (key_of r) j.records) ≡ true)
      ⊎ ((may_be_uncatalogued r ≡ true) × (length j.records < max_journal_attempts))

  -- One more record file, with the catalog as it was.
  pub AreInOrder-insert :
      (i : JournalIdentity) (listed : List String) (files : Map (Stored AttemptRecord))
      (r : AttemptRecord)
      → AreInOrder i listed files
      → validate i r ≡ none
      → ((contains (key_of r) listed ≡ true) ⊎ (may_be_uncatalogued r ≡ true))
      → length (insert (key_of r) (intact r) files) ≤ max_journal_attempts
      → AreInOrder i listed (insert (key_of r) (intact r) files)
  AreInOrder-insert i listed files r o v c few = record {
    good =
        All-insert (IsRecordFile i listed) (key_of r) (intact r) files (r, refl, v, refl, c) o.good;
    distinct = Distinct-insert (key_of r) (intact r) files o.distinct;
    few = few;
    listed_distinct = o.listed_distinct;
    listed_decode = o.listed_decode;
    listed_present =
        All-map (λ k p. ground (arith, lookup-insert (key_of r) k (intact r) files)) listed
          o.listed_present;
    listed_few = o.listed_few;
  }

  -- One more key in the catalog, of a file that is there.
  pub AreInOrder-list :
      (i : JournalIdentity) (listed : List String) (files : Map (Stored AttemptRecord)) (k : String)
      → AreInOrder i listed files
      → contains k listed ≡ false
      → decodes_to 32 k ≡ true
      → is_some (lookup k files) ≡ true
      → length listed < max_journal_attempts
      → AreInOrder i (insert_sorted k listed) files
  AreInOrder-list i listed files k o new hex present room = record {
    good =
        All-map
          (λ f (r, e, v, key, c).
            (r, e, v, key, ground (arith, contains-insert_sorted k f.0 listed, c)))
          files o.good;
    distinct = o.distinct;
    few = o.few;
    listed_distinct = DistinctKeys-insert_sorted k listed new o.listed_distinct;
    listed_decode = All-insert_sorted _ k listed hex o.listed_decode;
    listed_present = All-insert_sorted _ k listed present o.listed_present;
    listed_few = omega (arith, length-insert_sorted k listed);
  }
