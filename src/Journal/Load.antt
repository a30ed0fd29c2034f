-- ===== src/Journal/Load.antt =====
-- internal/job/journal.go, openAttemptJournal from the reading of identity.json (lines 217-325):
-- how a journal is rebuilt from the files of its directory. The directory and its locks are held
-- by then; the machine's root file enters as the owner that it registers for this GPU.
use rungpu_agent.Base.{
  pos, String, Bool, true, false, ◌&&◌, ◌||◌, not, List, [], ◌∷◌, Option, none, some, Map, lookup,
  insert, contains, all, length, ltb, leb, ◌==◌, int_eq, string_eq, if◌then◌else◌, keys, nat_eq,
}
use rungpu_agent.Digest.{Sha256, decodes_to}
use rungpu_agent.Journal.Records.{
  AttemptRecord, JournalIdentity, JournalError, identity_missing, identity_mismatch,
  catalog_missing, catalog_mismatch, invalid_catalog_key, damaged_record, misplaced_record,
  catalogued_record_missing, uncatalogued_execution, unregistered_records, max_journal_attempts,
  attempt_key, validate, is_some,
}
use rungpu_agent.Journal.Store.{
  AttemptJournal, Disk, Stored, intact, damaged, JournalCatalog, atomic_write, put_identity,
  put_catalog, catalog_of,
}
use rungpu_agent.Journal.Operations.{Outcome, ok, fail}

-- A step of the opening: it may write to the disk, and it may fail.
abbrev pub Opening : Type 0 → Type 0
Opening A = Disk → Disk × Outcome A

infixl 5 ◌>>=◌ ◌>>◌
abbrev pub ◌>>=◌ : {A B : Type 0} → Opening A → (A → Opening B) → Opening B
◌>>=◌ m f d = let (d', r) = m d in elim r [ ok a ↦ f a d' | fail e ↦ (d', fail e) ]

abbrev pub ◌>>◌ : {B : Type 0} → Opening (Unit {0}) → Opening B → Opening B
m >> k = m >>= λ _. k

abbrev pub done : {A : Type 0} → A → Opening A
done a d = (d, ok a)

abbrev pub require : Bool → JournalError → Opening (Unit {0})
require true e d = (d, ok tt)
require false e d = (d, fail e)

abbrev pub lift : {A : Type 0} → Outcome A → Opening A
lift r d = (d, r)

abbrev pub write : (Disk → Disk) → Opening (Unit {0})
write put d = let (d', e) = atomic_write put d in (d', elim e [ none ↦ ok tt | some x ↦ fail x ])

-- identity.json, or a new identity in a directory that holds no other file.
unfoldable pub read_identity : String → String → Opening JournalIdentity
read_identity gpu_id random_owner d = elim d.identity_file [
  | some (intact i) ↦ (d, ok i)
  | some damaged ↦ (d, fail damaged_record)
  | none ↦
      (do
        require (d.registered_owner == "") identity_missing
        require (not (is_some d.catalog_file) && length d.record_files == 0) identity_missing
        let i = new_identity
        write (put_identity i)
        done i)
        d
]
  where
    new_identity : JournalIdentity
    new_identity = record {
      version = pos 1;
      gpu_id = gpu_id;
      owner = random_owner;
      initialized = false;
    }

-- `identity.Version != 1 || … || expectedOwner != identity.Owner`, and the owner is hexadecimal.
abbrev pub identity_matches : String → String → JournalIdentity → Bool
identity_matches gpu_id registered i =
    i.version == pos 1
    && i.gpu_id == gpu_id
    && decodes_to 32 i.owner
    && (registered == "" || registered == i.owner)

-- The first opening writes an empty catalog, and then marks the identity as initialized.
unfoldable pub initialize : JournalIdentity → Opening JournalIdentity
initialize i = if i.initialized then done i else (do
  require_no_records
  write (put_catalog (catalog_of i []))
  write (put_identity (record i { initialized = true }))
  done (record i { initialized = true }))
  where
    require_no_records : Opening (Unit {0})
    require_no_records d = require (length d.record_files == 0) uncatalogued_execution d

abbrev pub catalog_matches : JournalIdentity → JournalCatalog → Bool
catalog_matches i c =
    c.version == pos 1
    && c.gpu_id == i.gpu_id
    && c.owner == i.owner
    && leb (length c.keys) max_journal_attempts

unfoldable pub read_catalog :
    JournalIdentity → Option (Stored JournalCatalog) → Outcome (List String)
read_catalog i (some (intact c)) = if catalog_matches i c then ok c.keys else fail catalog_mismatch
read_catalog i _ = fail catalog_missing

-- The loop over catalog.Keys, with the keys met so far.
unfoldable pub load_keys : List String → List String → Outcome (List String)
load_keys seen [] = ok seen
load_keys seen (k ∷ ks) =
    let rest = load_keys (k ∷ seen) ks in
    if decodes_to 32 k && not (contains k seen) then rest else fail invalid_catalog_key

-- `for key := range j.catalog { … missing execution record }`.
unfoldable pub catalog_complete : Map AttemptRecord → List String → Bool
catalog_complete records ks = all (λ k. is_some (lookup k records)) ks

-- A record that its catalog may lack: nothing of it has run.
unfoldable pub may_be_uncatalogued : AttemptRecord → Bool
may_be_uncatalogued r =
    (r.phase == "unstarted" || r.phase == "unknown") && not r.stop_verified && not r.result_accepted

-- The loop that adds the records that the catalog lacks.
unfoldable pub add_uncatalogued : Map AttemptRecord → List String → Outcome (List String)
add_uncatalogued [] catalog = ok catalog
add_uncatalogued ((k, r) ∷ m) catalog =
    let rest = add_uncatalogued m (k ∷ catalog) in
    let next = add_uncatalogued m catalog in
    if contains k catalog
    then next
    else if may_be_uncatalogued r
    then rest
    else fail uncatalogued_execution

-- The opened journal; every record in it is one that was recovered.
abbrev pub assemble : JournalIdentity → Map AttemptRecord → List String → Opening AttemptJournal
assemble i records full d = (
  d,
  ok (record {
    identity = i;
    records = records;
    recovered = keys records;
    fault = none;
    catalog = full;
    disk = d;
  }),
)

-- `if catalogChanged { saveCatalog }`.
unfoldable pub save_if_changed : JournalIdentity → List String → List String → Opening (Unit {0})
save_if_changed i catalog full =
    if length full == length catalog then done tt else write (put_catalog (catalog_of i full))

-- An unregistered journal must be empty; its owner is then registered.
unfoldable pub register : JournalIdentity → Map AttemptRecord → String → Opening (Unit {0})
register i records registered =
    if registered == ""
    then (do
      require (length records == 0) unregistered_records
      write (λ d. record d { registered_owner = i.owner }))
    else done tt

-- The record files as readCheckedJSON finds them: the identity and the catalog, of at most 10000
-- keys, are always small enough.
abbrev pub as_read :
    (AttemptRecord → Bool) → Map (Stored AttemptRecord) → Map (Stored AttemptRecord)
as_read fits [] = []
as_read fits ((name, damaged) ∷ files) = (name, damaged) ∷ as_read fits files
as_read fits ((name, intact r) ∷ files) =
    (name, if fits r then intact r else damaged) ∷ as_read fits files

module _ ⦃h : Sha256⦄ where
  -- The loop over the record files, with the records read so far.
  unfoldable pub load_files :
      JournalIdentity → Map (Stored AttemptRecord) → Map AttemptRecord → Outcome (Map AttemptRecord)
  load_files i [] records = ok records
  load_files i ((name, damaged) ∷ files) records = fail damaged_record
  load_files i ((name, intact r) ∷ files) records =
      let key = attempt_key r.job_id r.dispatch_token in
      let rest = load_files i files (insert key r records) in
      elim (validate i r) [
        | some e ↦ fail e
        | none ↦
            if name == key && ltb (length records) max_journal_attempts
            then rest
            else fail misplaced_record
      ]

  unfoldable pub rebuild : JournalIdentity → Opening AttemptJournal
  rebuild i d =
      (do
        listed ← lift (read_catalog i d.catalog_file)
        catalog ← lift (load_keys [] listed)
        records ← lift (load_files i (as_read d.fits d.record_files) [])
        require (catalog_complete records catalog) catalogued_record_missing
        full ← lift (add_uncatalogued records catalog)
        save_if_changed i catalog full
        register i records d.registered_owner
        assemble i records full)
        d

  unfoldable pub open_journal : String → String → Opening AttemptJournal
  open_journal gpu_id random_owner d =
      (do
        i ← read_identity gpu_id random_owner
        require (identity_matches gpu_id d.registered_owner i) identity_mismatch
        i' ← initialize i
        rebuild i')
        d
