-- ===== src/Journal/Store.antt =====
-- internal/job/journal.go: the journal's state, the atomic file writes (atomicJournalJSON,
-- atomicCheckedJSON over internal/durablefs) and store with saveCatalog.
use Prim.Native.String.{compare}
use Prim.Native.Nat.{Ordering}
use rungpu_agent.Base.{
  ℤ, pos, String, Bool, List, [], ◌∷◌, Option, none, some, Map, insert, contains, string_eq,
  if◌then◌else◌,
}
use rungpu_agent.Digest.{Sha256}
use rungpu_agent.Journal.Records.{
  AttemptRecord, JournalIdentity, JournalError, fenced, write_failed, attempt_key, validate,
}

pub record JournalCatalog : Type 0 where
  pub version : ℤ
  pub gpu_id : String
  pub owner : String
  pub keys : List String

-- A file as readCheckedJSON finds it: `damaged` fails the checksum, the size or the type check.
pub data Stored (A : Type 0) : Type 0 where
  intact : A → Stored A
  damaged : Stored A

-- What one atomic write meets: it succeeds, it fails with the old file in place, or the file is
-- replaced and an error is reported all the same (the rename is done and the sync fails).
pub data WriteOutcome : Type 0 where
  written unwritten unsettled : WriteOutcome

-- The journal's directory. `record_files` has a file's name without ".json"; `registered_owner` is
-- this GPU's scope in the machine's root file, "" if it has none. `outcomes` is what the writes to
-- come meet, in their order; a write past its end succeeds. `fits` says of which records the file
-- has at most 16 MiB: readJournalJSON refuses a larger one, and the writes do not look at the size.
pub record Disk : Type 0 where
  pub registered_owner : String
  pub identity_file : Option (Stored JournalIdentity)
  pub catalog_file : Option (Stored JournalCatalog)
  pub record_files : Map (Stored AttemptRecord)
  pub outcomes : List WriteOutcome
  pub fits : AttemptRecord → Bool

unfoldable pub perform : List WriteOutcome → (Disk → Disk) → Disk → Disk × Option JournalError
perform [] put d = (put d, none)
perform (written ∷ rest) put d = (put (record d { outcomes = rest }), none)
perform (unwritten ∷ rest) put d = (record d { outcomes = rest }, some write_failed)
perform (unsettled ∷ rest) put d = (put (record d { outcomes = rest }), some write_failed)

-- One atomic write; `put` replaces the file.
unfoldable pub atomic_write : (Disk → Disk) → Disk → Disk × Option JournalError
unfolding perform
atomic_write put d = perform d.outcomes put d

-- `recovered` and `catalog` are the keys that the Go maps hold with `true`.
pub record AttemptJournal : Type 0 where
  pub identity : JournalIdentity
  pub records : Map AttemptRecord
  pub recovered : List String
  pub fault : Option JournalError
  pub catalog : List String
  pub disk : Disk

-- sort.Strings.
abbrev pub insert_sorted : String → List String → List String
insert_sorted k [] = k ∷ []
insert_sorted k (x ∷ xs) = elim (compare k x) [
  | Ordering.gt ↦ x ∷ insert_sorted k xs
  | _ ↦ k ∷ x ∷ xs
]

unfoldable pub sort : List String → List String
sort [] = []
sort (x ∷ xs) = insert_sorted x (sort xs)

unfoldable pub catalog_of : JournalIdentity → List String → JournalCatalog
catalog_of identity catalog = record {
  version = pos 1;
  gpu_id = identity.gpu_id;
  owner = identity.owner;
  keys = sort catalog;
}

abbrev pub put_catalog : JournalCatalog → Disk → Disk
put_catalog c d = record d { catalog_file = some (intact c) }

abbrev pub put_record : String → AttemptRecord → Disk → Disk
put_record key r d = record d { record_files = insert key (intact r) d.record_files }

abbrev pub put_identity : JournalIdentity → Disk → Disk
put_identity i d = record d { identity_file = some (intact i) }

abbrev pub on_disk :
    AttemptJournal → Disk × Option JournalError → AttemptJournal × Option JournalError
on_disk j (d, e) = (record j { disk = d }, e)

unfoldable pub save_catalog : AttemptJournal → AttemptJournal × Option JournalError
save_catalog j = on_disk j (atomic_write (put_catalog (catalog_of j.identity j.catalog)) j.disk)

unfoldable pub write_record :
    String → AttemptRecord → AttemptJournal → AttemptJournal × Option JournalError
write_record key r j = on_disk j (atomic_write (put_record key r) j.disk)

unfoldable pub add_to_catalog :
    String → AttemptJournal × Option JournalError → AttemptJournal × Option JournalError
unfolding save_catalog
add_to_catalog key (j, some e) = (j, some e)
add_to_catalog key (j, none) =
    if contains key j.catalog
    then (j, none)
    else save_catalog (record j { catalog = key ∷ j.catalog })

-- A failure fences the journal; otherwise the record is taken into memory.
unfoldable pub settle :
    String
    → AttemptRecord
    → AttemptJournal × Option JournalError
    → AttemptJournal × Option JournalError
settle key r (j, some e) = (record j { fault = some (fenced e) }, some (fenced e))
settle key r (j, none) = (record j { records = insert key r j.records }, none)

module _ ⦃h : Sha256⦄ where
  unfoldable pub persist : AttemptRecord → AttemptJournal → AttemptJournal × Option JournalError
  unfolding write_record add_to_catalog
  persist r j =
      let key = attempt_key r.job_id r.dispatch_token in
      elim (validate j.identity r) [
        | some e ↦ (j, some e)
        | none ↦ add_to_catalog key (write_record key r j)
      ]

  unfoldable pub store : AttemptRecord → AttemptJournal → AttemptJournal × Option JournalError
  unfolding persist settle
  store r j = elim j.fault [
    | some e ↦ (j, some e)
    | none ↦ settle (attempt_key r.job_id r.dispatch_token) r (persist r j)
  ]
