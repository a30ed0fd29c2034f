-- ===== src/Journal/Crash.antt =====
-- A crash of the agent at any moment leaves files that openAttemptJournal (internal/job/journal.go)
-- accepts, and from which no attempt is forgotten.
use text.Mathlib.TextEquality.{eq_iff}
use rungpu_agent.Base.{
  String, Bool, true, false, List, [], ◌∷◌, Option, none, some, Map, lookup, contains, length, ◌==◌,
  string_eq, int_eq, nat_eq, ◌≡◌, refl, ap, ◌∙◌, subst, arith, Bool-cases, inl, inr, keys, beq_refl,
  All, le→leb, ◌≤◌,
}
use rungpu_agent.Digest.{Sha256, decodes_to}
use rungpu_agent.Journal.Records.{
  AttemptRecord, JournalIdentity, JournalError, identity_mismatch, max_journal_attempts,
}
use rungpu_agent.Journal.Store.{
  AttemptJournal, Disk, JournalCatalog, Stored, intact, damaged, put_catalog, catalog_of,
  atomic_write, perform,
}
use rungpu_agent.Journal.Operations.{Outcome, ok, fail}
use rungpu_agent.Journal.Load.{
  Opening, ◌>>=◌, ◌>>◌, require, read_identity, identity_matches, initialize, read_catalog,
  load_keys, load_files, as_read, catalog_complete, add_uncatalogued, register, rebuild,
  open_journal, assemble, save_if_changed,
}
use rungpu_agent.Journal.Entries.{contents}
use rungpu_agent.Journal.Durable.{catalog_file, IsOpened, IsDurable}
use rungpu_agent.Journal.Reopen.{
  rev_onto, contains-rev_onto, load_keys_lem, load_files_lem, catalog_complete_lem,
  add_uncatalogued_lem,
}

pub bind_ok :
    {A B : Type 0} (m : Opening A) (f : A → Opening B) (d d' : Disk) (a : A)
    → m d ≡ (d', ok a)
    → (m >>= f) d ≡ f a d'
bind_ok {A} {B} m f d d' a e = ap run_rest e
  where
    run_rest : Disk × Outcome A → Disk × Outcome B
    run_rest p = elim p.1 [ ok x ↦ f x p.0 | fail x ↦ (p.0, fail x) ]

owner_not_empty : (i : JournalIdentity) → IsOpened i → (i.owner == "") ≡ false
unfolding decodes_to
owner_not_empty i o = elim (Bool-cases (i.owner == "")) [
  | inr e ↦ e
  | inl e ↦ cc (subst (λ s. decodes_to 32 s ≡ true) ((eq_iff i.owner "").0 e) o.owner_decodes)
]

pub read_identity_lem :
    (gpu_id random_owner : String) (d : Disk) (i : JournalIdentity)
    → d.identity_file ≡ some (intact i)
    → read_identity gpu_id random_owner d ≡ (d, ok i)
unfolding read_identity
read_identity_lem gpu_id random_owner d i e = ground arith

pub initialize_lem :
    (i : JournalIdentity) (d : Disk) → i.initialized ≡ true → initialize i d ≡ (d, ok i)
unfolding initialize
initialize_lem i d e = simp e

pub require_lem : (b : Bool) (e : JournalError) (d : Disk) → b ≡ true → require b e d ≡ (d, ok tt)
require_lem b e d p = rw p

read_catalog_lem :
    (i : JournalIdentity) (listed : List String) (o : Option (Stored JournalCatalog))
    → length listed ≤ max_journal_attempts
    → o ≡ catalog_file i listed
    → read_catalog i o ≡ ok listed
unfolding read_catalog
read_catalog_lem i listed o few e = rw (
  e,
  read_catalog,
  beq_refl i.gpu_id,
  beq_refl i.owner,
  le→leb (length listed) max_journal_attempts few,
)

save_if_changed_lem :
    (i : JournalIdentity) (catalog full : List String) (d : Disk)
    → d.outcomes ≡ []
    → (d' : Disk) × (save_if_changed i catalog full d ≡ (d', ok tt))
      × (d'.record_files ≡ d.record_files)
unfolding save_if_changed atomic_write perform
save_if_changed_lem i catalog full d quiet = elim (Bool-cases (length full == length catalog)) [
  | inl e ↦ (d, rw e, refl)
  | inr e ↦ (put_catalog (catalog_of i full) d, rw e (ground arith), refl)
]

register_lem :
    (i : JournalIdentity) (records : Map AttemptRecord) (registered : String) (d : Disk)
    → (registered == "") ≡ false
    → register i records registered d ≡ (d, ok tt)
unfolding register
register_lem i records registered d e = simp e

module _ ⦃h : Sha256⦄ where
  -- An opening that succeeded: the records are those of the files, and all count as recovered.
  abbrev pub Opens : String → String → Disk → AttemptJournal → Type 0
  Opens gpu_id random_owner d k =
      (d' : Disk) × (open_journal gpu_id random_owner d ≡ (d', ok k))
      × (k.records ≡ contents d.record_files)
      × (k.recovered ≡ keys k.records)
      × (k.fault ≡ none)

  rebuild_steps :
      (i : JournalIdentity) (d d' : Disk) (listed catalog full : List String)
      (records : Map AttemptRecord)
      → read_catalog i d.catalog_file ≡ ok listed
      → load_keys [] listed ≡ ok catalog
      → load_files i (as_read d.fits d.record_files) [] ≡ ok records
      → catalog_complete records catalog ≡ true
      → add_uncatalogued records catalog ≡ ok full
      → save_if_changed i catalog full d ≡ (d', ok tt)
      → register i records d.registered_owner d' ≡ (d', ok tt)
      → rebuild i d ≡ assemble i records full d'
  unfolding rebuild
  rebuild_steps i d d' listed catalog full records e1 e2 e3 e4 e5 e6 e7 =
      rw (e1, e2, e3, e4, e5)
        (bind_ok (save_if_changed i catalog full)
            (λ _. register i records d.registered_owner >> assemble i records full) d d' tt e6
          ∙ bind_ok (register i records d.registered_owner) (λ _. assemble i records full) d' d' tt
              e7)

  -- Every record file has at most 16 MiB.
  abbrev pub AllFit : Disk → Type 0
  AllFit d = All (λ f. (r : AttemptRecord) → f.1 ≡ intact r → d.fits r ≡ true) d.record_files

  as_read-AllFit :
      (fits : AttemptRecord → Bool) (files : Map (Stored AttemptRecord))
      → All (λ f. (r : AttemptRecord) → f.1 ≡ intact r → fits r ≡ true) files
      → as_read fits files ≡ files
  as_read-AllFit fits [] all = refl
  as_read-AllFit fits ((name, damaged) ∷ files) all =
      ap (λ fs. (name, damaged) ∷ fs) (as_read-AllFit fits files all.1)
  as_read-AllFit fits ((name, intact r) ∷ files) all =
      rw (all.0 r refl) (ap (λ fs. (name, intact r) ∷ fs) (as_read-AllFit fits files all.1))

  rebuild_lem :
      (i : JournalIdentity) (listed : List String) (d : Disk)
      → IsOpened i
      → IsDurable i listed d
      → AllFit d
      → d.outcomes ≡ []
      → (d' : Disk) × (full : List String) × (rebuild i d
          ≡ assemble i (contents d.record_files) full d')
  rebuild_lem i listed d opened durable fit quiet =
      let files : Map (Stored AttemptRecord) = d.record_files in
      let o = durable.in_order in
      let catalog : List String = rev_onto listed [] in
      let (full, added) =
        add_uncatalogued_lem i listed files catalog o.good
          (λ k l. ground (arith, contains-rev_onto k listed [])) in
      let (d', saved, same) = save_if_changed_lem i catalog full d quiet in
      (
        d',
        full,
        rebuild_steps i d d' listed catalog full (contents files)
            (read_catalog_lem i listed d.catalog_file o.listed_few durable.catalog_written)
            (load_keys_lem [] listed o.listed_decode o.listed_distinct (none_seen listed))
            (ap (λ fs. load_files i fs []) (as_read-AllFit d.fits files fit)
              ∙ load_files_lem i listed files [] o.good o.distinct (none_read files)
                  (omega (arith, o.few)))
            (catalog_complete_lem i listed files o) added saved
            (register_lem i (contents files) d.registered_owner d'
              (ap (λ s. s == "") durable.registered ∙ owner_not_empty i opened)),
      )
    where
      none_seen : (ks : List String) → All (λ k. contains k [] ≡ false) ks
      none_seen [] = tt
      none_seen (k ∷ ks) = (refl, none_seen ks)

      none_read :
          (files : Map (Stored AttemptRecord))
          → All (λ f. lookup {V = AttemptRecord} f.0 [] ≡ none) files
      none_read [] = tt
      none_read (f ∷ files) = (unfold lookup in refl, none_read files)

  pub opens_lem :
      (random_owner : String) (i : JournalIdentity) (listed : List String) (d : Disk)
      → IsOpened i
      → IsDurable i listed d
      → AllFit d
      → d.outcomes ≡ []
      → (k : AttemptJournal) × Opens i.gpu_id random_owner d k
  unfolding open_journal
  opens_lem random_owner i listed d opened durable fit quiet =
      let (d', full, built) = rebuild_lem i listed d opened durable fit quiet in
      (
        record {
          identity = i;
          records = contents d.record_files;
          recovered = keys (contents d.record_files);
          fault = none;
          catalog = full;
          disk = d';
        },
        (
          d',
          bind_ok (read_identity i.gpu_id random_owner)
                (λ i'.
                  require (identity_matches i.gpu_id d.registered_owner i') identity_mismatch
                  >> (initialize i' >>= rebuild))
                d d i (read_identity_lem i.gpu_id random_owner d i durable.identity_written)
              ∙ bind_ok (require (identity_matches i.gpu_id d.registered_owner i) identity_mismatch)
                  (λ _. initialize i >>= rebuild) d d tt
                  (require_lem _ _ d (matches durable.registered))
              ∙ bind_ok (initialize i) rebuild d d i (initialize_lem i d opened.initialized)
              ∙ built,
          refl,
          refl,
          refl,
        ),
      )
    where
      matches : d.registered_owner ≡ i.owner → identity_matches i.gpu_id d.registered_owner i ≡ true
      matches e = ground (
        arith,
        opened.version_one,
        beq_refl i.gpu_id,
        opened.owner_decodes,
        e,
        beq_refl i.owner,
        eq_iff d.registered_owner i.owner,
      )
