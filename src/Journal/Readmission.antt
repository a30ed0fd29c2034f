-- ===== src/Journal/Readmission.antt =====
-- What a restart means for admission: internal/job/journal.go marks every record that it reads back
-- as recovered, and Admit refuses those for good. Also the journal of a new directory.
use text.Mathlib.TextEquality.{eq_iff}
use rungpu_agent.Base.{
  pos, String, Bool, true, ◌&&◌, not, List, [], ◌∷◌, Option, none, some, Map, lookup, contains,
  ◌==◌, string_eq, ◌≡◌, refl, sym, ap, ◌∙◌, subst, arith, Bool-cases, inl, inr, ◌⊎◌, keys, All,
  beq_refl,
}
use rungpu_agent.Digest.{Sha256, decodes_to}
use rungpu_agent.Types.{JobAssignment}
use rungpu_agent.Journal.Records.{
  AttemptRecord, JournalIdentity, already_tracked, unsupported_runtime, docker_runtime_name,
  is_some, attempt_key,
}
use rungpu_agent.Journal.Store.{
  AttemptJournal, Disk, Stored, intact, damaged, store, atomic_write, catalog_of, sort,
}
use rungpu_agent.Journal.Writes.{store-Storing, stays, fails, succeeds}
use rungpu_agent.Journal.Operations.{ok, fail, admit, refuses_admission}
use rungpu_agent.Journal.Lifecycle.{Change, same, evolves, births, IsKeyed, key_of}
use rungpu_agent.Journal.Runs.{Call, step, run, step-Change, step-IsKeyed, Holds, run-Holds}
use rungpu_agent.Journal.Load.{
  open_journal, read_identity, initialize, rebuild, read_catalog, load_keys, load_files,
  catalog_complete, add_uncatalogued, save_if_changed, register,
}
use rungpu_agent.Journal.Entries.{contents}
use rungpu_agent.Journal.Durable.{IsRecordFile, IsSound}
use rungpu_agent.Journal.Crash.{Opens}
use rungpu_agent.Journal.Reopen.{lookup-contents}
use rungpu_agent.Journal.Restart.{after_crash}

-- A directory with no file in it.
abbrev pub empty_disk : (AttemptRecord → Bool) → Disk
empty_disk fits = record {
  fits = fits;
  registered_owner = "";
  identity_file = none;
  catalog_file = none;
  record_files = [];
  outcomes = [];
}

pub contains-keys :
    (k : String) (m : Map AttemptRecord) → contains k (keys m) ≡ is_some (lookup k m)
unfolding lookup
contains-keys k [] = refl
contains-keys k ((j, r) ∷ m) = ground (arith, contains-keys k m)

found_of :
    (o : Option AttemptRecord) → is_some o ≡ true → (r : AttemptRecord) × (o ≡ some r) × Unit {0}
found_of none h = cc h
found_of (some r) h = (r, refl, tt)

module _ ⦃h : Sha256⦄ where
  store-recovered : (r : AttemptRecord) (j : AttemptJournal) → (store r j).0.recovered ≡ j.recovered
  store-recovered r j = elim (store-Storing r j) [
    | stays e f p ↦ ap (λ q. q.0.recovered) p
    | fails e c d f t p ↦ ap (λ q. q.0.recovered) p
    | succeeds c d f w p ↦ ap (λ q. q.0.recovered) p
  ]

  Change-recovered : (j j' : AttemptJournal) → Change true j j' → j'.recovered ≡ j.recovered
  Change-recovered j j' same = refl
  Change-recovered j j' (evolves old new e s) = store-recovered new j
  Change-recovered j j' (births id token new e room b) = store-recovered new j

  run-recovered :
      (cs : List Call) (j : AttemptJournal) → IsKeyed j.records → (run cs j).recovered ≡ j.recovered
  unfolding run
  run-recovered [] j keyed = refl
  run-recovered (c ∷ cs) j keyed =
      run-recovered cs (step c j) (step-IsKeyed c j keyed)
      ∙ Change-recovered j (step c j) (step-Change c j keyed)

  -- Files in order give records under their own keys.
  contents-IsKeyed :
      (i : JournalIdentity) (listed : List String) (files : Map (Stored AttemptRecord))
      → All (IsRecordFile i listed) files
      → IsKeyed (contents files)
  unfolding lookup
  contents-IsKeyed i listed [] good k r found = cc found
  contents-IsKeyed i listed ((name, damaged) ∷ files) good k r found = cc (good.0.1)
  contents-IsKeyed i listed ((name, intact s) ∷ files) ((t, e, v, key, c), good) k r found =
      elim (Bool-cases (name == k)) [
        | inl hit ↦
            let here : s ≡ r = cc (rw (hit, lookup) at found) in
            let same_record : s ≡ t = cc e in
            ap key_of (sym here ∙ same_record) ∙ key ∙ (eq_iff name k).0 hit
        | inr miss ↦ contents-IsKeyed i listed files good k r (rw (miss, lookup) at found)
      ]

  admit_recovered :
      (a : JobAssignment) (backend : String) (j : AttemptJournal)
      → contains (attempt_key a.job_id a.dispatch_token) j.recovered ≡ true
      → Holds (λ _. Unit {0}) (attempt_key a.job_id a.dispatch_token) j
      → (admit a backend j ≡ (j, fail already_tracked))
        ⊎ (admit a backend j ≡ (j, fail unsupported_runtime))
  unfolding admit
  admit_recovered a backend j old (r, found, _) =
      elim (Bool-cases (not (a.runtime == "ollama") && not (docker_runtime_name a.runtime))) [
        | inl t ↦ inr (rw (t, admit))
        | inr t ↦ inl (rw (t, admit, found, refuses) refl)
      ]
    where
      refuses : refuses_admission j (attempt_key a.job_id a.dispatch_token) (some r) ≡ true
      refuses = ground arith

  -- An attempt that is known when the agent crashes is never admitted again: after the restart
  -- every admission of it is refused and changes nothing, whatever calls come between. This is for
  -- a sound journal whose records stand under their own keys, and a restart as above.
  pub restarted_never_readmits :
      (gpu_id random_owner backend : String) (j after : AttemptJournal) (a : JobAssignment)
      (later : List Call)
      → IsSound j
      → is_some (lookup (attempt_key a.job_id a.dispatch_token) j.records) ≡ true
      → Opens gpu_id random_owner (after_crash j.disk) after
      → (admit a backend (run later after) ≡ (run later after, fail already_tracked))
        ⊎ (admit a backend (run later after) ≡ (run later after, fail unsupported_runtime))
  restarted_never_readmits gpu_id random_owner backend j after a later sound known opens =
      let k : String = attempt_key a.job_id a.dispatch_token in
      let keyed : IsKeyed after.records = subst IsKeyed (sym opens.2) (
        contents-IsKeyed j.identity sound.listed j.disk.record_files sound.durable.in_order.good) in
      let present : is_some (lookup k after.records) ≡ true =
        ap (λ m. is_some (lookup k m)) opens.2
        ∙ lookup-contents j.identity sound.listed k j.disk.record_files sound.durable.in_order.good
        ∙ sound.remembered k known in
      let old : contains k (run later after).recovered ≡ true =
        ap (contains k) (run-recovered later after keyed ∙ opens.3)
        ∙ contains-keys k after.records
        ∙ present in
      admit_recovered a backend (run later after) old (
        run-Holds (λ _. Unit {0}) (λ _ _ _ _ _. tt) k later after keyed
          (found_of (lookup k after.records) present))

  -- The journal that the first opening of an empty directory gives.
  abbrev pub new_journal : (AttemptRecord → Bool) → String → String → AttemptJournal
  new_journal fits gpu_id owner =
      let i : JournalIdentity = record {
        version = pos 1;
        gpu_id = gpu_id;
        owner = owner;
        initialized = true;
      } in
      record {
        identity = i;
        records = [];
        recovered = [];
        fault = none;
        catalog = [];
        disk = record {
          registered_owner = owner;
          identity_file = some (intact i);
          catalog_file = some (intact (catalog_of i []));
          record_files = [];
          outcomes = [];
          fits = fits;
        };
      }

  -- The first opening of an empty directory succeeds and registers its owner, if the random owner
  -- is 64 hexadecimal digits; the journal is sound and its records stand under their own keys.
  pub first_opening :
      (fits : AttemptRecord → Bool) (gpu_id random_owner : String)
      → decodes_to 32 random_owner ≡ true
      → (open_journal gpu_id random_owner (empty_disk fits) ≡ (
        (new_journal fits gpu_id random_owner).disk,
        ok (new_journal fits gpu_id random_owner),
      ))
        × IsSound (new_journal fits gpu_id random_owner)
        × IsKeyed (new_journal fits gpu_id random_owner).records
  unfolding lookup open_journal read_identity initialize rebuild read_catalog load_keys load_files
      catalog_complete add_uncatalogued save_if_changed register atomic_write catalog_of sort
  first_opening fits gpu_id random_owner hex = (
    rw (beq_refl gpu_id, hex) (rw (beq_refl gpu_id, beq_refl random_owner)),
    record {
      opened = record { version_one = refl; owner_decodes = hex; initialized = refl };
      listed = [];
      durable = record {
        registered = refl;
        identity_written = refl;
        catalog_written = refl;
        in_order = record {
          good = tt;
          distinct = tt;
          few = omega arith;
          listed_distinct = tt;
          listed_decode = tt;
          listed_present = tt;
          listed_few = omega arith;
        };
      };
      synced = λ _. record {
        same_records = refl;
        same_catalog = refl;
        catalogued = λ k. refl;
        as_many = refl;
        same_keys = λ k. refl;
      };
      remembered = λ k p. cc p;
    },
    λ k r found. cc found,
  )
