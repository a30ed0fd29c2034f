-- ===== src/Journal/Fits.antt =====
-- internal/job/journal.go, readJournalJSON: a directory opens only if each of its record files has at
-- most 16 MiB.
use rungpu_agent.Base.{
  String, Bool, true, [], ◌∷◌, some, Map, All, ◌≡◌, ap, ◌∙◌, sym, length, ltb, insert, ◌&&◌, ◌==◌,
  string_eq, Bool-cases, Option-cases, inl, inr,
}
use rungpu_agent.Digest.{Sha256}
use rungpu_agent.Journal.Records.{
  AttemptRecord, JournalIdentity, identity_mismatch, validate, max_journal_attempts,
}
use rungpu_agent.Journal.Store.{AttemptJournal, Disk, Stored, intact, damaged}
use rungpu_agent.Journal.Operations.{ok}
use rungpu_agent.Journal.Load.{
  ◌>>=◌, ◌>>◌, require, read_identity, identity_matches, initialize, read_catalog, load_keys,
  load_files, as_read, rebuild, open_journal,
}
use rungpu_agent.Journal.Lifecycle.{key_of}
use rungpu_agent.Journal.Crash.{AllFit, bind_ok, read_identity_lem, initialize_lem, require_lem}
use rungpu_agent.Journal.Reading.{Outcome-cases}

module _ ⦃h : Sha256⦄ where
  load_files_fit :
      (i : JournalIdentity) (fits : AttemptRecord → Bool) (files : Map (Stored AttemptRecord))
      (acc m : Map AttemptRecord)
      → load_files i (as_read fits files) acc ≡ ok m
      → All (λ f. (r : AttemptRecord) → f.1 ≡ intact r → fits r ≡ true) files
  unfolding load_files
  load_files_fit i fits [] acc m w = tt
  load_files_fit i fits ((name, damaged) ∷ files) acc m w = absurd (cc w)
  load_files_fit i fits ((name, intact r) ∷ files) acc m w = elim (Bool-cases (fits r)) [
    | inr big ↦ absurd (cc (rw (big, load_files) at w))
    | inl small ↦ elim (Option-cases (validate i r)) [
      | inr (e, bad) ↦ absurd (cc (rw (small, load_files, bad) at w))
      | inl v ↦ elim (Bool-cases (name == key_of r && ltb (length acc) max_journal_attempts)) [
        | inr bad ↦ absurd (cc (rw (small, load_files, v, bad) at w))
        | inl good ↦ (
          λ s e. let same : r ≡ s = cc e in sym (ap fits same) ∙ small,
          load_files_fit i fits files (insert (key_of r) r acc) m
              (rw (small, load_files, v, good) at w),
        )
      ]
    ]
  ]

  rebuild_fits :
      (i : JournalIdentity) (d : Disk) (j : AttemptJournal) → (rebuild i d).1 ≡ ok j → AllFit d
  unfolding rebuild
  rebuild_fits i d j w = elim (Outcome-cases (read_catalog i d.catalog_file)) [
    | inl (_, f) ↦ absurd (cc (rw (f, rebuild) at w))
    | inr (names, p) ↦ elim (Outcome-cases (load_keys [] names)) [
      | inl (_, f) ↦ absurd (cc (rw (p, f, rebuild) at w))
      | inr (catalog, q) ↦ elim (Outcome-cases (load_files i (as_read d.fits d.record_files) [])) [
        | inl (_, f) ↦ absurd (cc (rw (p, q, f, rebuild) at w))
        | inr (records, loaded) ↦ load_files_fit i d.fits d.record_files [] records loaded
      ]
    ]
  ]

  -- A directory with an initialized identity opens only if its record files are small enough.
  pub open_journal_fits :
      (gpu_id random_owner : String) (i : JournalIdentity) (d : Disk) (j : AttemptJournal)
      → d.identity_file ≡ some (intact i)
      → i.initialized ≡ true
      → (open_journal gpu_id random_owner d).1 ≡ ok j
      → AllFit d
  unfolding open_journal
  open_journal_fits gpu_id random_owner i d j written old w =
      elim (Bool-cases (identity_matches gpu_id d.registered_owner i)) [
        | inr other ↦ absurd (cc (rw other at read))
        | inl ours ↦ rebuild_fits i d j (
            ap (λ p. p.1)
              (sym (
                bind_ok (require (identity_matches gpu_id d.registered_owner i) identity_mismatch)
                  (λ _. initialize i >>= rebuild) d d tt (require_lem _ _ d ours)
                ∙ bind_ok (initialize i) rebuild d d i (initialize_lem i d old)))
            ∙ read)
      ]
    where
      read :
          ((require (identity_matches gpu_id d.registered_owner i) identity_mismatch
              >> (initialize i >>= rebuild))
            d).1
          ≡ ok j
      read =
          ap (λ p. p.1)
            (sym (
              bind_ok (read_identity gpu_id random_owner)
                (λ i'.
                  require (identity_matches gpu_id d.registered_owner i') identity_mismatch
                  >> (initialize i' >>= rebuild))
                d d i (read_identity_lem gpu_id random_owner d i written)))
          ∙ w
