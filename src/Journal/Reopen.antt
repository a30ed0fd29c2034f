-- ===== src/Journal/Reopen.antt =====
-- Each loop of openAttemptJournal (internal/job/journal.go) accepts files that are in order.
use text.Mathlib.TextEquality.{eq_iff}
use rungpu_agent.Base.{
  String, Bool, true, false, ◌||◌, List, [], ◌∷◌, ◌++◌, none, Map, lookup, insert, contains, length,
  all, All, All-map, string_eq, int_eq, ◌≡◌, refl, sym, ap, ◌∙◌, subst, arith, ◌+◌, ◌≤◌, Bool-cases,
  inl, inr, lookup-insert, length-append, lt→ltb,
}
use mathlib.Core.List.{append_assoc, append-nil}
use rungpu_agent.Digest.{Sha256, decodes_to}
use rungpu_agent.Journal.Records.{
  AttemptRecord, JournalIdentity, validate, is_some, max_journal_attempts,
}
use rungpu_agent.Journal.Store.{Stored, intact, damaged}
use rungpu_agent.Journal.Operations.{ok}
use rungpu_agent.Journal.Load.{
  load_keys, load_files, catalog_complete, add_uncatalogued, may_be_uncatalogued,
}
use rungpu_agent.Journal.Lifecycle.{key_of}
use rungpu_agent.Journal.Entries.{Distinct, DistinctKeys, contents, insert_new}
use rungpu_agent.Journal.Durable.{IsRecordFile, AreInOrder}

-- The keys of a list before those of another, in reverse.
abbrev pub rev_onto : List String → List String → List String
rev_onto [] seen = seen
rev_onto (k ∷ ks) seen = rev_onto ks (k ∷ seen)

pub contains-rev_onto :
    (k : String) (ks seen : List String)
    → contains k (rev_onto ks seen) ≡ (contains k ks || contains k seen)
contains-rev_onto k [] seen = refl
contains-rev_onto k (x ∷ xs) seen = ground (arith, contains-rev_onto k xs (x ∷ seen))

All-rev_onto :
    (P : String → Type 0) (ks seen : List String) → All P ks → All P seen → All P (rev_onto ks seen)
All-rev_onto P [] seen a b = b
All-rev_onto P (k ∷ ks) seen a b = All-rev_onto P ks (k ∷ seen) a.1 (a.0, b)

all_of_All : (p : String → Bool) (ks : List String) → All (λ k. p k ≡ true) ks → all p ks ≡ true
all_of_All p [] a = refl
all_of_All p (k ∷ ks) a = ground (arith, all_of_All p ks a.1)

fresh_keys :
    (k : String) (seen ks : List String)
    → contains k ks ≡ false
    → All (λ j. contains j seen ≡ false) ks
    → All (λ j. contains j (k ∷ seen) ≡ false) ks
fresh_keys k seen [] new a = tt
fresh_keys k seen (x ∷ xs) new a =
    (ground (arith, eq_iff k x, eq_iff x k, a.0), fresh_keys k seen xs (ground arith) a.1)

pub load_keys_lem :
    (seen ks : List String)
    → All (λ k. decodes_to 32 k ≡ true) ks
    → DistinctKeys ks
    → All (λ k. contains k seen ≡ false) ks
    → load_keys seen ks ≡ ok (rev_onto ks seen)
unfolding load_keys
load_keys_lem seen [] hex d new = refl
load_keys_lem seen (k ∷ ks) hex d new =
    rw (hex.0, new.0) (load_keys_lem (k ∷ seen) ks hex.1 d.1 (fresh_keys k seen ks d.0 new.1))

module _ ⦃h : Sha256⦄ (i : JournalIdentity) (listed : List String) where
  -- No file's key is among the records read so far, nor among those of a record more.
  fresh_files :
      (k : String) (r : AttemptRecord) (acc : Map AttemptRecord)
      (files : Map (Stored AttemptRecord))
      → lookup k files ≡ none
      → All (λ f. lookup f.0 acc ≡ none) files
      → All (λ f. lookup f.0 (insert k r acc) ≡ none) files
  unfolding lookup
  fresh_files k r acc [] new a = tt
  fresh_files k r acc ((x, s) ∷ files) new a = (
    ground (arith, lookup-insert k x r acc, eq_iff k x, eq_iff x k, a.0),
    fresh_files k r acc files (ground arith) a.1,
  )

  pub load_files_lem :
      (files : Map (Stored AttemptRecord)) (acc : Map AttemptRecord)
      → All (IsRecordFile i listed) files
      → Distinct files
      → All (λ f. lookup f.0 acc ≡ none) files
      → length acc + length files ≤ max_journal_attempts
      → load_files i files acc ≡ ok (acc ++ contents files)
  unfolding load_files
  load_files_lem [] acc good d new room = ap ok (sym (append-nil acc))
  load_files_lem ((name, damaged) ∷ files) acc good d new room = cc (good.0.1)
  load_files_lem ((name, intact r) ∷ files) acc ((s, e, v, key, c), good) d new room =
      let same : r ≡ s = cc e in
      let valid : validate i r ≡ none = cc (v, same) in
      let named : key_of r ≡ name = cc (key, same) in
      let grown : insert (key_of r) r acc ≡ acc ++ (name, r) ∷ [] =
        ap (λ k. insert k r acc) named ∙ insert_new name r acc new.0 in
      rw
        (
          valid,
          load_files,
          (eq_iff name (key_of r)).1 (sym named),
          lt→ltb (length acc) max_journal_attempts (omega arith),
        )
        (load_files_lem files (insert (key_of r) r acc) good d.1
            (subst (λ k. All (λ f. lookup f.0 (insert k r acc) ≡ none) files) (sym named)
              (fresh_files name r acc files d.0 new.1))
            (omega (arith, ap length grown, length-append acc ((name, r) ∷ [])))
          ∙ ap ok (
              ap (λ m. m ++ contents files) grown
              ∙ append_assoc acc ((name, r) ∷ []) (contents files)))

  -- Files in order hold what they seem to.
  pub lookup-contents :
      (k : String) (files : Map (Stored AttemptRecord))
      → All (IsRecordFile i listed) files
      → is_some (lookup k (contents files)) ≡ is_some (lookup k files)
  unfolding lookup
  lookup-contents k [] good = refl
  lookup-contents k ((name, damaged) ∷ files) good = cc (good.0.1)
  lookup-contents k ((name, intact r) ∷ files) good = ground (arith, lookup-contents k files good.1)

  pub catalog_complete_lem :
      (files : Map (Stored AttemptRecord))
      → AreInOrder i listed files
      → catalog_complete (contents files) (rev_onto listed []) ≡ true
  unfolding catalog_complete
  catalog_complete_lem files o =
      all_of_All (λ k. is_some (lookup k (contents files))) (rev_onto listed [])
        (All-rev_onto (λ k. is_some (lookup k (contents files)) ≡ true) listed []
          (All-map (λ k p. lookup-contents k files o.good ∙ p) listed o.listed_present) tt)

  pub add_uncatalogued_lem :
      (files : Map (Stored AttemptRecord)) (catalog : List String)
      → All (IsRecordFile i listed) files
      → ((k : String) → contains k listed ≡ true → contains k catalog ≡ true)
      → (full : List String) × (add_uncatalogued (contents files) catalog ≡ ok full)
  unfolding add_uncatalogued
  add_uncatalogued_lem [] catalog good cover = (catalog, refl)
  add_uncatalogued_lem ((name, damaged) ∷ files) catalog good cover = cc (good.0.1)
  add_uncatalogued_lem ((name, intact r) ∷ files) catalog ((s, e, v, key, c), good) cover =
      elim (Bool-cases (contains name catalog)) [
        | inl old ↦
            let (full, p) = add_uncatalogued_lem files catalog good cover in
            (full, rw (old, add_uncatalogued) p)
        | inr new ↦
            let (full, p) =
              add_uncatalogued_lem files (name ∷ catalog) good (λ k l. ground (arith, cover k l)) in
            (full, rw (new, add_uncatalogued, uncatalogued new) p)
      ]
    where
      uncatalogued : contains name catalog ≡ false → may_be_uncatalogued r ≡ true
      uncatalogued new = elim c [
        | inl old ↦ cc (cover name old, new)
        | inr u ↦ let same : r ≡ s = cc e in cc (u, same)
      ]
