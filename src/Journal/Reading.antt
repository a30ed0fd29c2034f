-- ===== src/Journal/Reading.antt =====
-- What the steps of openAttemptJournal (internal/job/journal.go) accept, whatever they read.
use text.Mathlib.TextEquality.{eq_iff}
use rungpu_agent.Base.{
  String, Bool, true, false, ◌&&◌, ◌||◌, all, List, [], ◌∷◌, none, some, Map, lookup, insert, keys,
  length, ltb, contains, string_eq, nat_eq, ◌==◌, ◌≡◌, refl, sym, ap, ◌∙◌, subst, arith, ◌≤◌,
  Bool-cases, Option-cases, inl, inr, ◌⊎◌, lookup-insert, length-insert,
}
use rungpu_agent.Digest.{Sha256}
use rungpu_agent.Journal.Records.{
  AttemptRecord, JournalIdentity, JournalError, validate, max_journal_attempts,
}
use rungpu_agent.Journal.Store.{Disk, Stored, intact, damaged}
use rungpu_agent.Journal.Operations.{Outcome, ok, fail}
use rungpu_agent.Journal.Load.{
  Opening, ◌>>=◌, require, load_files, add_uncatalogued, may_be_uncatalogued,
}
use rungpu_agent.Journal.Lifecycle.{IsKeyed, key_of}

pub Outcome-cases :
    {A : Type 0} (o : Outcome A) → ((e : JournalError) × (o ≡ fail e)) ⊎ ((a : A) × (o ≡ ok a))
Outcome-cases (ok a) = inr (a, refl)
Outcome-cases (fail e) = inl (e, refl)

-- A step that succeeds has parts that do.
module _ {A B : Type 0} where
  pub bind-ok :
      (m : Opening A) (f : A → Opening B) (d : Disk) (b : B)
      → ((m >>= f) d).1 ≡ ok b
      → (a : A) × (d' : Disk) × ((m d).1 ≡ ok a) × ((f a d').1 ≡ ok b)
  bind-ok m f d b w = at (m d) w
    where
      at :
          (p : Disk × Outcome A)
          → (elim p.1 as (λ _. Disk × Outcome B) [ ok a ↦ f a p.0 | fail e ↦ (p.0, fail e) ]).1
            ≡ ok b
          → (a : A) × (d' : Disk) × (p.1 ≡ ok a) × ((f a d').1 ≡ ok b)
      at (d', ok a) w = (a, d', refl, w)
      at (d', fail e) w = absurd (cc w)

pub require-ok :
    (t : Bool) (e : JournalError) (d : Disk) (u : Unit {0}) → (require t e d).1 ≡ ok u → t ≡ true
require-ok true e d u w = refl
require-ok false e d u w = absurd (cc w)

pub all-true :
    (p : String → Bool) (ks : List String) (k : String)
    → all p ks ≡ true
    → contains k ks ≡ true
    → p k ≡ true
all-true p [] k w c = absurd (cc c)
all-true p (x ∷ xs) k w c = elim (Bool-cases (x == k)) [
  | inl hit ↦ subst (λ y. p y ≡ true) ((eq_iff x k).0 hit) (ground arith)
  | inr miss ↦ all-true p xs k (ground arith) (ground arith)
]

-- The catalog after the loop has the keys of the records besides its own.
pub contains-add_uncatalogued :
    (k : String) (m : Map AttemptRecord) (catalog full : List String)
    → add_uncatalogued m catalog ≡ ok full
    → contains k full ≡ (contains k (keys m) || contains k catalog)
unfolding add_uncatalogued
contains-add_uncatalogued k [] catalog full w = ap (contains k) (sym (cc w))
contains-add_uncatalogued k ((x, r) ∷ m) catalog full w = elim (Bool-cases (contains x catalog)) [
  | inl old ↦
      let rest = contains-add_uncatalogued k m catalog full (rw (old, add_uncatalogued) at w) in
      ground (arith, eq_iff x k, rest)
  | inr new ↦ elim (Bool-cases (may_be_uncatalogued r)) [
    | inl may ↦
        let rest =
          contains-add_uncatalogued k m (x ∷ catalog) full (rw (new, may, add_uncatalogued) at w) in
        ground (arith, rest)
    | inr not_run ↦ absurd (cc (rw (new, not_run, add_uncatalogued) at w))
  ]
]

module _ ⦃h : Sha256⦄ where
  -- What holds of the records after any number of files.
  pub record AreAccepted (i : JournalIdentity) (m : Map AttemptRecord) : Type 0 where
    pub keyed : IsKeyed m
    pub valid : (k : String) (r : AttemptRecord) → lookup k m ≡ some r → validate i r ≡ none
    pub few : length m ≤ max_journal_attempts

  AreAccepted-insert :
      (i : JournalIdentity) (r : AttemptRecord) (m : Map AttemptRecord)
      → AreAccepted i m
      → validate i r ≡ none
      → ltb (length m) max_journal_attempts ≡ true
      → AreAccepted i (insert (key_of r) r m)
  AreAccepted-insert i r m a v room = record {
    keyed = λ k s found. elim (at k s found) [ inl e ↦ e.0 | inr old ↦ a.keyed k s old ];
    valid = λ k s found. elim (at k s found) [ inl e ↦ e.1 | inr old ↦ a.valid k s old ];
    few = ground (arith, length-insert (key_of r) r m);
  }
    where
      at :
          (k : String) (s : AttemptRecord)
          → lookup k (insert (key_of r) r m) ≡ some s
          → ((key_of s ≡ k) × (validate i s ≡ none)) ⊎ (lookup k m ≡ some s)
      at k s found = elim (Bool-cases (key_of r == k)) [
        | inl hit ↦
            let same : r ≡ s = cc (rw (lookup-insert, hit) at found) in
            inl (ap key_of (sym same) ∙ (eq_iff (key_of r) k).0 hit, cc (v, same))
        | inr miss ↦ inr (rw (lookup-insert, miss) at found)
      ]

  pub load_files-Accepted :
      (i : JournalIdentity) (files : Map (Stored AttemptRecord)) (acc m : Map AttemptRecord)
      → AreAccepted i acc
      → load_files i files acc ≡ ok m
      → AreAccepted i m
  unfolding load_files
  load_files-Accepted i [] acc m a w = subst (AreAccepted i) (cc w) a
  load_files-Accepted i ((name, damaged) ∷ files) acc m a w = absurd (cc w)
  load_files-Accepted i ((name, intact r) ∷ files) acc m a w = elim (Option-cases (validate i r)) [
    | inr (e, bad) ↦ absurd (cc (rw (bad, load_files) at w))
    | inl v ↦ elim (Bool-cases (name == key_of r && ltb (length acc) max_journal_attempts)) [
      | inr bad ↦ absurd (cc (rw (v, bad, load_files) at w))
      | inl good ↦
          load_files-Accepted i files (insert (key_of r) r acc) m
            (AreAccepted-insert i r acc a v (ground arith)) (rw (v, good, load_files) at w)
    ]
  ]
