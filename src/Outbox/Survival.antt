-- ===== src/Outbox/Survival.antt =====
-- internal/pool/result_outbox.go: a durable result is there again after a restart.
use rungpu_agent.Base.{
  ◌≡◌, refl, sym, ap, subst, ◌∙◌, inl, inr, String, string_eq, true, false, List, [], ◌∷◌, Option,
  none, some, Map, keys, contains, lookup, lookup-insert, lookup-insert_self, if◌then◌else◌, ◌==◌,
  Bool-cases, arith,
}
use text.Mathlib.TextEquality.{eq_iff}
use rungpu_agent.Digest.{Sha256}
use rungpu_agent.Types.{JobResult}
use rungpu_agent.Outbox.State.{
  PendingResult, OutboxFile, stored, Outbox, next_fault, is_foreign_key,
}
use rungpu_agent.Outbox.Operations.{
  new_pending, put_pending, is_present, load_content, load_result_files, all_due,
  load_pending_results,
}
use rungpu_agent.Outbox.Soundness.{IsSound, some_value}
use rungpu_agent.Outbox.Reload.{
  Loads, skipped, added, Loads-load_content, IsLoaded, IsLoaded-Loads, own-key_in_file,
}

contains-keys {ℓ} :
    {V : Type ℓ} (k : String) (m : Map V) (v : V) → lookup k m ≡ some v → contains k (keys m) ≡ true
unfolding lookup
contains-keys k [] v e = absurd (cc e)
contains-keys k ((j, w) ∷ m) v e = ground (arith, e, contains-keys k m v)

module _ ⦃h : Sha256⦄ where
  Present : String → Outbox → Type 0
  Present key box = (q : PendingResult) × (lookup key box.results ≡ some q)

  Present-Loads :
      (name key : String) (box after : Outbox)
      → Loads name box after
      → Present key box
      → Present key after
  unfolding put_pending Present
  Present-Loads name key box _ skipped p = p
  Present-Loads name key box _ (added r found own absent) (q, e) = elim (Bool-cases (name == key)) [
    | inl same ↦ (
      new_pending name r true box.next_serial,
      ground (
        arith,
        lookup-insert name key (new_pending name r true box.next_serial) box.results,
        same,
      ),
    )
    | inr other ↦ (
      q,
      ground (
        arith,
        lookup-insert name key (new_pending name r true box.next_serial) box.results,
        other,
        e,
      ),
    )
  ]

  -- A file with a result of its own key is loaded.
  Present-load_content :
      (key : String) (r : JobResult) (box : Outbox)
      → lookup key box.files ≡ some (stored r)
      → is_foreign_key key r ≡ false
      → Present key (load_content key (lookup key box.files) box)
  unfolding put_pending Present
  Present-load_content key r box found own =
      rw (found, own-key_in_file key r own) (present_cases (lookup key box.results) refl)
    where
      present_cases :
          (o : Option PendingResult)
          → lookup key box.results ≡ o
          → Present key (if is_present o then box else put_pending key r (box, true))
      present_cases none e =
          (_, lookup-insert_self key (new_pending key r true box.next_serial) box.results)
      present_cases (some p) e = (p, e)

  IsLoaded-load_result_files :
      (files : Map OutboxFile) (names : List String) (box : Outbox)
      → IsLoaded files box
      → IsLoaded files (load_result_files names box)
  unfolding load_result_files
  IsLoaded-load_result_files files [] box l = l
  IsLoaded-load_result_files files (name ∷ names) box l =
      IsLoaded-load_result_files files names _
        (IsLoaded-Loads files name box _ (Loads-load_content name box) l)

  Present-load_result_files :
      (files : Map OutboxFile) (key : String) (names : List String) (box : Outbox)
      → Present key box
      → Present key (load_result_files names box)
  unfolding load_result_files
  Present-load_result_files files key [] box p = p
  Present-load_result_files files key (name ∷ names) box p =
      Present-load_result_files files key names _
        (Present-Loads name key box _ (Loads-load_content name box) p)

  listed-Present :
      (files : Map OutboxFile) (key : String) (r : JobResult) (names : List String) (box : Outbox)
      → IsLoaded files box
      → lookup key files ≡ some (stored r)
      → is_foreign_key key r ≡ false
      → contains key names ≡ true
      → Present key (load_result_files names box)
  unfolding load_result_files
  listed-Present files key r [] box l found own c = absurd (ground (arith, c))
  listed-Present files key r (name ∷ names) box l found own c = elim (Bool-cases (name == key)) [
    | inl same ↦
        let here = (eq_iff name key).0 same in
        Present-load_result_files files key names _ (
          subst (λ n. Present key (load_content n (lookup n box.files) box)) (sym here)
            (Present-load_content key r box (ap (lookup key) l.same_files ∙ found) own))
    | inr other ↦
        listed-Present files key r names _
          (IsLoaded-Loads files name box _ (Loads-load_content name box) l) found own
          (ground (arith, c, other))
  ]

  -- all_due changes the next attempt only.
  lookup-all_due :
      (key : String) (m : Map PendingResult) (p : PendingResult)
      → lookup key m ≡ some p
      → lookup key (all_due m) ≡ some (record p { next_attempt = 0 })
  unfolding all_due lookup
  lookup-all_due key [] p e = absurd (cc e)
  lookup-all_due key ((j, q) ∷ m) p e = elim (Bool-cases (j == key)) [
    | inl same ↦
        let found : some q ≡ some p = ground (arith, e, same) in
        rw (same) (
          ap {A = PendingResult} (λ x. some (record x { next_attempt = 0 })) (some_value q p found))
    | inr other ↦ rw (other) (lookup-all_due key m p (ground (arith, e, other)))
  ]

  IsLoaded-empty :
      (files : Map OutboxFile) (box : Outbox)
      → box.files ≡ files
      → box.results ≡ []
      → IsLoaded files box
  unfolding lookup
  IsLoaded-empty files box same empty = record {
    same_files = same;
    entries = λ key p e. absurd (cc (e, nothing key));
    all_durable = λ key p e. absurd (cc (e, nothing key));
  }
    where
      nothing : (key : String) → lookup key box.results ≡ none
      nothing key = ap (lookup key) empty

  stored_value : (r s : JobResult) → some (stored r) ≡ some (stored s) → r ≡ s
  stored_value r s e = cc e

  -- What the pending results of the load are, before they are made due.
  loaded_result :
      (box listed : Outbox) (key : String) (p : PendingResult)
      → IsSound box
      → listed.files ≡ box.files
      → listed.results ≡ []
      → lookup key box.results ≡ some p
      → p.durable ≡ true
      → (q : PendingResult) × (lookup key (load_result_files (keys listed.files) listed).results
          ≡ some q)
        × (q.result ≡ p.result)
        × (q.durable ≡ true)
  unfolding Present
  loaded_result box listed key p sound files empty e d =
      let entry = sound key p e in
      let found = entry.in_file d in
      let start = IsLoaded-empty box.files listed files empty in
      let name = contains-keys key listed.files (stored p.result) (ap (lookup key) files ∙ found) in
      let (q, at) =
        listed-Present box.files key p.result (keys listed.files) listed start found
          entry.own_result name in
      let l = IsLoaded-load_result_files box.files (keys listed.files) listed start in
      let durable = l.all_durable key q at in
      let same = sym ((l.entries key q at).in_file durable) ∙ found in
      (q, at, stored_value q.result p.result same, durable)

  -- Of an outbox in which durable results are in their files under their own keys: after a restart
  -- with the directory as it was, and readable, loadPendingResults finds every result that was
  -- pending and durable, the same result under the same key, durable and due at once.
  pub load_pending_results-durable :
      (box restarted : Outbox) (key : String) (p : PendingResult)
      → IsSound box
      → restarted.files ≡ box.files
      → restarted.results ≡ []
      → (next_fault restarted.faults).0 ≡ true
      → lookup key box.results ≡ some p
      → p.durable ≡ true
      → (q : PendingResult) × (lookup key (load_pending_results restarted).results ≡ some q)
        × (q.result ≡ p.result)
        × (q.durable ≡ true)
        × (q.next_attempt ≡ 0)
  unfolding load_pending_results
  load_pending_results-durable box restarted key p sound files empty readable e d =
      let (q, at, same, durable) =
        loaded_result box (record restarted { faults = (next_fault restarted.faults).1 }) key p
          sound files empty e d in
      rw (readable) (record q { next_attempt = 0 }, lookup-all_due key _ q at, same, durable, refl)
