-- ===== src/Executor/Siblings.antt =====
-- What restoreOrphanSiblingJournals (internal/job/recovery.go) leaves of each entry of the journals'
-- root, and restoreJournal of a journal that was opened.
use text.Mathlib.TextEquality.{eq_iff}
use mathlib.Core.List.{Memᴰ}
use rungpu_agent.Base.{
  ℕ, String, true, List, [], ◌∷◌, Option, none, some, Map, lookup, All, All-map, All-at, string_eq,
  ◌≡◌, refl, sym, subst, ◌⊎◌, ◌==◌, Bool-cases, inl, inr,
}
use rungpu_agent.Digest.{Sha256}
use rungpu_agent.Journal.Records.{AttemptRecord, JournalIdentity, attempt_key}
use rungpu_agent.Journal.Store.{AttemptJournal, Disk, Stored, intact, damaged}
use rungpu_agent.Journal.Operations.{Outcome, ok, fail}
use rungpu_agent.Journal.Load.{open_journal}
use rungpu_agent.Journal.Lifecycle.{key_of}
use rungpu_agent.Journal.Runs.{Holds}
use rungpu_agent.Journal.Accepted.{open_journal-IsAccepted}
use rungpu_agent.Executor.State.{Executor}
use rungpu_agent.Executor.Kept.{IsStopped}
use rungpu_agent.Executor.Invariant.{IsSafe}
use rungpu_agent.Executor.Recovery.{Surroundings, restore_journal}
use rungpu_agent.Executor.Accounts.{IsUnresolved}
use rungpu_agent.Executor.Restored.{AllPresent, restore_journal-Accounts, restore_journal-IsSafe}
use rungpu_agent.Executor.Startup.{
  Lock, free, owned, refused, Entry, directory, plain_file, is_passed, peer_of, restore_sibling,
  restore_siblings, closed_executor, after_turn, Turn, passed, ended, recovered, SiblingError,
  Content, restore_peer, open_sibling, read_sibling, unexpected_entry,
}

-- Ranging over a map meets its values and no others.
pub record IsRange (range : Map AttemptRecord → List AttemptRecord) : Type 0 where
  pub present : (m : Map AttemptRecord) → All (λ r. (k : String) × (lookup k m ≡ some r)) (range m)
  pub complete :
      (m : Map AttemptRecord) (k : String) (r : AttemptRecord)
      → lookup k m ≡ some r
      → Memᴰ r (range m)

module _ ⦃h : Sha256⦄ where
  -- Of the journal that was opened: each record that is not resolved is tracked by an execution
  -- that holds its GPU, or has a verified stop in the executor's journal by now.
  pub record IsRecovered (gpu_id random_owner : String) (d : Disk) (e : Executor) : Type 0 where
    pub opened : AttemptJournal
    pub opens : (open_journal gpu_id random_owner d).1 ≡ ok opened
    pub safe : IsSafe e
    pub resolved :
        (k : String) (r : AttemptRecord)
        → lookup k opened.records ≡ some r
        → IsUnresolved gpu_id r
        → ((t : ℕ) × (lookup r.job_id e.executions ≡ some t) × ((e.heap t).is_held ≡ true))
          ⊎ Holds IsStopped (key_of r) e.journal

  -- What a start without error leaves of an entry of the journals' root.
  pub data IsAccounted (own : String) (es : List Executor) (x : Entry) : Type 0 where
    kept : is_passed own x.name ≡ true → IsAccounted own es x
    held_elsewhere : (d : Disk) → x.content ≡ directory owned d → IsAccounted own es x
    taken :
        (gpu_id random_owner : String) (d : Disk) (peer : Executor)
        → x.name ≡ attempt_key gpu_id ""
        → x.content ≡ directory (free random_owner) d
        → IsRecovered gpu_id random_owner d peer
        → Memᴰ (closed_executor peer) es
        → IsAccounted own es x

  module _ (range : Map AttemptRecord → List AttemptRecord) (s : String → Surroundings)
      (ranges : IsRange range) where
    pub IsRecovered-restore_journal :
        (e : Executor) (random_owner : String) (d : Disk) (j : AttemptJournal)
        → e.next ≡ 0
        → (open_journal e.gpu_id random_owner d).1 ≡ ok j
        → (restore_journal (s e.gpu_id) (range j.records) (record e { journal = j })).1 ≡ none
        → let e' : Executor =
            (restore_journal (s e.gpu_id) (range j.records) (record e { journal = j })).0 in
          (e'.gpu_id ≡ e.gpu_id) × IsRecovered e.gpu_id random_owner d e'
    IsRecovered-restore_journal e random_owner d j new opens w =
        let accepted = open_journal-IsAccepted e.gpu_id random_owner d j opens in
        let listed : AllPresent (range j.records) j =
          All-map
            (λ r p. subst (λ k. lookup k j.records ≡ some r) (sym (accepted.keyed p.0 r p.1)) p.1)
            (range j.records) (ranges.present j.records) in
        let (safe, resolved) =
          restore_journal-IsSafe (s e.gpu_id) (range j.records) (record e { journal = j }) new
            accepted.keyed listed w in
        let (kept_all, _) =
          restore_journal-Accounts (s e.gpu_id) (range j.records) (record e { journal = j }) new
            accepted.keyed listed w in
        (
          kept_all.same_gpu,
          record {
            opened = j;
            opens = opens;
            safe = safe;
            resolved = λ k r found.
                All-at _ r (range j.records) resolved (ranges.complete j.records k r found);
          },
        )

    -- What a turn of the loop says of its entry.
    abbrev Explains : String → Entry → Turn → Type 0
    Explains own x passed =
        (is_passed own x.name ≡ true) ⊎ ((d : Disk) × (x.content ≡ directory owned d))
    Explains own x (ended e) = Unit {0}
    Explains own x (recovered (peer, o)) =
        o ≡ none
        → (gpu_id : String) × (random_owner : String) × (d : Disk) × (x.name
            ≡ attempt_key gpu_id "")
          × (x.content ≡ directory (free random_owner) d)
          × IsRecovered gpu_id random_owner d peer

    restore_peer-Explains :
        (e : Executor) (own random_owner : String) (i : JournalIdentity) (x : Entry) (d : Disk)
        → x.name ≡ attempt_key i.gpu_id ""
        → x.content ≡ directory (free random_owner) d
        → (o : Outcome AttemptJournal) → (open_journal i.gpu_id random_owner d).1 ≡ o
        → Explains own x (restore_peer range s e i.gpu_id o)
    restore_peer-Explains e own random_owner i x d named at (fail bad) opens = tt
    restore_peer-Explains e own random_owner i x d named at (ok j) opens = λ w. (
      i.gpu_id,
      random_owner,
      d,
      named,
      at,
      (IsRecovered-restore_journal (peer_of e i.gpu_id j) random_owner d j refl opens w).1,
    )

    open_sibling-Explains :
        (e : Executor) (own : String) (i : JournalIdentity) (x : Entry) (lock : Lock) (d : Disk)
        → x.name ≡ attempt_key i.gpu_id ""
        → x.content ≡ directory lock d
        → Explains own x (open_sibling range s e i.gpu_id lock d)
    open_sibling-Explains e own i x owned d named at = inr (d, at)
    open_sibling-Explains e own i x refused d named at = tt
    open_sibling-Explains e own i x (free random_owner) d named at =
        restore_peer-Explains e own random_owner i x d named at _ refl

    read_sibling-Explains :
        (e : Executor) (own : String) (x : Entry) (lock : Lock) (d : Disk)
        → x.content ≡ directory lock d
        → (f : Option (Stored JournalIdentity))
        → Explains own x (read_sibling range s e x.name lock d f)
    read_sibling-Explains e own x lock d at none = tt
    read_sibling-Explains e own x lock d at (some damaged) = tt
    read_sibling-Explains e own x lock d at (some (intact i)) =
        elim (Bool-cases (x.name == attempt_key i.gpu_id "")) [
          | inl same ↦ rw same (
              open_sibling-Explains e own i x lock d
                ((eq_iff x.name (attempt_key i.gpu_id "")).0 same) at)
          | inr other ↦ rw other tt
        ]

    restore_sibling-Explains :
        (e : Executor) (x : Entry)
        → Explains (attempt_key e.gpu_id "") x (restore_sibling range s e x)
    unfolding restore_sibling
    restore_sibling-Explains e x = elim (Bool-cases (is_passed own x.name)) [
      | inl ours ↦ rw (ours, restore_sibling) (inl ours)
      | inr read ↦ rw (read, restore_sibling) (at x.content refl)
    ]
      where
        own : String
        own = attempt_key e.gpu_id ""

        at :
            (c : Content)
            → x.content ≡ c
            → Explains own x (elim c [
              | plain_file ↦ ended unexpected_entry
              | directory lock d ↦ read_sibling range s e x.name lock d d.identity_file
            ])
        at plain_file same = tt
        at (directory lock d) same = read_sibling-Explains e own x lock d same d.identity_file

    wider :
        (own : String) (peer : Executor) (es : List Executor) (x : Entry)
        → IsAccounted own es x
        → IsAccounted own (peer ∷ es) x
    wider own peer es x (kept k) = kept k
    wider own peer es x (held_elsewhere d at) = held_elsewhere d at
    wider own peer es x (taken gpu_id random_owner d e named at r m) =
        taken gpu_id random_owner d e named at r (Memᴰ.tail m)

    after_turn-Accounted :
        (own : String) (x : Entry) (xs : List Entry) (t : Turn)
        (rest : List Executor × Option SiblingError)
        → Explains own x t
        → (rest.1 ≡ none → All (IsAccounted own rest.0) xs)
        → (after_turn t rest).1 ≡ none
        → All (IsAccounted own (after_turn t rest).0) (x ∷ xs)
    after_turn-Accounted own x xs passed rest (inl k) later w = (kept k, later w)
    after_turn-Accounted own x xs passed rest (inr (d, at)) later w = (held_elsewhere d at, later w)
    after_turn-Accounted own x xs (ended bad) rest why later w = absurd (cc w)
    after_turn-Accounted own x xs (recovered (peer, some bad)) rest why later w = absurd (cc w)
    after_turn-Accounted own x xs (recovered (peer, none)) (es, o) why later w =
        let (gpu_id, random_owner, d, named, at, r) = why refl in
        (
          taken gpu_id random_owner d peer named at r (Memᴰ.head refl),
          All-map (wider own (closed_executor peer) es) xs (later w),
        )

    pub restore_siblings-Accounted :
        (e : Executor) (xs : List Entry)
        → (restore_siblings range s e xs).1 ≡ none
        → All (IsAccounted (attempt_key e.gpu_id "") (restore_siblings range s e xs).0) xs
    unfolding restore_siblings
    restore_siblings-Accounted e [] w = tt
    restore_siblings-Accounted e (x ∷ xs) w =
        after_turn-Accounted (attempt_key e.gpu_id "") x xs (restore_sibling range s e x)
          (restore_siblings range s e xs) (restore_sibling-Explains e x)
          (restore_siblings-Accounted e xs) w
