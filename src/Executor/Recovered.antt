-- ===== src/Executor/Recovered.antt =====
-- After NewExecutorWithOptions (internal/job/executor.go, internal/job/recovery.go) no attempt of
-- any journal that this agent may open is left without an owner.
use rungpu_agent.Base.{String, List, Option, none, some, Map, All, string_eq, ◌≡◌, refl, subst}
use rungpu_agent.Digest.{Sha256}
use rungpu_agent.Journal.Records.{AttemptRecord, attempt_key}
use rungpu_agent.Journal.Store.{AttemptJournal, Disk}
use rungpu_agent.Journal.Operations.{Outcome, ok, fail}
use rungpu_agent.Journal.Load.{open_journal}
use rungpu_agent.Executor.State.{Executor}
use rungpu_agent.Executor.Recovery.{Surroundings, RecoveryError, restore_journal}
use rungpu_agent.Executor.Startup.{
  Lock, free, owned, refused, Entry, restore_siblings, ready, new_executor, SiblingError,
  with_siblings, with_restored, with_opened,
}
use rungpu_agent.Executor.Siblings.{
  IsRange, IsRecovered, IsAccounted, IsRecovered-restore_journal, restore_siblings-Accounted,
}

module _ ⦃h : Sha256⦄ (range : Map AttemptRecord → List AttemptRecord) (s : String → Surroundings)
    (ranges : IsRange range) where
  -- When NewExecutorWithOptions succeeds, the executor satisfies its invariant, and every record
  -- of its journal that has no verified stop and may have been admitted, or that is an unverified
  -- entry of its old outbox, is tracked by an execution that holds the GPU, or has a verified
  -- stop in the journal by now. Of every entry of the journals' root, it is one of the files and
  -- directories that are passed over, or another process holds its journal, or the same is true
  -- of a peer that was restored from it and closed. This is for any content of the directories, a
  -- new executor, and a ranging over maps that meets each value and no other.
  pub new_executor-IsRecovered :
      (e : Executor) (lock : Lock) (d : Disk) (entries : List Entry) (e' : Executor)
      (es : List Executor)
      → e.next ≡ 0
      → new_executor range s e lock d entries ≡ ready e' es
      → (random_owner : String) × (lock ≡ free random_owner)
        × IsRecovered e.gpu_id random_owner d e'
        × All (IsAccounted (attempt_key e.gpu_id "") es) entries
  unfolding new_executor
  new_executor-IsRecovered e owned d entries e' es new w = absurd (cc w)
  new_executor-IsRecovered e refused d entries e' es new w = absurd (cc w)
  new_executor-IsRecovered e (free random_owner) d entries e' es new w =
      let (r, accounted) = at_opened (open_journal e.gpu_id random_owner d).1 refl w in
      (random_owner, refl, r, accounted)
    where
      Result : Type 0
      Result =
          IsRecovered e.gpu_id random_owner d e'
          × All (IsAccounted (attempt_key e.gpu_id "") es) entries

      at_siblings :
          (x : Executor)
          → x.gpu_id ≡ e.gpu_id
          → IsRecovered e.gpu_id random_owner d x
          → (q : List Executor × Option SiblingError)
          → (q.1 ≡ none → All (IsAccounted (attempt_key x.gpu_id "") q.0) entries)
          → with_siblings x q ≡ ready e' es
          → Result
      at_siblings x same r (peers, some bad) accounted w = absurd (cc w)
      at_siblings x same r (peers, none) accounted w = (
        subst (IsRecovered e.gpu_id random_owner d) (cc w) r,
        subst (λ ps. All (IsAccounted (attempt_key e.gpu_id "") ps) entries) (cc w)
            (subst (λ g. All (IsAccounted (attempt_key g "") peers) entries) same (accounted refl)),
      )

      at_restored :
          (p : Executor × Option RecoveryError)
          → (p.1 ≡ none → (p.0.gpu_id ≡ e.gpu_id) × IsRecovered e.gpu_id random_owner d p.0)
          → with_restored range s entries p ≡ ready e' es
          → Result
      at_restored (x, some bad) restored w = absurd (cc w)
      at_restored (x, none) restored w =
          at_siblings x (restored refl).0 (restored refl).1 (restore_siblings range s x entries)
            (restore_siblings-Accounted range s ranges x entries) w

      at_opened :
          (o : Outcome AttemptJournal)
          → (open_journal e.gpu_id random_owner d).1 ≡ o
          → with_opened range s entries e o ≡ ready e' es
          → Result
      at_opened (fail bad) opens w = absurd (cc w)
      at_opened (ok j) opens w =
          at_restored (restore_journal (s e.gpu_id) (range j.records) (record e { journal = j }))
            (IsRecovered-restore_journal range s ranges e random_owner d j new opens) w
