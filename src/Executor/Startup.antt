-- ===== src/Executor/Startup.antt =====
-- internal/job/executor.go, NewExecutorWithOptions from the opening of the journal, and
-- internal/job/recovery.go, restoreOrphanSiblingJournals. The journals of a machine's GPUs are the
-- directories of one root; the root's own file and its locks answer from outside. What a failed
-- opening leaves on the disk is dropped here.
use rungpu_agent.Base.{
  String, Bool, ◌||◌, List, [], ◌∷◌, Option, none, some, Map, codes, has_prefix, ◌==◌, string_eq,
  if◌then◌else◌,
}
use rungpu_agent.Digest.{Sha256}
use rungpu_agent.Journal.Records.{AttemptRecord, JournalIdentity, JournalError, attempt_key}
use rungpu_agent.Journal.Store.{AttemptJournal, Disk, Stored, intact, damaged}
use rungpu_agent.Journal.Operations.{Outcome, ok, fail, close}
use rungpu_agent.Journal.Load.{open_journal}
use rungpu_agent.Executor.State.{Executor}
use rungpu_agent.Executor.Recovery.{Surroundings, RecoveryError, restore_journal}

-- What openAttemptJournal meets before it reads a journal's directory: the lock is free, and the
-- random owner is the one for a new identity; another process holds it (ErrJournalOwned); or the
-- root, the directory or the lock file is refused.
pub data Lock : Type 0 where
  free : String → Lock
  owned : Lock
  refused : Lock

pub data Content : Type 0 where
  plain_file : Content
  directory : Lock → Disk → Content

pub record Entry : Type 0 where
  pub name : String
  pub content : Content

pub data SiblingError : Type 0 where
  unexpected_entry : SiblingError
  unreadable_identity : SiblingError
  sibling_mismatch : SiblingError
  sibling_refused : SiblingError
  sibling_not_opened : JournalError → SiblingError
  sibling_not_restored : RecoveryError → SiblingError

-- One turn of the loop: the entry is passed over, it ends the loop, or a journal is opened and
-- restoreJournal has run on it.
pub data Turn : Type 0 where
  passed : Turn
  ended : SiblingError → Turn
  recovered : Executor × Option RecoveryError → Turn

-- `own` is the base name of the executor's own journal.
unfoldable pub is_passed : String → String → Bool
is_passed own name =
    name == ".machine.lock"
    || name == ".identity.lock"
    || name == "machine.json"
    || has_prefix (codes name) (codes ".stage-")
    || name == own

-- The peer of restoreOrphanSiblingJournals; no number of its heap is used yet.
abbrev pub peer_of : Executor → String → AttemptJournal → Executor
peer_of e gpu_id j = record {
  backend = "";
  gpu_id = gpu_id;
  has_gate = e.has_gate;
  heap = e.heap;
  next = 0;
  executions = [];
  inflight = [];
  workspaces = [];
  journal = j;
}

abbrev pub closed_executor : Executor → Executor
closed_executor e = record e { journal = close e.journal }

-- After the turn the peer's journal is closed. Go drops the peer; the leases of its executions
-- stay, so the executors of the restored journals are kept here.
abbrev pub after_turn :
    Turn → List Executor × Option SiblingError → List Executor × Option SiblingError
after_turn passed rest = rest
after_turn (ended x) rest = ([], some x)
after_turn (recovered (e, none)) (es, x) = (closed_executor e ∷ es, x)
after_turn (recovered (e, some x)) rest = (closed_executor e ∷ [], some (sibling_not_restored x))

-- How NewExecutorWithOptions ends. On an error its own journal is closed.
pub data Startup : Type 0 where
  locked : Startup
  not_opened : JournalError → Startup
  not_restored : RecoveryError → Executor → Startup
  not_alone : SiblingError → Executor → List Executor → Startup
  ready : Executor → List Executor → Startup

abbrev pub with_siblings : Executor → List Executor × Option SiblingError → Startup
with_siblings e (es, none) = ready e es
with_siblings e (es, some x) = not_alone x (closed_executor e) es

-- `range` is the order in which Go ranges over a map; `s` answers for the GPU of a journal.
module _ ⦃h : Sha256⦄ (range : Map AttemptRecord → List AttemptRecord)
    (s : String → Surroundings) where
  abbrev pub restore_peer : Executor → String → Outcome AttemptJournal → Turn
  restore_peer e gpu_id (fail x) = ended (sibling_not_opened x)
  restore_peer e gpu_id (ok j) =
      recovered (restore_journal (s gpu_id) (range j.records) (peer_of e gpu_id j))

  abbrev pub open_sibling : Executor → String → Lock → Disk → Turn
  open_sibling e gpu_id owned d = passed
  open_sibling e gpu_id refused d = ended sibling_refused
  open_sibling e gpu_id (free random_owner) d =
      restore_peer e gpu_id (open_journal gpu_id random_owner d).1

  -- The journal's directory, by what its identity.json holds.
  abbrev pub read_sibling : Executor → String → Lock → Disk → Option (Stored JournalIdentity) → Turn
  read_sibling e name lock d none = ended unreadable_identity
  read_sibling e name lock d (some damaged) = ended unreadable_identity
  read_sibling e name lock d (some (intact i)) =
      if name == attempt_key i.gpu_id ""
      then open_sibling e i.gpu_id lock d
      else ended sibling_mismatch

  unfoldable pub restore_sibling : Executor → Entry → Turn
  restore_sibling e x =
      if is_passed (attempt_key e.gpu_id "") x.name then passed else (elim x.content [
        | plain_file ↦ ended unexpected_entry
        | directory lock d ↦ read_sibling e x.name lock d d.identity_file
      ])

  unfoldable pub restore_siblings : Executor → List Entry → List Executor × Option SiblingError
  unfolding restore_sibling
  restore_siblings e [] = ([], none)
  restore_siblings e (x ∷ xs) = after_turn (restore_sibling e x) (restore_siblings e xs)

  abbrev pub with_restored : List Entry → Executor × Option RecoveryError → Startup
  with_restored entries (e, none) = with_siblings e (restore_siblings e entries)
  with_restored entries (e, some x) = not_restored x (closed_executor e)

  -- `e` has the options of the executor; its journal is not open yet.
  abbrev pub with_opened : List Entry → Executor → Outcome AttemptJournal → Startup
  with_opened entries e (fail x) = not_opened x
  with_opened entries e (ok j) =
      with_restored entries
        (restore_journal (s e.gpu_id) (range j.records) (record e { journal = j }))

  unfoldable pub new_executor : Executor → Lock → Disk → List Entry → Startup
  unfolding restore_siblings
  new_executor e owned d entries = locked
  new_executor e refused d entries = locked
  new_executor e (free random_owner) d entries =
      with_opened entries e (open_journal e.gpu_id random_owner d).1
