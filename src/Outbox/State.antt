-- ===== src/Outbox/State.antt =====
-- internal/pool/result_outbox.go: the pending results, their keys and their files.
use rungpu_agent.Base.{
  ℕ, String, ◌<>◌, string_eq, Bool, true, false, not, ◌&&◌, ◌||◌, List, [], ◌∷◌, Option, Map,
  insert, if◌then◌else◌, ◌==◌, ◌/=◌,
}
use rungpu_agent.Digest.{Sha256}
use rungpu_agent.Types.{JobResult, valid_job_id}
use rungpu_agent.Journal.Store.{AttemptJournal}

-- Instants and durations are in nanoseconds; the zero time is 0. `serial` tells one allocation of
-- the struct from another, where the code compares pointers.
pub record PendingResult : Type 0 where
  pub key : String
  pub result : JobResult
  pub durable : Bool
  pub next_attempt : ℕ
  pub retry_delay : ℕ
  pub serial : ℕ

-- What os.ReadFile and json.Unmarshal make of a file.
pub data OutboxFile : Type 0 where
  stored : JobResult → OutboxFile
  unreadable : OutboxFile

-- The part of a client that the outbox uses. `files` is the outbox directory: its files that are
-- named "….json", by the name before that ending. A file operation fails if the next of `faults`
-- says so, and leaves its file as it was; past the end of the list all succeed. `ready` is the
-- channel with room for one signal, `cancelled` the error of the session's context.
pub record Outbox : Type 0 where
  pub journal : Option AttemptJournal
  pub results : Map PendingResult
  pub files : Map OutboxFile
  pub ready : Bool
  pub cancelled : Bool
  pub next_serial : ℕ
  pub faults : List Bool

-- The next file operation: whether it succeeds, and the faults after it.
abbrev pub next_fault : List Bool → Bool × List Bool
next_fault [] = (true, [])
next_fault (fails ∷ rest) = (not fails, rest)

module _ ⦃h : Sha256⦄ where
  unfoldable pub attempt_result_key : String → String → String
  attempt_result_key id token = id <> "@" <> h.hex_sum token

  unfoldable pub is_foreign_key : String → JobResult → Bool
  is_foreign_key key r =
      not (valid_job_id r.job_id)
      || (key /= r.job_id
          && (r.dispatch_token == "" || key /= attempt_result_key r.job_id r.dispatch_token))

  -- The file holds the result itself: texts are valid UTF-8, and an empty result map is none.
  abbrev pub write_result : Bool × List Bool → String → JobResult → Outbox → Outbox × Bool
  write_result (true, faults) key r box =
      (record box { files = insert key (stored r) box.files; faults = faults }, true)
  write_result (false, faults) key r box = (record box { faults = faults }, false)

  -- Whether the result is in its file afterwards, and the outbox then. The temporary file and the
  -- rename are one operation, since a failure of either leaves the file.
  unfoldable pub persist_result_at_key : String → JobResult → Outbox → Outbox × Bool
  persist_result_at_key key r box =
      if is_foreign_key key r then (box, false) else write_result (next_fault box.faults) key r box
