-- ===== src/Outbox/Operations.antt =====
-- internal/pool/result_outbox.go: queueResult, queueAttemptRejection, ackResult and
-- loadPendingResults. Each runs under the client's mutex, so it is one step.
use rungpu_agent.Base.{
  ℕ, suc, String, string_eq, Bool, true, false, not, ◌&&◌, ◌||◌, List, [], ◌∷◌, Option, none, some,
  Map, lookup, insert, delete, keys, if◌then◌else◌, ◌==◌, ◌/=◌,
}
use rungpu_agent.Digest.{Sha256}
use rungpu_agent.Types.{JobResult, valid_job_id}
use rungpu_agent.Journal.Records.{JournalError}
use rungpu_agent.Journal.Store.{AttemptJournal}
use rungpu_agent.Journal.Operations.{remember_result, accept}
use rungpu_agent.Outbox.State.{
  PendingResult, OutboxFile, stored, unreadable, Outbox, next_fault, attempt_result_key,
  persist_result_at_key,
}

module _ ⦃h : Sha256⦄ where
  -- A call of the journal, if the client has one: whether it returns an error.
  abbrev pub in_journal_at :
      Option AttemptJournal
      → (AttemptJournal → AttemptJournal × Option JournalError)
      → Outbox
      → Outbox × Option JournalError
  in_journal_at none call box = (box, none)
  in_journal_at (some j) call box =
      let (after, error) = call j in (record box { journal = some after }, error)

  abbrev pub in_journal :
      (AttemptJournal → AttemptJournal × Option JournalError)
      → Outbox
      → Outbox × Option JournalError
  in_journal call box = in_journal_at box.journal call box

  abbrev pub new_pending : String → JobResult → Bool → ℕ → PendingResult
  new_pending key r durable serial = record {
    key = key;
    result = r;
    durable = durable;
    next_attempt = 0;
    retry_delay = 0;
    serial = serial;
  }

  -- c.results[key] = &pendingResult{…}.
  unfoldable pub put_pending : String → JobResult → Outbox × Bool → Outbox
  put_pending key r (box, durable) = record box {
    results = insert key (new_pending key r durable box.next_serial) box.results;
    next_serial = suc box.next_serial;
  }

  unfoldable pub add_persisted : String → JobResult → Outbox × Option JournalError → Outbox
  add_persisted key r (box, some e) = box
  add_persisted key r (box, none) =
      let added = put_pending key r (persist_result_at_key key r box) in
      record added { ready = true }

  -- What both functions do with a result that is new: the journal remembers it, else it is
  -- withheld; then it is written, and pending even if the write fails.
  unfoldable pub add_result : String → JobResult → Outbox → Outbox
  add_result key r box = add_persisted key r (in_journal (remember_result r) box)

  -- A pending result stays, unless it and the new one have no dispatch token.
  abbrev pub keeps_pending : Option PendingResult → JobResult → Bool
  keeps_pending none r = false
  keeps_pending (some p) r = p.result.dispatch_token /= "" || r.dispatch_token /= ""

  unfoldable pub queue_result : JobResult → Outbox → Outbox
  queue_result r box =
      if not (valid_job_id r.job_id) || keeps_pending (lookup r.job_id box.results) r
      then box
      else add_result r.job_id r box

  abbrev pub is_present : Option PendingResult → Bool
  is_present none = false
  is_present (some p) = true

  unfoldable pub queue_attempt_rejection : JobResult → Outbox → Outbox
  queue_attempt_rejection r box =
      let key = attempt_result_key r.job_id r.dispatch_token in
      if not (valid_job_id r.job_id)
        || r.dispatch_token == ""
        || is_present (lookup key box.results)
      then box
      else add_result key r box

  -- os.Remove and delete: a file that is not there is no error.
  abbrev pub drop_at : Bool × List Bool → String → Outbox → Outbox × Bool
  drop_at (true, faults) key box = (
    record box { results = delete key box.results; files = delete key box.files; faults = faults },
    true,
  )
  drop_at (false, faults) key box = (record box { faults = faults }, false)

  unfoldable pub drop_result : String → Outbox → Outbox × Bool
  drop_result key box = drop_at (next_fault box.faults) key box

  -- The key of the result that an acknowledgement is about.
  unfoldable pub acked_key : String → String → Outbox → String
  acked_key id token box =
      if token /= "" && is_present (lookup (attempt_result_key id token) box.results)
      then attempt_result_key id token
      else id

  pub record Ack : Type 0 where
    pub canonical : Bool
    pub token : String

  abbrev pub answer : String → String → PendingResult → Outbox × Bool → Outbox × Option Ack
  answer key id p (box, false) = (box, none)
  answer key id p (box, true) =
      (box, some (record { canonical = key == id; token = p.result.dispatch_token }))

  unfoldable pub drop_accepted :
      String → String → PendingResult → Outbox × Option JournalError → Outbox × Option Ack
  drop_accepted key id p (box, some e) = (box, none)
  drop_accepted key id p (box, none) = answer key id p (drop_result key box)

  unfoldable pub ack_pending :
      String → String → String → Option PendingResult → Outbox → Outbox × Option Ack
  ack_pending key id token none box = (box, none)
  ack_pending key id token (some p) box =
      if p.result.dispatch_token /= "" && p.result.dispatch_token /= token
      then (box, none)
      else drop_accepted key id p (in_journal (accept id p.result.dispatch_token) box)

  -- `none` is accepted = false.
  unfoldable pub ack_result : String → String → Outbox → Outbox × Option Ack
  ack_result id token box =
      let key = acked_key id token box in ack_pending key id token (lookup key box.results) box

  -- The key of a result that stands in a file of this name.
  unfoldable pub key_in_file : String → JobResult → Option String
  key_in_file name r =
      if not (valid_job_id r.job_id)
      then none
      else if name == r.job_id
      then some r.job_id
      else if r.dispatch_token == "" || name /= attempt_result_key r.job_id r.dispatch_token
      then none
      else some (attempt_result_key r.job_id r.dispatch_token)

  abbrev pub load_at : Option String → JobResult → Outbox → Outbox
  load_at none r box = box
  load_at (some key) r box =
      if is_present (lookup key box.results) then box else put_pending key r (box, true)

  abbrev pub load_content : String → Option OutboxFile → Outbox → Outbox
  load_content name (some (stored r)) box = load_at (key_in_file name r) r box
  load_content name (some unreadable) box = box
  load_content name none box = box

  unfoldable pub load_result_files : List String → Outbox → Outbox
  load_result_files [] box = box
  load_result_files (name ∷ names) box =
      load_result_files names (load_content name (lookup name box.files) box)

  unfoldable pub all_due : Map PendingResult → Map PendingResult
  all_due [] = []
  all_due ((key, p) ∷ rest) = (key, record p { next_attempt = 0 }) ∷ all_due rest

  -- The names that os.ReadDir returns.
  unfoldable pub load_pending_results : Outbox → Outbox
  load_pending_results box =
      let (readable, faults) = next_fault box.faults in
      let listed = record box { faults = faults } in
      let loaded = load_result_files (if readable then keys box.files else []) listed in
      record loaded { results = all_due loaded.results }
