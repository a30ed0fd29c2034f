-- ===== src/Outbox/Sending.antt =====
-- internal/pool/result_outbox.go: sendPendingResults, one round of sending the results that are
-- due. `write` is the caller's function: it runs without the mutex, so it returns the outbox as
-- other goroutines have left it by then, the session's context included.
use Prim.Native.String.{compare}
use Prim.Native.Nat.{Ordering}
use rungpu_agent.Base.{
  ℕ, ◌+◌, ◌*◌, min, ltb, String, Bool, true, false, not, ◌&&◌, List, [], ◌∷◌, take, Option, none,
  some, Map, lookup, insert, if◌then◌else◌, ◌==◌, nat_eq,
}
use rungpu_agent.Digest.{Sha256}
use rungpu_agent.Types.{JobResult}
use rungpu_agent.Journal.Records.{AttemptRecord}
use rungpu_agent.Journal.Store.{AttemptJournal}
use rungpu_agent.Journal.Operations.{find}
use rungpu_agent.Outbox.State.{PendingResult, Outbox, persist_result_at_key}

abbrev pub second : ℕ
second = 1000000000

abbrev pub result_retry_min : ℕ
result_retry_min = 2 * second

abbrev pub result_retry_max : ℕ
result_retry_max = 30 * second

abbrev pub result_batch_size : ℕ
result_batch_size = 64

unfoldable pub next_delay : ℕ → ℕ
next_delay delay = if delay == 0 then result_retry_min else min (delay * 2) result_retry_max

-- The order of sort.Slice: by the next attempt, then by the job.
abbrev pub is_text_before : String → String → Bool
is_text_before a b = elim (compare a b) [ Ordering.lt ↦ true | _ ↦ false ]

unfoldable pub is_due_before : PendingResult → PendingResult → Bool
is_due_before p q =
    if p.next_attempt == q.next_attempt
    then is_text_before p.result.job_id q.result.job_id
    else ltb p.next_attempt q.next_attempt

unfoldable pub insert_due : PendingResult → List PendingResult → List PendingResult
insert_due p [] = p ∷ []
insert_due p (q ∷ due) = if is_due_before q p then q ∷ insert_due p due else p ∷ q ∷ due

unfoldable pub sort_due : List PendingResult → List PendingResult
sort_due [] = []
sort_due (p ∷ due) = insert_due p (sort_due due)

module _ ⦃h : Sha256⦄ where
  abbrev pub blocks_replay : Option AttemptRecord → Bool
  blocks_replay none = false
  blocks_replay (some r) = r.replay_blocked

  unfoldable pub is_blocked : Option AttemptJournal → PendingResult → Bool
  is_blocked none p = false
  is_blocked (some j) p = blocks_replay (find j p.result.job_id p.result.dispatch_token)

  unfoldable pub is_due : Outbox → ℕ → PendingResult → Bool
  is_due box now p = not (is_blocked box.journal p) && not (ltb now p.next_attempt)

  unfoldable pub due_results : Outbox → ℕ → Map PendingResult → List PendingResult
  due_results box now [] = []
  due_results box now ((key, p) ∷ rest) =
      let due = due_results box now rest in if is_due box now p then p ∷ due else due

  unfoldable pub batch : Outbox → ℕ → List PendingResult
  batch box now = take result_batch_size (sort_due (due_results box now box.results))

  -- The pending result of a batch, if it still is the one under its key.
  abbrev pub same_pending : PendingResult → Option PendingResult → Option PendingResult
  same_pending p none = none
  same_pending p (some q) = if q.serial == p.serial then some q else none

  unfoldable pub current : PendingResult → Outbox → Option PendingResult
  current p box = same_pending p (lookup p.key box.results)

  abbrev pub retry_if_needed : PendingResult → Outbox → Outbox × Bool
  retry_if_needed p box =
      if p.durable then (box, true) else persist_result_at_key p.key p.result box

  -- What is done under the mutex before a result is written to the connection.
  abbrev pub update_pending : ℕ → PendingResult → Outbox × Bool → Outbox
  update_pending now p (box, durable) =
      let delay = next_delay p.retry_delay in
      record box {
        results =
            insert p.key
              (record p { durable = durable; retry_delay = delay; next_attempt = now + delay })
              box.results;
      }

  unfoldable pub prepare : ℕ → PendingResult → Outbox → Outbox
  prepare now p box = update_pending now p (retry_if_needed p box)

  module _ (write : JobResult → Outbox → Outbox × Bool) (now : ℕ) where
    unfoldable pub send_due : List PendingResult → Outbox → Outbox × Bool
    send_due [] box = (box, true)
    send_due (p ∷ due) box = if box.cancelled then (box, false) else elim (current p box) [
      | none ↦ send_due due box
      | some q ↦
          let (after, sent) = write q.result (prepare now q box) in
          elim sent [ true ↦ send_due due after | false ↦ (after, false) ]
    ]

    unfoldable pub send_pending_results : Outbox → Outbox × Bool
    send_pending_results box = send_due (batch box now) box
