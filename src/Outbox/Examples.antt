-- ===== src/Outbox/Examples.antt =====
-- internal/pool/result_outbox.go: an outbox with one result, at which the theorems are applied.
use mathlib.Core.List.{Memᴰ}
use rungpu_agent.Outbox.Batch.{IsDue, batch-IsDue}
use rungpu_agent.Base.{
  ◌≤◌, ◌≡◌, refl, subst, pos, String, string_eq, ◌⊎◌, Bool, true, false, [], ◌∷◌, none, some,
  lookup, insert, All, length,
}
use rungpu_agent.Digest.{Sha256, toy_sha256}
use rungpu_agent.Types.{JobResult, valid_job_id}
use rungpu_agent.Outbox.State.{PendingResult, stored, Outbox, is_foreign_key, persist_result_at_key}
use rungpu_agent.Outbox.Operations.{
  put_pending, add_persisted, add_result, queue_result, ack_result, load_pending_results,
}
use rungpu_agent.Outbox.Sending.{result_batch_size, batch, send_pending_results}
use rungpu_agent.Outbox.Soundness.{IsSound}
use rungpu_agent.Outbox.Invariant.{IsSound-queue_result}
use rungpu_agent.Outbox.Survival.{load_pending_results-durable}
use rungpu_agent.Outbox.Acknowledged.{Acknowledged, ack_result-Acknowledged}
use rungpu_agent.Outbox.Histories.{started, queued as queued_by, acked, IsSound-Reached}
use rungpu_agent.Outbox.Rounds.{IsSound-send_pending_results}

instance abbrev sha : Sha256
sha = toy_sha256 "token-1"

abbrev result : JobResult
result = record {
  job_id = "job-1";
  dispatch_token = "token-1";
  gpu_id = "gpu";
  success = true;
  result = none;
  error = "";
  duration_ms = pos 12;
}

abbrev empty : Outbox
empty = record {
  journal = none;
  results = [];
  files = [];
  ready = false;
  cancelled = false;
  next_serial = 0;
  faults = [];
}

abbrev pending : PendingResult
pending = record {
  key = "job-1";
  result = result;
  durable = true;
  next_attempt = 0;
  retry_delay = 0;
  serial = 0;
}

abbrev queued : Outbox
queued = record empty {
  results = ("job-1", pending) ∷ [];
  files = ("job-1", stored result) ∷ [];
  ready = true;
  next_serial = 1;
}

queue_first : queue_result result empty ≡ queued
unfolding queue_result add_result add_persisted put_pending persist_result_at_key is_foreign_key
    valid_job_id lookup insert
queue_first = refl

IsSound-empty : IsSound empty
unfolding lookup
IsSound-empty key p e = absurd (cc e)

IsSound-queued : IsSound queued
IsSound-queued = subst IsSound queue_first (IsSound-queue_result result empty IsSound-empty)

found : lookup "job-1" queued.results ≡ some pending
unfolding lookup
found = refl

load_pending_results-durable_example :
    (q : PendingResult) × (lookup "job-1"
        (load_pending_results (record empty { files = queued.files })).results
      ≡ some q)
    × (q.result ≡ result)
    × (q.durable ≡ true)
    × (q.next_attempt ≡ 0)
load_pending_results-durable_example =
    load_pending_results-durable queued (record empty { files = queued.files }) "job-1" pending
      IsSound-queued refl refl refl found refl

ack_result-Acknowledged_example :
    Acknowledged "job-1" "token-1" queued (ack_result "job-1" "token-1" queued)
ack_result-Acknowledged_example = ack_result-Acknowledged "job-1" "token-1" queued

batch-IsDue_example :
    (length (batch queued 5) ≤ result_batch_size)
    × All (IsDue queued 5) (batch queued 5)
    × ((key : String) (p : PendingResult)
        → lookup key queued.results ≡ some p
        → IsDue queued 5 p
        → Memᴰ p (batch queued 5)
          ⊎ ((length (batch queued 5) ≡ result_batch_size)
              × All (λ q. q.next_attempt ≤ p.next_attempt) (batch queued 5)))
batch-IsDue_example = batch-IsDue queued 5

abbrev sends : JobResult → Outbox → Outbox × Bool
sends r box = (box, true)

IsSound-send_pending_results_example : IsSound (send_pending_results sends 5 queued).0
IsSound-send_pending_results_example =
    IsSound-send_pending_results sends 5 (λ r box sound. sound) queued IsSound-queued

IsSound-Reached_example : IsSound (ack_result "job-1" "token-1" (queue_result result empty)).0
IsSound-Reached_example =
    IsSound-Reached (ack_result "job-1" "token-1" (queue_result result empty)).0
      (acked "job-1" "token-1" _ (queued_by result empty (started empty refl)))
