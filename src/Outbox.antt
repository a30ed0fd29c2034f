-- ===== src/Outbox.antt =====
-- internal/pool/result_outbox.go: the results that the pool has not acknowledged yet. `State` holds
-- the data and the outbox directory, `Operations` what queues, acknowledges and loads a result,
-- `Sending` one round of sending.
pub mod State
pub mod Operations
pub mod Sending
pub mod Soundness
pub mod Invariant
pub mod Reload
pub mod Survival
pub mod Acknowledged
pub mod Rounds
pub mod Batch
pub mod Histories
mod Examples
