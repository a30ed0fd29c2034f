-- ===== src/Dispatch.antt =====
-- internal/pool/client.go: what the client does with assignments, cancellations and acknowledgements.
pub mod Client
pub mod Starting
pub mod Assigning
pub mod Cancelling
pub mod Closed
pub mod Kept
pub mod Shut
pub mod Dropped
pub mod Cancelled
pub mod Histories
pub mod Limits
pub mod Invariants
pub mod Barred
pub mod Progress
pub mod Agent
mod Examples
