-- ===== src/Executor.antt =====
-- internal/job/executor.go: how long a job may run, and the state machine of the executions.
pub mod Timeout
pub mod Bounds
pub mod State
pub mod Start
pub mod Run
pub mod Cancel
pub mod Histories
pub mod Kept
pub mod Invariant
pub mod Extension
pub mod Joining
pub mod Running
pub mod Cancelling
pub mod Safety
pub mod Promises
pub mod Shapes
pub mod Gpu
pub mod Refinement
pub mod Confirmed
pub mod Recovery
pub mod Opening
pub mod Resolved
pub mod Accounts
pub mod Restored
pub mod Startup
pub mod Siblings
pub mod Recovered
pub mod Execute
pub mod Verdicts
pub mod Ending
mod Examples
pub mod Cases
mod Outcomes
mod Restarts
mod Startups
