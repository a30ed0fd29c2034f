-- ===== src/Journal.antt =====
-- internal/job/journal.go and internal/job/backend_identity.go: the execution journal of one GPU,
-- which keeps a record of every attempt on disk. `Records` holds the data and its validity check,
-- `Store` the write path, `Operations` the methods, `Load` the reopening of a journal.
pub mod Records
pub mod Store
pub mod Writes
pub mod Operations
pub mod Lifecycle
pub mod Runs
pub mod Admission
pub mod Load
pub mod Entries
pub mod Durable
pub mod Soundness
pub mod Reopen
pub mod Crash
pub mod Restart
pub mod Readmission
pub mod Reading
pub mod Fits
pub mod Accepted
mod Examples
