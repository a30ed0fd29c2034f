-- ===== src/Lib.antt =====
-- RunGPU agent: a program on a GPU owner's computer that takes jobs from a pool, runs them in
-- Docker or Ollama, and reports their results.
--
-- The execution journal (internal/job/journal.go, internal/job/backend_identity.go) is the agent's
-- memory across restarts: one record for each dispatch attempt, in a file of its own, and a catalog
-- of the records. Module Journal models it: Journal.Records the data, the keys and validate;
-- Journal.Store store, saveCatalog and the atomic file writes; Journal.Operations the methods;
-- Journal.Load openAttemptJournal. A method returns the new journal and its error. A write draws
-- its outcome from a list in the state, so a theorem over all journals is over all failures; a
-- crash keeps the disk and loses the rest. The children prove: Writes what one store does,
-- Lifecycle that each method is one step of a record's life, Runs and Admission what holds over
-- histories, Durable and Soundness the invariant, Entries, Reopen, Crash and Fits that files in
-- order open again, Restart and Readmission what a restart means, Reading and Accepted what an
-- opening accepts, whatever the directory holds.
--
-- The result outbox (internal/pool/result_outbox.go) keeps each result until the pool acknowledges
-- it, in memory and in a file. Module Outbox models it: Outbox.State the data and
-- persistResultAtKey, Outbox.Operations queueResult, queueAttemptRejection, ackResult and
-- loadPendingResults, with their calls of the journal, Outbox.Sending sendPendingResults. The
-- children prove: Soundness and Invariant what the operations keep, Reload and Survival that a
-- restart finds what was durable, Acknowledged what an acknowledgement removes, Batch and Rounds
-- the sending, Histories all interleavings.
--
-- The earning schedule (internal/config/schedule.go) decides when the agent is connected to the
-- pool. Schedule.Weekdays has the names of days, Schedule.Windows normalisation, ValidateSchedule
-- and windowActive, Schedule.Clock instants, locations and nextTransition, Schedule.Earning
-- EvaluateEarning. An instant is its Unix time in seconds and a location its table of zones. The
-- children prove: Names, Week and Collected what normalizeDays keeps, Normal that the normal form
-- is one and means the same, Coverage the stretches of the week in which a window is active,
-- Transition and Found that the next change is found, Status, Validation and Flag the rest.
--
-- The checks on what the pool asks for: Assignment is (JobAssignment).Validate
-- (internal/types/types.go), with json.Valid as a parameter, and Assignment.Valid what it accepts;
-- Sandbox is the policy on images and mounts of a job's container (internal/dockermgr/security.go),
-- and Sandbox.Names, Sandbox.Allowed, Sandbox.Segments and Sandbox.Mounts what it accepts.
-- Base.Paths is filepath.Clean.
--
-- Ownership is the container that an attempt owns (internal/dockermgr/ownership.go), over the
-- docker command as a parameter, and Ownership.Teardown what a removal without error shows.
--
-- The executor (internal/job/executor.go, internal/job/recovery.go) starts an attempt, ends it,
-- cancels it and keeps the GPU until its stop is verified. Module Executor models it as a heap of
-- executions, since goroutines and cancellations keep pointers to them: Executor.State the state
-- and the functions without the journal, Executor.Start Start, Executor.Run the goroutine,
-- Executor.Cancel cancelContext and StopAll, Executor.Recovery restoreJournal, Executor.Execute
-- execute, Executor.Startup NewExecutorWithOptions with restoreOrphanSiblingJournals. Each use of
-- the mutex is one function, and Executor.Histories the relation of their interleavings, with the
-- client's calls of the journal. The gate, the machine's lease and docker answer from outside, so
-- that every answer is covered. The children prove: Kept what journal calls leave of a stop's
-- proof, Invariant, Joining, Running, Cancelling and Safety the invariant and its preservation,
-- Promises and Confirmed what callers may rely on, Shapes, Gpu and Refinement that the executor is
-- a GPU with one holder at a time, Opening, Resolved, Accounts and Restored what a restart
-- establishes, Siblings and Recovered what it does for every journal of the machine, Verdicts and
-- Ending what the outcome of a run means. Executor.Timeout is the time that a job may take
-- (jobTimeoutForAssignment), with durations of 64 bits, and Executor.Bounds its bounds.
--
-- The pool client (internal/pool/client.go) turns messages into calls of the journal, the outbox
-- and the executor. Module Dispatch models the messages about jobs: Dispatch.Client the state and
-- the tombstones of cancellations, Dispatch.Starting the starting and draining of assignments,
-- runJob and acknowledgements, Dispatch.Assigning and Dispatch.Cancelling the rest of dispatch and
-- cancelJob. The executor is the parameter JobExecutor, as Go's interface jobExecutor is, and
-- Dispatch.Agent fills it with module Executor. Dispatch.Histories has all interleavings with
-- arbitrary moves of the executor and the outbox. The children prove: Closed, Kept, Shut, Dropped
-- and Cancelled that a property closed under the parts is kept by the operations, Limits,
-- Invariants and Barred two such properties over all histories, Progress that draining starts a
-- job.
--
-- Types holds the messages (internal/types/types.go). Digest is SHA-256 as a parameter with the
-- shape of its text; no theorem assumes that digests differ. Base holds maps, integers, texts and
-- tests.
--
-- Bounds: a record file of more than 16 MiB is written and then refused by the reading; which
-- records fit is a function in the model's disk. The journal's limit of 10000 attempts is the
-- source's, and so are the 24 * 8 rounds of nextTransition, which Schedule.Found proves to be
-- enough. No other fuel is used.
--
-- Not modelled: the root file of the machine's journals with its scopes, the client's connection
-- and its cache cleanup, the network, the processes that Docker and Ollama run, file locks and
-- permissions, the paths of Windows, where filepath.Clean yields backslashes, texts that are not
-- valid UTF-8, the nil journal and the nil executor that only tests have.
pub mod Assignment
pub mod Base
pub mod Digest
pub mod Dispatch
pub mod Executor
pub mod Journal
pub mod Outbox
pub mod Ownership
pub mod Sandbox
pub mod Schedule
pub mod Types
