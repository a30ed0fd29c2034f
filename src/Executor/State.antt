-- ===== src/Executor/State.antt =====
-- internal/job/executor.go: the executor's state, IsTracked, TrackedDispatchToken, ReservedJobs,
-- ForgetExecution, releaseExecution and markStopUnverified. Go keeps pointers to executions, which a
-- goroutine or a cancellation still holds after the execution is forgotten: here an execution is a
-- number, and `heap` what it points to. Each function is what one holder of the mutex does.
use rungpu_agent.Base.{
  ℕ, suc, String, Bool, true, false, ◌&&◌, ◌||◌, not, List, [], ◌∷◌, Option, none, some, Map,
  lookup, delete, contains, ◌==◌, nat_eq, string_eq, if◌then◌else◌,
}
use rungpu_agent.Journal.Records.{OwnedResource}
use rungpu_agent.Journal.Store.{AttemptJournal}

-- `job_id` is the key it is put under. `is_held` says that release is not nil: the execution has
-- the gate and the machine's lease. `done` says that the channel is closed.
pub record Execution : Type 0 where
  pub job_id : String
  pub dispatch_token : String
  pub done : Bool
  pub runtime : String
  pub cancel_requested : Bool
  pub stop_confirmed : Bool
  pub stop_unverified : Bool
  pub is_held : Bool
  pub resource : OwnedResource
  pub restored : Bool

-- `next` is the first free number. `inflight` and `workspaces` have the keys of the Go maps.
pub record Executor : Type 0 where
  pub backend : String
  pub gpu_id : String
  pub has_gate : Bool
  pub heap : ℕ → Execution
  pub next : ℕ
  pub executions : Map ℕ
  pub inflight : List String
  pub workspaces : List String
  pub journal : AttemptJournal

abbrev pub update {ℓ} : {A : Type ℓ} → (ℕ → A) → ℕ → A → ℕ → A
update f i a j = if i == j then a else f j

-- `state.f = …` through a pointer.
abbrev pub write : ℕ → Execution → Executor → Executor
write t x e = record e { heap = update e.heap t x }

unfoldable pub is_tracked : String → Executor → Bool
is_tracked id e = elim (lookup id e.executions) [ some t ↦ true | none ↦ false ]

unfoldable pub tracked_dispatch_token : String → Executor → Option String
tracked_dispatch_token id e = elim (lookup id e.executions) [
  | some t ↦ some (e.heap t).dispatch_token
  | none ↦ none
]

abbrev pub is_reserved : Executor → String → Execution → Bool
is_reserved e id x =
    x.is_held || x.stop_unverified || contains id e.workspaces || contains id e.inflight

unfoldable pub count_reserved : Executor → Map ℕ → ℕ
count_reserved e [] = 0
count_reserved e ((id, t) ∷ rest) =
    if is_reserved e id (e.heap t) then suc (count_reserved e rest) else count_reserved e rest

unfoldable pub reserved_jobs : Executor → ℕ
unfolding count_reserved
reserved_jobs e = count_reserved e e.executions

unfoldable pub keeps_execution : Executor → String → Execution → Bool
keeps_execution e id x =
    x.is_held
    || x.stop_unverified
    || contains id e.workspaces
    || (x.cancel_requested && not x.stop_confirmed)
    || not x.done

unfoldable pub forget_execution : String → Executor → Executor
unfolding keeps_execution
forget_execution id e = elim (lookup id e.executions) [
  | none ↦ e
  | some t ↦
      if keeps_execution e id (e.heap t)
      then e
      else record e { executions = delete id e.executions }
]

abbrev pub release_execution : Execution → Execution
release_execution x = record x { is_held = false }

-- A job that is not tracked is a nil pointer here, and the agent panics: `none`.
unfoldable pub mark_stop_unverified : String → Executor → Option Executor
mark_stop_unverified id e = elim (lookup id e.executions) [
  | none ↦ none
  | some t ↦ some (write t (record (e.heap t) { stop_unverified = true }) e)
]
