-- ===== src/Dispatch/Invariants.antt =====
-- A property that is closed in the sense of Dispatch/Closed.antt holds over every history of a client
-- (internal/pool/client.go), and its limits are such a property.
use rungpu_agent.Base.{string_eq, pair_eq, nat_eq}
use rungpu_agent.Digest.{Sha256}
use rungpu_agent.Dispatch.Client.{Client, JobExecutor, Texts}
use rungpu_agent.Dispatch.Assigning.{Reading}
use rungpu_agent.Dispatch.Closed.{IsClosedUnder, acknowledge-Closed, end_job-Closed}
use rungpu_agent.Dispatch.Kept.{assign-Closed}
use rungpu_agent.Dispatch.Cancelled.{begin_cancel-Closed, end_cancel-Closed}
use rungpu_agent.Dispatch.Limits.{IsBounded, IsBounded-Closed}
use rungpu_agent.Dispatch.Histories.{
  Logged, logged, Event, assigns, begins, ends, settles, finishes, sends, moves, Reached, here,
  later,
}

module _ ⦃h : Sha256⦄ {S : Type 0} (executor : JobExecutor S) (texts : Texts)
    (reading : Reading) where
  module _ (P : Client (Logged S) → Type 0) (closed : IsClosedUnder (logged executor) P)
      (lives : (s : S) (c : Client (Logged S))
        → P c
        → P (record c { executor = (s, c.executor.1) })) where
    Event-Closed : (c c' : Client (Logged S)) → Event executor texts reading c c' → P c → P c'
    Event-Closed c c' (assigns a e) p =
        assign-Closed (logged executor) texts reading P closed a e c p
    Event-Closed c c' (begins control) p =
        begin_cancel-Closed (logged executor) texts reading P closed control c p
    Event-Closed c c' (ends control work e) p =
        end_cancel-Closed (logged executor) texts reading P closed control work e c p
    Event-Closed c c' (settles id token success) p =
        acknowledge-Closed (logged executor) P closed id token success c p
    Event-Closed c c' (finishes a result) p = end_job-Closed (logged executor) P closed a result c p
    Event-Closed c c' (sends box) p = closed.boxes c box p
    Event-Closed c c' (moves s) p = lives s c p

    pub Reached-Closed :
        (first c : Client (Logged S)) → Reached executor texts reading first c → P first → P c
    Reached-Closed first c here p = p
    Reached-Closed first c (later d e past event) p =
        Event-Closed d e event (Reached-Closed first d past p)

  -- In every history of a client, whatever its executor, its journal and its outbox do, at most 64
  -- assignments are deferred, at most 1024 cancellation tombstones are kept and at most 64 settled
  -- attempts are remembered, and the slot is taken exactly while an assignment is active, if this
  -- holds at the start.
  pub IsBounded-Reached :
      (first c : Client (Logged S))
      → Reached executor texts reading first c
      → IsBounded first
      → IsBounded c
  IsBounded-Reached = Reached-Closed IsBounded (IsBounded-Closed (logged executor)) (λ s c b. b)
