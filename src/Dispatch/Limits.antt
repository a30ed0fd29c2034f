-- ===== src/Dispatch/Limits.antt =====
-- The limits of a client's state (internal/pool/client.go): its queues and maps are bounded, and its
-- slot is taken exactly while a job is active.
use rungpu_agent.Base.{
  String, Bool, true, false, not, ◌&&◌, ◌||◌, List, [], ◌∷◌, Option, none, Map, lookup, length, All,
  All-insert, All-delete, length-append, length-insert, length-insert_present, length-delete, ◌==◌,
  ◌/=◌, string_eq, nat_eq, if◌then◌else◌, ◌≡◌, ◌≢◌, refl, arith, ◌⊎◌, inl, inr, ◌<◌, ◌≤◌, ap,
}
use rungpu_agent.Journal.Records.{is_some}
use rungpu_agent.Digest.{Sha256}
use rungpu_agent.Types.{JobAssignment}
use rungpu_agent.Journal.Store.{AttemptJournal}
use rungpu_agent.Dispatch.Client.{
  Client, JobExecutor, StartReply, accepted, refused, Tombstone, put_tombstone,
  max_deferred_assignments, max_cancellation_tombstones, is_tombstoned, failed_result,
}
use rungpu_agent.Dispatch.Starting.{
  remember_settled, started, start_assignment, queue, with_executor,
}
use rungpu_agent.Dispatch.Closed.{IsNamed, IsClosedUnder}

pub record Limits (deferred : Map JobAssignment) (tombstones : Map Tombstone)
    (settled : List String) (slot : Bool) (active : String) : Type 0 where
  pub few_deferred : length deferred ≤ max_deferred_assignments
  pub few_tombstones : length tombstones ≤ max_cancellation_tombstones
  pub few_settled : length settled ≤ max_deferred_assignments
  pub one_slot : slot ≡ (active /= "")
  pub named : All IsNamed deferred

abbrev pub IsBounded : {S : Type 0} → Client S → Type 0
IsBounded c =
    Limits c.deferred_assignments c.cancellation_tombstones c.settled_attempts c.slot_taken
      c.active_assignment

length-remember_settled :
    (key : String) (xs : List String)
    → length xs ≤ max_deferred_assignments
    → length (remember_settled key xs) ≤ max_deferred_assignments
unfolding remember_settled
length-remember_settled key [] room = omega arith
length-remember_settled key (x ∷ xs) room =
    ground (arith, length-append xs (key ∷ []), length-append (x ∷ xs) (key ∷ []))

present_some : {A : Type 0} (o : Option A) → is_some o ≡ true → o ≢ none
present_some o w e = cc (w, ap is_some e)

module _ ⦃h : Sha256⦄ {S : Type 0} (executor : JobExecutor S) where
  started-IsBounded :
      (a : JobAssignment) (d : Bool) (c : Client S) (r : Option AttemptJournal × S × StartReply)
      → (a.job_id == "") ≡ false
      → IsBounded c
      → IsBounded (started executor a d c r)
  started-IsBounded a d c (j, s, accepted) name b = record {
    few_deferred = b.few_deferred;
    few_tombstones = b.few_tombstones;
    few_settled = b.few_settled;
    one_slot = ground (arith, name);
    named = b.named;
  }
  started-IsBounded a d c (j, s, refused tracked e) name b = at (d || not tracked)
    where
      at :
          (v : Bool)
          → IsBounded (
              if v
              then queue (failed_result c.gpu_id a e) (with_executor executor j s c)
              else with_executor executor j s c)
      at true = b
      at false = b

  if-IsBounded :
      (b : Bool) (x y : Client S) → IsBounded x → IsBounded y → IsBounded (if b then x else y)
  if-IsBounded true x y p q = p
  if-IsBounded false x y p q = q

  start-IsBounded :
      (a : JobAssignment) (d : Bool) (c : Client S)
      → (a.job_id == "") ≡ false
      → IsBounded c
      → IsBounded (start_assignment executor a d c)
  unfolding start_assignment
  start-IsBounded a d c name b =
      if-IsBounded
        (c.cancellation_admission_fenced
          || (a.dispatch_token /= "" && is_tombstoned a.job_id a.dispatch_token c))
        (queue
          (failed_result c.gpu_id a "dispatch attempt cannot start: cancellation admission fence")
          c)
        _ b
        (if-IsBounded c.slot_taken
          (queue (failed_result c.gpu_id a "GPU is already running a job") c)
          (started executor a d c (executor.start a c.outbox.journal c.executor)) b
          (started-IsBounded a d c (executor.start a c.outbox.journal c.executor) name b))

  put_tombstone-IsBounded :
      (key : String) (t : Tombstone) (c : Client S)
      → (is_some (lookup key c.cancellation_tombstones) ≡ true)
        ⊎ (length c.cancellation_tombstones < max_cancellation_tombstones)
      → IsBounded c
      → IsBounded (put_tombstone key t c)
  put_tombstone-IsBounded key t c room b = record {
    few_deferred = b.few_deferred;
    few_tombstones = elim room [
      | inl old ↦ omega (
        arith,
        b.few_tombstones,
        length-insert_present key t c.cancellation_tombstones
            (present_some (lookup key c.cancellation_tombstones) old),
      )
      | inr less ↦ omega (arith, less, length-insert key t c.cancellation_tombstones)
    ];
    few_settled = b.few_settled;
    one_slot = b.one_slot;
    named = b.named;
  }

  pub IsBounded-Closed : IsClosedUnder executor IsBounded
  IsBounded-Closed = record {
    named = λ c b. b.named;
    boxes = λ c box b. b;
    starts = start-IsBounded;
    defers = λ a c name room b. record {
      few_deferred = omega (arith, room, length-insert a.job_id a c.deferred_assignments);
      few_tombstones = b.few_tombstones;
      few_settled = b.few_settled;
      one_slot = b.one_slot;
      named = All-insert IsNamed a.job_id a c.deferred_assignments name b.named;
    };
    undefers = λ id c b. record {
      few_deferred = omega (arith, b.few_deferred, length-delete id c.deferred_assignments);
      few_tombstones = b.few_tombstones;
      few_settled = b.few_settled;
      one_slot = b.one_slot;
      named = All-delete IsNamed id c.deferred_assignments b.named;
    };
    buries = put_tombstone-IsBounded;
    fences = λ c b. b;
    notes = λ keys acks c b. b;
    settles = λ key c b. record {
      few_deferred = b.few_deferred;
      few_tombstones = b.few_tombstones;
      few_settled = length-remember_settled key c.settled_attempts b.few_settled;
      one_slot = b.one_slot;
      named = b.named;
    };
    frees = λ c b. record {
      few_deferred = b.few_deferred;
      few_tombstones = b.few_tombstones;
      few_settled = b.few_settled;
      one_slot = refl;
      named = b.named;
    };
    forgets = λ id c b. b;
  }
