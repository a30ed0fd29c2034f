-- ===== src/Dispatch/Histories.antt =====
-- Histories of a client (internal/pool/client.go): every use of its assignments' mutex by dispatch,
-- cancelJob and runJob, in any order, with whatever its outbox and its executor do in between. A log
-- beside the executor's state has the attempts that Start was called with.
use rungpu_agent.Base.{String, Bool, List, ◌∷◌, Option}
use rungpu_agent.Digest.{Sha256}
use rungpu_agent.Types.{JobAssignment, JobControl, JobResult}
use rungpu_agent.Outbox.State.{Outbox}
use rungpu_agent.Dispatch.Client.{Client, JobExecutor, Texts}
use rungpu_agent.Dispatch.Starting.{acknowledge, end_job}
use rungpu_agent.Dispatch.Assigning.{Reading, assign}
use rungpu_agent.Dispatch.Cancelling.{Work, begin_cancel, end_cancel}

-- An executor's state with the attempts that it was asked to start, the last one first.
abbrev pub Logged : Type 0 → Type 0
Logged S = S × List (String × String)

abbrev pub logged : {S : Type 0} → JobExecutor S → JobExecutor (Logged S)
logged executor = record {
  start = λ a j (s, log).
      let (j', s', reply) = executor.start a j s in
      (j', (s', (a.job_id, a.dispatch_token) ∷ log), reply);
  is_tracked = λ id (s, log). executor.is_tracked id s;
  tracked_dispatch_token = λ id (s, log). executor.tracked_dispatch_token id s;
  forget_execution = λ id (s, log). (executor.forget_execution id s, log);
}

module _ ⦃h : Sha256⦄ {S : Type 0} (executor : JobExecutor S) (texts : Texts)
    (reading : Reading) where
  pub data Event (c : Client (Logged S)) : Client (Logged S) → Type 0 where
    assigns :
        (a : JobAssignment) (decode_error : Option String)
        → Event c (assign (logged executor) texts reading a decode_error c)
    begins : (control : JobControl) → Event c (begin_cancel (logged executor) texts control c).0
    ends :
        (control : JobControl) (work : Work) (error : Option String)
        → Event c (end_cancel (logged executor) texts control work error c)
    settles :
        (id token : String) (success : Bool)
        → Event c (acknowledge (logged executor) id token success c)
    finishes :
        (a : JobAssignment) (result : JobResult) → Event c (end_job (logged executor) a result c)
    sends : (box : Outbox) → Event c (record c { outbox = box })
    moves : (s : S) → Event c (record c { executor = (s, c.executor.1) })

  pub data Reached (first : Client (Logged S)) : Client (Logged S) → Type 0 where
    here : Reached first first
    later : (c c' : Client (Logged S)) → Reached first c → Event c c' → Reached first c'
