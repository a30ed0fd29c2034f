-- ===== src/Executor/Kept.antt =====
-- The journal under an executor: which calls (internal/job/journal.go) keep the proof that an
-- attempt is stopped, and which records the calls of Start, of a goroutine and of a cancellation
-- leave behind.
use rungpu_agent.Base.{
  String, Bool, true, false, Option, none, some, string_eq, ◌≡◌, ◌≢◌, refl, sym, ◌∙◌, subst, arith,
  ◌⊎◌, inl, inr, Option-cases,
}
use rungpu_agent.Digest.{Sha256}
use rungpu_agent.Types.{JobAssignment, JobResult}
use rungpu_agent.Journal.Records.{AttemptRecord, JournalIdentity, attempt_key, is_some}
use rungpu_agent.Journal.Store.{AttemptJournal}
use rungpu_agent.Journal.Operations.{
  ok, close, find, complete, completed, remember_cancellation, running, admit, assign_docker_daemon,
}
use rungpu_agent.Journal.Lifecycle.{
  Evolution, Change, IsKeyed, running-Change, accept-Change, complete-Change, block_replay-Change,
  assign_docker_daemon-Change, admit-Change, remember_cancellation-Change, remember_result-Change,
  remember_legacy_result-Change,
}
use rungpu_agent.Journal.Runs.{
  Call, admits, enters, completes, cancels, results, legacy_results, blocks, accepts, assigns,
  recovers, step, Holds, Change-Holds, Change-IsKeyed, written_Holds,
}
use rungpu_agent.Journal.Admission.{
  IsClosed, IsClosed-Evolution, store_ok-Holds, remember_cancellation_ok, admit_closed,
}
use rungpu_agent.Executor.Histories.{is_client_call}

-- The stop is verified, and the attempt is closed to admission.
abbrev pub IsStopped : AttemptRecord → Type 0
IsStopped r = (r.stop_verified ≡ true) × IsClosed r

module _ ⦃h : Sha256⦄ where
  stop_verified-Evolution :
      (i : JournalIdentity) (old new : AttemptRecord)
      → Evolution false i old new
      → old.stop_verified ≡ true
      → new.stop_verified ≡ true
  stop_verified-Evolution i old new (Evolution.admits a b p q r) v = v
  stop_verified-Evolution i old new (Evolution.runs p q) v = v
  stop_verified-Evolution i old new (Evolution.completes x s (inl w)) v = absurd cc
  stop_verified-Evolution i old new (Evolution.completes x s (inr w)) v = w
  stop_verified-Evolution i old new Evolution.cancels v = ground arith
  stop_verified-Evolution i old new (Evolution.results x p) v = ground arith
  stop_verified-Evolution i old new (Evolution.blocks b) v = v
  stop_verified-Evolution i old new Evolution.accepts v = v
  stop_verified-Evolution i old new (Evolution.assigns d p) v = v
  stop_verified-Evolution i old new Evolution.recovers v = refl

  IsStopped-Evolution :
      (i : JournalIdentity) (old new : AttemptRecord)
      → Evolution false i old new
      → IsStopped old
      → IsStopped new
  IsStopped-Evolution i old new s (v, c) =
      (stop_verified-Evolution i old new s v, IsClosed-Evolution i old new s c)

  -- A call of the client is one change, and not by Complete.
  client-Change :
      (c : Call) (j : AttemptJournal)
      → IsKeyed j.records
      → is_client_call c ≡ true
      → Change false j (step c j)
  unfolding step
  client-Change (admits a b) j k w = admit-Change j k a b
  client-Change (enters id token) j k w = absurd cc
  client-Change (completes id token x s) j k w = absurd cc
  client-Change (cancels id token b) j k w = remember_cancellation-Change j k id token b
  client-Change (results x) j k w = remember_result-Change j k x
  client-Change (legacy_results x) j k w = remember_legacy_result-Change j k x
  client-Change (blocks id token b) j k w = block_replay-Change j k id token b
  client-Change (accepts id token) j k w = accept-Change j k id token
  client-Change (assigns id token d) j k w = absurd cc
  client-Change (recovers r) j k w = absurd cc

  -- What the executor relies on from one journal to the next, for the attempts at the keys of
  -- `quiet`: no proof of a stop is lost there, and no closed attempt is opened anywhere.
  pub record Keeps (quiet : String → Type 0) (j j' : AttemptJournal) : Type 0 where
    pub keyed : IsKeyed j'.records
    pub stopped : (k : String) → quiet k → Holds IsStopped k j → Holds IsStopped k j'
    pub closed : (k : String) → Holds IsClosed k j → Holds IsClosed k j'

  abbrev pub Anywhere : String → Type 0
  Anywhere k = Unit {0}

  pub Change-Keeps :
      (j j' : AttemptJournal) → IsKeyed j.records → Change false j j' → Keeps Anywhere j j'
  Change-Keeps j j' keyed c = record {
    keyed = Change-IsKeyed j j' c keyed;
    stopped = λ k q. Change-Holds IsStopped IsStopped-Evolution k j j' c;
    closed = λ k. Change-Holds IsClosed IsClosed-Evolution k j j' c;
  }

  module _ (j : AttemptJournal) (keyed : IsKeyed j.records) where
    pub client-Keeps : (c : Call) → is_client_call c ≡ true → Keeps Anywhere j (step c j)
    client-Keeps c w = Change-Keeps j _ keyed (client-Change c j keyed w)

    -- Close only fences the journal.
    pub close-Keeps : Keeps Anywhere j (close j)
    unfolding close
    close-Keeps = record { keyed = keyed; stopped = λ k q w. w; closed = λ k w. w }

    pub running-Keeps : (id token : String) → Keeps Anywhere j (running id token j).0
    running-Keeps id token = Change-Keeps j _ keyed (running-Change j keyed id token)

    pub remember_cancellation-Keeps :
        (id token : String) (known : Bool)
        → Keeps Anywhere j (remember_cancellation id token known j).0
    remember_cancellation-Keeps id token known =
        Change-Keeps j _ keyed (remember_cancellation-Change j keyed id token known)

    pub assign_docker_daemon-Keeps :
        (id token daemon : String) → Keeps Anywhere j (assign_docker_daemon id token daemon j).0
    assign_docker_daemon-Keeps id token daemon =
        Change-Keeps j _ keyed (assign_docker_daemon-Change j keyed id token daemon)

    pub admit-Keeps :
        (a : JobAssignment) (backend : String) → Keeps Anywhere j (admit a backend j).0
    admit-Keeps a backend = Change-Keeps j _ keyed (admit-Change j keyed a backend)

    -- Complete writes the record of one attempt only.
    pub complete-Keeps :
        (id token : String) (x : Option JobResult) (s : Bool)
        → Keeps (λ k. attempt_key id token ≢ k) j (complete id token x s j).0
    unfolding complete
    complete-Keeps id token x s = record {
      keyed = Change-IsKeyed j _ (complete-Change j keyed id token x s (inl refl)) keyed;
      stopped = λ k other hold. elim (Option-cases (find j id token)) [
        | inl e ↦ rw (e, complete) hold
        | inr (r, e) ↦
            rw (e, complete)
              (written_Holds IsStopped k (completed r x s) j
                (λ here. absurd (other (sym (keyed _ r e) ∙ here))) hold)
      ];
      closed = λ k.
          Change-Holds IsClosed IsClosed-Evolution k j _
            (complete-Change j keyed id token x s (inl refl));
    }

    pub complete_stopped-Keeps :
        (id token : String) (x : Option JobResult) → Keeps Anywhere j (complete id token x true j).0
    complete_stopped-Keeps id token x =
        Change-Keeps j _ keyed (complete-Change j keyed id token x true (inr refl))

    -- A verified stop that is written without an error stands in the record, and closes it.
    pub complete_ok :
        (id token : String) (x : Option JobResult)
        → (is_some x ≡ true) ⊎ Holds IsClosed (attempt_key id token) j
        → (complete id token x true j).1 ≡ none
        → Holds IsStopped (attempt_key id token) (complete id token x true j).0
    unfolding complete
    complete_ok id token x why good = elim (Option-cases (find j id token)) [
      | inl e ↦ cc (rw (e, complete) at good)
      | inr (r, e) ↦
          rw (e, complete)
            (store_ok-Holds IsStopped _ (completed r x true) j (keyed _ r e) (refl, closes r e why)
              (rw (e, complete) at good))
    ]
      where
        closes :
            (r : AttemptRecord)
            → find j id token ≡ some r
            → (is_some x ≡ true) ⊎ Holds IsClosed (attempt_key id token) j
            → IsClosed (completed r x true)
        closes r e (inl result) = ground arith
        closes r e (inr (s, found, c)) =
            let here : s ≡ r = cc (e, found) in
            IsClosed-Evolution {q = true} j.identity r _ (Evolution.completes x true (inl refl))
              (subst IsClosed here c)

    pub remember_cancellation_ok-IsClosed :
        (id token : String) (known : Bool) (s : AttemptRecord)
        → (remember_cancellation id token known j).1 ≡ ok s
        → Holds IsClosed (attempt_key id token) (remember_cancellation id token known j).0
    remember_cancellation_ok-IsClosed id token known s good =
        let (r, found, (e, c)) = remember_cancellation_ok id token known s j keyed good in
        (r, found, inr (inl c))

    -- Admit returns a record for an attempt that is not closed.
    pub admit_ok :
        (a : JobAssignment) (backend : String) (r : AttemptRecord)
        → (admit a backend j).1 ≡ ok r
        → ¬ Holds IsClosed (attempt_key a.job_id a.dispatch_token) j
    admit_ok a backend r good c = elim (admit_closed a backend j c) [
      | inl e ↦ cc (e, good)
      | inr e ↦ cc (e, good)
    ]

  pub Keeps-refl : (j : AttemptJournal) → IsKeyed j.records → Keeps Anywhere j j
  Keeps-refl j keyed = record { keyed = keyed; stopped = λ k q w. w; closed = λ k w. w }
