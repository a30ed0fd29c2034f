-- ===== src/Journal/Lifecycle.antt =====
-- The life of an attempt's record as a step relation: which records a journal operation writes, and
-- from which record it starts. Every method of internal/job/journal.go and backend_identity.go is
-- one `Change` of the journal.
use rungpu_agent.Base.{
  pos, String, Bool, true, false, ◌&&◌, ◌||◌, not, Option, none, some, Map, lookup, length, leb,
  ◌==◌, string_eq, ◌<◌, ◌≡◌, refl, arith, Option-cases, Bool-cases, inl, inr, ◌⊎◌,
}
use rungpu_agent.Digest.{Sha256}
use rungpu_agent.Types.{JobAssignment, JobResult, valid_job_id}
use rungpu_agent.Journal.Records.{
  AttemptRecord, JournalIdentity, JournalError, empty_record, max_journal_attempts,
  docker_runtime_name, is_some, attempt_key,
}
use rungpu_agent.Journal.Store.{AttemptJournal, store}
use rungpu_agent.Journal.Operations.{
  ok, fail, find, fresh, find_or_fresh, refuses_admission, admitted, with_resource, admit, running,
  completed, complete, cancelled, remember_cancellation, with_result, remember_result, legacy,
  remember_legacy_result, block_replay, accept, assign_docker_daemon, recovered_unstarted,
  recover_unstarted, with_record,
}

-- The record that `fresh` returns.
abbrev pub blank : JournalIdentity → String → String → AttemptRecord
blank i id token = record empty_record {
  version = pos 1;
  gpu_id = i.gpu_id;
  job_id = id;
  dispatch_token = token;
}

pub with_record-fst :
    (r : AttemptRecord) (p : AttemptJournal × Option JournalError) → (with_record r p).0 ≡ p.0
with_record-fst r (k, none) = refl
with_record-fst r (k, some e) = refl

module _ ⦃h : Sha256⦄ where
  abbrev pub key_of : AttemptRecord → String
  key_of r = attempt_key r.job_id r.dispatch_token

  -- A record of the journal changes; without `q`, Complete only verifies a stop.
  pub data Evolution (q : Bool) (i : JournalIdentity) (r : AttemptRecord)
      : AttemptRecord → Type 0 where
    admits :
        (a : JobAssignment) (backend : String)
        → r.known_unstarted ≡ true
        → r.cancel_requested ≡ false
        → is_some r.result ≡ false
        → Evolution q i r (with_resource i (admitted a backend r))
    runs :
        r.known_unstarted ≡ true
        → r.cancel_requested ≡ false
        → Evolution q i r (record r { phase = "running"; known_unstarted = false })
    completes :
        (result : Option JobResult) (stopped : Bool)
        → (q ≡ true) ⊎ (stopped ≡ true)
        → Evolution q i r (completed r result stopped)
    cancels : Evolution q i r (cancelled r)
    results : (x : JobResult) → is_some r.result ≡ false → Evolution q i r (with_result x r)
    blocks : (b : Bool) → Evolution q i r (record r { replay_blocked = b })
    accepts : Evolution q i r (record r { result_accepted = true })
    assigns :
        (daemon : String)
        → r.cancel_requested ≡ false
        → Evolution q i r (with_resource i (record r { docker_daemon_id = daemon }))
    recovers : Evolution q i r (recovered_unstarted r)

  -- The first record of an attempt.
  pub data Birth (i : JournalIdentity) (id token : String) : AttemptRecord → Type 0 where
    admitted_first :
        (a : JobAssignment) (backend : String)
        → Birth i id token (with_resource i (admitted a backend (blank i id token)))
    cancelled_first : Birth i id token (cancelled (record (blank i id token) { phase = "unknown" }))
    result_first :
        (x : JobResult)
        → Birth i id token (
            with_result x
              (record (blank i id token) { phase = "unstarted"; known_unstarted = true }))
    legacy_first : (x : JobResult) → Birth i id token (legacy x (blank i id token))

  -- What an operation does to the journal: nothing, or one store.
  pub data Change (q : Bool) (j : AttemptJournal) : AttemptJournal → Type 0 where
    same : Change q j j
    evolves :
        (old new : AttemptRecord)
        → lookup (key_of old) j.records ≡ some old
        → Evolution q j.identity old new
        → Change q j (store new j).0
    births :
        (id token : String) (new : AttemptRecord)
        → lookup (attempt_key id token) j.records ≡ none
        → length j.records < max_journal_attempts
        → Birth j.identity id token new
        → Change q j (store new j).0

  -- A record stands under the key of its own attempt.
  abbrev pub IsKeyed : Map AttemptRecord → Type 0
  IsKeyed m = (k : String) (r : AttemptRecord) → lookup k m ≡ some r → key_of r ≡ k

  -- `fresh` succeeds below the capacity only, and then returns the blank record.
  pub fresh_cases :
      (j : AttemptJournal) (id token : String)
      → ((e : JournalError) × (fresh j id token ≡ fail e))
        ⊎ ((fresh j id token ≡ ok (blank j.identity id token))
            × (length j.records < max_journal_attempts))
  unfolding fresh
  fresh_cases j id token = elim (Option-cases j.fault) [
    | inr (e, f) ↦ inl (e, rw (f, fresh) refl)
    | inl f ↦
        elim (Bool-cases (not (valid_job_id id) || leb max_journal_attempts (length j.records))) [
          | inl full ↦ inl (JournalError.capacity_reached, rw (f, fresh, full) refl)
          | inr room ↦ inr (rw (f, fresh, room) refl, ground arith)
        ]
  ]

  module _ {q : Bool} (j : AttemptJournal) (keyed : IsKeyed j.records) where
    evolve_at :
        (id token : String) (old new : AttemptRecord)
        → find j id token ≡ some old
        → Evolution q j.identity old new
        → Change q j (store new j).0
    evolve_at id token old new e step = evolves old new (rw (keyed _ old e) e) step

    pub running-Change : (id token : String) → Change q j (running id token j).0
    unfolding running
    running-Change id token = elim (Option-cases (find j id token)) [
      | inl e ↦ rw (e, running) same
      | inr (r, e) ↦ elim (Bool-cases (not r.known_unstarted || r.cancel_requested)) [
        | inl bad ↦ rw (e, running, bad) same
        | inr good ↦
            rw (e, running, good)
              (evolve_at id token r _ e (Evolution.runs (ground arith) (ground arith)))
      ]
    ]

    pub accept-Change : (id token : String) → Change q j (accept id token j).0
    unfolding accept
    accept-Change id token = elim (Option-cases (find j id token)) [
      | inl e ↦ rw (e, accept) same
      | inr (r, e) ↦ rw (e, accept) (evolve_at id token r _ e Evolution.accepts)
    ]

    pub complete-Change :
        (id token : String) (result : Option JobResult) (stopped : Bool)
        → (q ≡ true) ⊎ (stopped ≡ true)
        → Change q j (complete id token result stopped j).0
    unfolding complete
    complete-Change id token result stopped why = elim (Option-cases (find j id token)) [
      | inl e ↦ rw (e, complete) same
      | inr (r, e) ↦
          rw (e, complete) (evolve_at id token r _ e (Evolution.completes result stopped why))
    ]

    pub block_replay-Change :
        (id token : String) (blocked : Bool) → Change q j (block_replay id token blocked j).0
    unfolding block_replay
    block_replay-Change id token blocked = elim (Option-cases (find j id token)) [
      | inl e ↦ rw (e, block_replay) same
      | inr (r, e) ↦
          elim (Bool-cases
            ((r.replay_blocked && blocked) || (not r.replay_blocked && not blocked))) [
              | inl t ↦ rw (e, block_replay, t) same
              | inr t ↦
                  rw (e, block_replay, t) (evolve_at id token r _ e (Evolution.blocks blocked))
            ]
    ]

    pub assign_docker_daemon-Change :
        (id token daemon : String) → Change q j (assign_docker_daemon id token daemon j).0
    unfolding assign_docker_daemon
    assign_docker_daemon-Change id token daemon = elim (Option-cases (find j id token)) [
      | inl e ↦ rw (e, assign_docker_daemon) same
      | inr (r, e) ↦
          elim (Bool-cases (r.cancel_requested || not (r.phase == "running") || daemon == "")) [
            | inl t ↦ rw (e, assign_docker_daemon, t) same
            | inr t ↦
                rw (e, assign_docker_daemon, t, with_record-fst)
                  (evolve_at id token r _ e (Evolution.assigns daemon (ground arith)))
          ]
    ]

    pub recover_unstarted-Change : (r : AttemptRecord) → Change q j (recover_unstarted r j).0
    unfolding recover_unstarted docker_runtime_name
    recover_unstarted-Change r = elim (Option-cases (find j r.job_id r.dispatch_token)) [
      | inl e ↦ rw (e, recover_unstarted) same
      | inr (c, e) ↦
          elim (Bool-cases (
            not c.known_unstarted
            && (not (docker_runtime_name c.runtime) || not (c.docker_daemon_id == "")))) [
              | inl t ↦ rw (e, recover_unstarted, t) same
              | inr t ↦
                  rw (e, recover_unstarted, t)
                    (evolve_at r.job_id r.dispatch_token c _ e Evolution.recovers)
            ]
    ]

    pub admit-Change : (a : JobAssignment) (backend : String) → Change q j (admit a backend j).0
    unfolding admit
    admit-Change a backend =
        elim (Bool-cases (not (a.runtime == "ollama") && not (docker_runtime_name a.runtime))) [
          | inl t ↦ rw (t, admit) same
          | inr t ↦ elim (Option-cases (find j a.job_id a.dispatch_token)) [
            | inr (r, e) ↦
                elim (Bool-cases
                  (refuses_admission j (attempt_key a.job_id a.dispatch_token) (some r))) [
                    | inl no' ↦ rw (t, admit, e, no') same
                    | inr go ↦
                        rw (t, admit, e, go, find_or_fresh, with_record-fst)
                          (evolve_at a.job_id a.dispatch_token r _ e (
                            Evolution.admits a backend (ground arith) (ground arith)
                              (ground arith)))
                  ]
            | inl e ↦ elim (fresh_cases j a.job_id a.dispatch_token) [
              | inl (x, f) ↦ rw (t, admit, e, refuses_admission, find_or_fresh, f) same
              | inr (f, room) ↦
                  rw (t, admit, e, refuses_admission, find_or_fresh, f, with_record-fst)
                    (births a.job_id a.dispatch_token _ e room (Birth.admitted_first a backend))
            ]
          ]
        ]

    pub remember_cancellation-Change :
        (id token : String) (known : Bool) → Change q j (remember_cancellation id token known j).0
    unfolding remember_cancellation
    remember_cancellation-Change id token known = elim (Option-cases (find j id token)) [
      | inr (r, e) ↦ elim (Bool-cases (known && not r.known_unstarted)) [
        | inl t ↦ rw (e, remember_cancellation, find_or_fresh, t) same
        | inr t ↦
            rw (e, remember_cancellation, find_or_fresh, t, with_record-fst)
              (evolve_at id token r _ e Evolution.cancels)
      ]
      | inl e ↦ elim (fresh_cases j id token) [
        | inl (x, f) ↦ rw (e, remember_cancellation, find_or_fresh, f) same
        | inr (f, room) ↦ elim (Bool-cases (known && true)) [
          | inl t ↦ rw (e, remember_cancellation, find_or_fresh, f, t) same
          | inr t ↦
              rw (e, remember_cancellation, find_or_fresh, f, t, with_record-fst)
                (births id token _ e room Birth.cancelled_first)
        ]
      ]
    ]

    pub remember_result-Change : (x : JobResult) → Change q j (remember_result x j).0
    unfolding remember_result
    remember_result-Change x = elim (Option-cases (find j x.job_id x.dispatch_token)) [
      | inr (r, e) ↦ elim (Bool-cases (is_some r.result)) [
        | inl t ↦ rw (e, remember_result, find_or_fresh, t) same
        | inr t ↦
            rw (e, remember_result, find_or_fresh, t)
              (evolve_at x.job_id x.dispatch_token r _ e (Evolution.results x t))
      ]
      | inl e ↦ elim (fresh_cases j x.job_id x.dispatch_token) [
        | inl (y, f) ↦ rw (e, remember_result, find_or_fresh, f) same
        | inr (f, room) ↦
            rw (e, remember_result, find_or_fresh, f)
              (births x.job_id x.dispatch_token _ e room (Birth.result_first x))
      ]
    ]

    pub remember_legacy_result-Change : (x : JobResult) → Change q j (remember_legacy_result x j).0
    unfolding remember_legacy_result
    remember_legacy_result-Change x = elim (Option-cases (find j x.job_id x.dispatch_token)) [
      | inr (r, e) ↦ rw (e, remember_legacy_result) same
      | inl e ↦ elim (fresh_cases j x.job_id x.dispatch_token) [
        | inl (y, f) ↦ rw (e, remember_legacy_result, f) same
        | inr (f, room) ↦
            rw (e, remember_legacy_result, f, with_record-fst)
              (births x.job_id x.dispatch_token _ e room (Birth.legacy_first x))
      ]
    ]
