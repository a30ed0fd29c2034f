-- ===== src/Journal/Admission.antt =====
-- An attempt enters the runtime at most once, and a cancelled attempt never does: what the flags
-- of internal/job/journal.go guarantee over every history of calls.
use rungpu_agent.Base.{
  String, Bool, true, false, not, ◌||◌, ◌&&◌, List, Option, none, some, lookup, insert, ◌==◌,
  string_eq, ◌≡◌, refl, sym, ◌∙◌, ap, subst, arith, ◌⊎◌, inl, inr, Option-cases, Bool-cases,
  lookup-insert_self,
}
use rungpu_agent.Digest.{Sha256}
use rungpu_agent.Types.{JobAssignment}
use rungpu_agent.Journal.Records.{
  AttemptRecord, JournalIdentity, JournalError, already_tracked, unsupported_runtime,
  cannot_enter_runtime, docker_runtime_name, is_some, attempt_key,
}
use rungpu_agent.Journal.Store.{AttemptJournal, store}
use rungpu_agent.Journal.Operations.{
  ok, fail, find, admit, running, refuses_admission, remember_cancellation, with_record, cancelled,
  cancel_record, find_or_fresh,
}
use rungpu_agent.Journal.Lifecycle.{Evolution, IsKeyed, key_of, blank, with_record-fst, fresh_cases}
use rungpu_agent.Journal.Runs.{
  Call, run, running-IsKeyed, remember_cancellation-IsKeyed, store_ok_records, Holds, run-Holds,
}

abbrev pub IsClosed : AttemptRecord → Type 0
IsClosed r = (r.known_unstarted ≡ false) ⊎ (r.cancel_requested ≡ true) ⊎ (is_some r.result ≡ true)

abbrev pub IsCancelled : AttemptRecord → Type 0
IsCancelled r = r.cancel_requested ≡ true

module _ ⦃h : Sha256⦄ where
  pub IsClosed-Evolution :
      {q : Bool} (i : JournalIdentity) (old new : AttemptRecord)
      → Evolution q i old new
      → IsClosed old
      → IsClosed new
  IsClosed-Evolution i old new (Evolution.admits a b p q r) c = ground arith
  IsClosed-Evolution i old new (Evolution.runs p q) c = ground arith
  IsClosed-Evolution i old new (Evolution.completes x s w) c = ground arith
  IsClosed-Evolution i old new Evolution.cancels c = ground arith
  IsClosed-Evolution i old new (Evolution.results x p) c = ground arith
  IsClosed-Evolution i old new (Evolution.blocks b) c = ground arith
  IsClosed-Evolution i old new Evolution.accepts c = ground arith
  IsClosed-Evolution i old new (Evolution.assigns d p) c = ground arith
  IsClosed-Evolution i old new Evolution.recovers c = ground arith

  IsCancelled-Evolution :
      {q : Bool} (i : JournalIdentity) (old new : AttemptRecord)
      → Evolution q i old new
      → IsCancelled old
      → IsCancelled new
  IsCancelled-Evolution i old new (Evolution.admits a b p q r) c = ground arith
  IsCancelled-Evolution i old new (Evolution.runs p q) c = ground arith
  IsCancelled-Evolution i old new (Evolution.completes x s w) c = c
  IsCancelled-Evolution i old new Evolution.cancels c = ground arith
  IsCancelled-Evolution i old new (Evolution.results x p) c = ground arith
  IsCancelled-Evolution i old new (Evolution.blocks b) c = c
  IsCancelled-Evolution i old new Evolution.accepts c = c
  IsCancelled-Evolution i old new (Evolution.assigns d p) c = c
  IsCancelled-Evolution i old new Evolution.recovers c = c

  -- `admit` refuses a closed attempt and leaves the journal alone.
  pub admit_closed :
      (a : JobAssignment) (backend : String) (j : AttemptJournal)
      → Holds IsClosed (attempt_key a.job_id a.dispatch_token) j
      → (admit a backend j ≡ (j, fail already_tracked))
        ⊎ (admit a backend j ≡ (j, fail unsupported_runtime))
  unfolding admit
  admit_closed a backend j (r, found, c) =
      elim (Bool-cases (not (a.runtime == "ollama") && not (docker_runtime_name a.runtime))) [
        | inl t ↦ inr (rw (t, admit))
        | inr t ↦ inl (rw (t, admit, found, refuses) refl)
      ]
    where
      refuses : refuses_admission j (attempt_key a.job_id a.dispatch_token) (some r) ≡ true
      refuses = ground arith

  running_cancelled :
      (id token : String) (j : AttemptJournal)
      → Holds IsCancelled (attempt_key id token) j
      → running id token j ≡ (j, some cannot_enter_runtime)
  unfolding running
  running_cancelled id token j (r, found, c) = rw (found, running) (ground arith)

  -- A store without an error leaves its record under its key.
  pub store_ok-Holds :
      (P : AttemptRecord → Type 0) (k : String) (r : AttemptRecord) (j : AttemptJournal)
      → key_of r ≡ k
      → P r
      → (store r j).1 ≡ none
      → Holds P k (store r j).0
  store_ok-Holds P k r j e p good = (
    r,
    ap (lookup k) (store_ok_records r j good)
        ∙ ap (λ x. lookup k (insert x r j.records)) e
        ∙ lookup-insert_self k r j.records,
    p,
  )

  running_ok :
      (id token : String) (j : AttemptJournal)
      → IsKeyed j.records
      → (running id token j).1 ≡ none
      → Holds IsClosed (attempt_key id token) (running id token j).0
  unfolding running
  running_ok id token j keyed good = elim (Option-cases (find j id token)) [
    | inl e ↦ cc (rw (e, running) at good)
    | inr (r, e) ↦ elim (Bool-cases (not r.known_unstarted || r.cancel_requested)) [
      | inl t ↦ cc (rw (e, running, t) at good)
      | inr t ↦
          rw (e, running, t)
            (store_ok-Holds IsClosed _ (record r { phase = "running"; known_unstarted = false }) j
              (keyed _ r e) (inl refl) (rw (e, running, t) at good))
    ]
  ]

  -- Once an attempt has entered the runtime, every later admission of it is refused and leaves the
  -- journal unchanged, whatever calls are made on the journal in between and whatever disk writes
  -- fail. The records must stand under their own keys, as every call keeps them.
  pub running_then_no_admission :
      (id token backend : String) (a : JobAssignment) (j : AttemptJournal) (cs : List Call)
      → IsKeyed j.records
      → (running id token j).1 ≡ none
      → attempt_key a.job_id a.dispatch_token ≡ attempt_key id token
      → let later : AttemptJournal = run cs (running id token j).0 in
        (admit a backend later ≡ (later, fail already_tracked))
        ⊎ (admit a backend later ≡ (later, fail unsupported_runtime))
  running_then_no_admission id token backend a j cs keyed good same = admit_closed a backend _ (
      subst (λ k. Holds IsClosed k (run cs (running id token j).0)) (sym same)
        (run-Holds IsClosed IsClosed-Evolution (attempt_key id token) cs (running id token j).0
          (running-IsKeyed id token j keyed) (running_ok id token j keyed good)))

  with_record_ok :
      (r s : AttemptRecord) (p : AttemptJournal × Option JournalError)
      → (with_record r p).1 ≡ ok s
      → (p.1 ≡ none) × (r ≡ s)
  with_record_ok r s (j, none) good = (refl, cc good)
  with_record_ok r s (j, some e) good = absurd cc

  -- The record that a call returned.
  abbrev pub Cancels : AttemptRecord → AttemptRecord → Type 0
  Cancels s r = (r ≡ s) × IsCancelled r

  cancelled_ok :
      (k : String) (r s : AttemptRecord) (j : AttemptJournal)
      → key_of r ≡ k
      → (with_record (cancelled r) (store (cancelled r) j)).1 ≡ ok s
      → Holds (Cancels s) k (with_record (cancelled r) (store (cancelled r) j)).0
  cancelled_ok k r s j e good =
      let (written, same) = with_record_ok (cancelled r) s (store (cancelled r) j) good in
      rw (with_record-fst (cancelled r) (store (cancelled r) j)) (
        store_ok-Holds (Cancels s) k (cancelled r) j (ground (arith, e)) (same, ground arith)
          written)

  cancel_record_ok :
      (known : Bool) (k : String) (r s : AttemptRecord) (j : AttemptJournal)
      → key_of r ≡ k
      → (cancel_record known j (ok r)).1 ≡ ok s
      → Holds (Cancels s) k (cancel_record known j (ok r)).0
  cancel_record_ok known k r s j e good = elim (Bool-cases (known && not r.known_unstarted)) [
    | inl t ↦ cc (rw t at good)
    | inr t ↦ rw t (cancelled_ok k r s j e (rw t at good))
  ]

  pub remember_cancellation_ok :
      (id token : String) (known : Bool) (s : AttemptRecord) (j : AttemptJournal)
      → IsKeyed j.records
      → (remember_cancellation id token known j).1 ≡ ok s
      → Holds (Cancels s) (attempt_key id token) (remember_cancellation id token known j).0
  unfolding remember_cancellation
  remember_cancellation_ok id token known s j keyed good = elim (Option-cases (find j id token)) [
    | inr (r, e) ↦
        rw (e, remember_cancellation, find_or_fresh)
          (cancel_record_ok known _ r s j (keyed _ r e)
            (rw (e, remember_cancellation, find_or_fresh) at good))
    | inl e ↦ elim (fresh_cases j id token) [
      | inl (x, f) ↦ cc (rw (e, remember_cancellation, find_or_fresh, f) at good)
      | inr (f, room) ↦
          rw (e, remember_cancellation, find_or_fresh, f)
            (cancel_record_ok known _ (record (blank j.identity id token) { phase = "unknown" }) s j
              refl (rw (e, remember_cancellation, find_or_fresh, f) at good))
    ]
  ]

  -- Once a cancellation is recorded without an error, the attempt can neither enter the runtime nor
  -- be admitted, after any further calls and whatever disk writes fail: both are refused and leave
  -- the journal unchanged. The records must stand under their own keys, as every call keeps them.
  pub cancelled_never_runs :
      (id token backend : String) (known : Bool) {s : AttemptRecord} (a : JobAssignment)
      (j : AttemptJournal) (cs : List Call)
      → IsKeyed j.records
      → (remember_cancellation id token known j).1 ≡ ok s
      → attempt_key a.job_id a.dispatch_token ≡ attempt_key id token
      → let later : AttemptJournal = run cs (remember_cancellation id token known j).0 in
        (running id token later ≡ (later, some cannot_enter_runtime))
        × ((admit a backend later ≡ (later, fail already_tracked))
            ⊎ (admit a backend later ≡ (later, fail unsupported_runtime)))
  cancelled_never_runs id token backend known {s} a j cs keyed good same =
      let k : String = attempt_key id token in
      let start : AttemptJournal = (remember_cancellation id token known j).0 in
      let hold : Holds IsCancelled k (run cs start) =
        run-Holds IsCancelled IsCancelled-Evolution k cs start
          (remember_cancellation-IsKeyed id token known j keyed)
          (let (r, found, (e, c)) = remember_cancellation_ok id token known s j keyed good in
            (r, found, c)) in
      (
        running_cancelled id token (run cs start) hold,
        admit_closed a backend (run cs start) (
            subst (λ x. Holds IsClosed x (run cs start)) (sym same)
              (hold.0, hold.1, inr (inl hold.2))),
      )
