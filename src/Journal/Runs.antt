-- ===== src/Journal/Runs.antt =====
-- Sequences of calls on one journal: `step` is one method call of internal/job/journal.go or
-- backend_identity.go, and `run` a history of them.
use rungpu_agent.Base.{
  String, Bool, true, List, [], ◌∷◌, Option, none, some, lookup, insert, ◌==◌, string_eq, ◌≡◌, refl,
  sym, ◌∙◌, arith, ◌⊎◌, inl, inr, Bool-cases, lookup-insert, subst, ap,
}
use text.Mathlib.TextEquality.{eq_iff}
use rungpu_agent.Digest.{Sha256}
use rungpu_agent.Types.{JobAssignment, JobResult}
use rungpu_agent.Journal.Records.{AttemptRecord, JournalIdentity, attempt_key}
use rungpu_agent.Journal.Store.{AttemptJournal, store}
use rungpu_agent.Journal.Writes.{store-Storing, stays, fails, succeeds}
use rungpu_agent.Journal.Operations.{
  admit, running, complete, remember_cancellation, remember_result, remember_legacy_result,
  block_replay, accept, assign_docker_daemon, recover_unstarted,
}
use rungpu_agent.Journal.Lifecycle.{
  Change, same, evolves, births, Evolution, Birth, IsKeyed, key_of, admit-Change, running-Change,
  complete-Change, remember_cancellation-Change, remember_result-Change,
  remember_legacy_result-Change, block_replay-Change, accept-Change, assign_docker_daemon-Change,
  recover_unstarted-Change,
}

pub data Call : Type 0 where
  admits : JobAssignment → String → Call
  enters : String → String → Call
  completes : String → String → Option JobResult → Bool → Call
  cancels : String → String → Bool → Call
  results : JobResult → Call
  legacy_results : JobResult → Call
  blocks : String → String → Bool → Call
  accepts : String → String → Call
  assigns : String → String → String → Call
  recovers : AttemptRecord → Call

module _ ⦃h : Sha256⦄ where
  unfoldable pub step : Call → AttemptJournal → AttemptJournal
  step (admits a backend) j = (admit a backend j).0
  step (enters id token) j = (running id token j).0
  step (completes id token result stopped) j = (complete id token result stopped j).0
  step (cancels id token known) j = (remember_cancellation id token known j).0
  step (results x) j = (remember_result x j).0
  step (legacy_results x) j = (remember_legacy_result x j).0
  step (blocks id token b) j = (block_replay id token b j).0
  step (accepts id token) j = (accept id token j).0
  step (assigns id token daemon) j = (assign_docker_daemon id token daemon j).0
  step (recovers r) j = (recover_unstarted r j).0

  unfoldable pub run : List Call → AttemptJournal → AttemptJournal
  run [] j = j
  run (c ∷ cs) j = run cs (step c j)

  -- Every call is one change.
  pub step-Change : (c : Call) (j : AttemptJournal) → IsKeyed j.records → Change true j (step c j)
  unfolding step
  step-Change (admits a backend) j k = admit-Change j k a backend
  step-Change (enters id token) j k = running-Change j k id token
  step-Change (completes id token x s) j k = complete-Change j k id token x s (inl refl)
  step-Change (cancels id token b) j k = remember_cancellation-Change j k id token b
  step-Change (results x) j k = remember_result-Change j k x
  step-Change (legacy_results x) j k = remember_legacy_result-Change j k x
  step-Change (blocks id token b) j k = block_replay-Change j k id token b
  step-Change (accepts id token) j k = accept-Change j k id token
  step-Change (assigns id token d) j k = assign_docker_daemon-Change j k id token d
  step-Change (recovers r) j k = recover_unstarted-Change j k r

  -- A store writes one record into memory and reports no error, or leaves the records alone.
  pub store_records :
      (r : AttemptRecord) (j : AttemptJournal)
      → ((store r j).0.records ≡ j.records)
        ⊎ ((store r j).0.records ≡ insert (key_of r) r j.records)
  store_records r j = elim (store-Storing r j) [
    | stays e f p ↦ inl (ap (λ q. q.0.records) p)
    | fails e c d f t p ↦ inl (ap (λ q. q.0.records) p)
    | succeeds c d f w p ↦ inr (ap (λ q. q.0.records) p)
  ]

  pub store_ok_records :
      (r : AttemptRecord) (j : AttemptJournal)
      → (store r j).1 ≡ none
      → (store r j).0.records ≡ insert (key_of r) r j.records
  store_ok_records r j h = elim (store-Storing r j) [
    | stays e f p ↦ cc (p, h)
    | fails e c d f t p ↦ cc (p, h)
    | succeeds c d f w p ↦ ap (λ q. q.0.records) p
  ]

  pub Evolution-key :
      {q : Bool} {i : JournalIdentity} (old new : AttemptRecord)
      → Evolution q i old new
      → key_of new ≡ key_of old
  Evolution-key old new (Evolution.admits a b p q r) = refl
  Evolution-key old new (Evolution.runs p q) = refl
  Evolution-key old new (Evolution.completes x s w) = refl
  Evolution-key old new Evolution.cancels = ground arith
  Evolution-key old new (Evolution.results x p) = ground arith
  Evolution-key old new (Evolution.blocks b) = refl
  Evolution-key old new Evolution.accepts = refl
  Evolution-key old new (Evolution.assigns d p) = refl
  Evolution-key old new Evolution.recovers = refl

  pub Birth-key :
      {i : JournalIdentity} {id token : String} (new : AttemptRecord)
      → Birth i id token new
      → key_of new ≡ attempt_key id token
  Birth-key new (Birth.admitted_first a b) = refl
  Birth-key new Birth.cancelled_first = ground arith
  Birth-key new (Birth.result_first x) = ground arith
  Birth-key new (Birth.legacy_first x) = refl

  store-IsKeyed :
      (r : AttemptRecord) (j : AttemptJournal) → IsKeyed j.records → IsKeyed (store r j).0.records
  store-IsKeyed r j keyed k s found = elim (store_records r j) [
    | inl e ↦ keyed k s (ap (lookup k) (sym e) ∙ found)
    | inr e ↦ at (ap (lookup k) (sym e) ∙ found)
  ]
    where
      at : lookup k (insert (key_of r) r j.records) ≡ some s → key_of s ≡ k
      at f = ground (arith, lookup-insert (key_of r) k r j.records, eq_iff (key_of r) k, keyed k s)

  pub Change-IsKeyed :
      {q : Bool} (j j' : AttemptJournal) → Change q j j' → IsKeyed j.records → IsKeyed j'.records
  Change-IsKeyed j j' same keyed = keyed
  Change-IsKeyed j j' (evolves old new e s) keyed = store-IsKeyed new j keyed
  Change-IsKeyed j j' (births id token new e room b) keyed = store-IsKeyed new j keyed

  pub step-IsKeyed :
      (c : Call) (j : AttemptJournal) → IsKeyed j.records → IsKeyed (step c j).records
  step-IsKeyed c j keyed = Change-IsKeyed j (step c j) (step-Change c j keyed) keyed

  pub run-IsKeyed :
      (cs : List Call) (j : AttemptJournal) → IsKeyed j.records → IsKeyed (run cs j).records
  unfolding run
  run-IsKeyed [] j keyed = keyed
  run-IsKeyed (c ∷ cs) j keyed = run-IsKeyed cs (step c j) (step-IsKeyed c j keyed)

  pub running-IsKeyed :
      (id token : String) (j : AttemptJournal)
      → IsKeyed j.records
      → IsKeyed (running id token j).0.records
  unfolding step
  running-IsKeyed id token j = step-IsKeyed (enters id token) j

  pub remember_cancellation-IsKeyed :
      (id token : String) (known : Bool) (j : AttemptJournal)
      → IsKeyed j.records
      → IsKeyed (remember_cancellation id token known j).0.records
  unfolding step
  remember_cancellation-IsKeyed id token known j = step-IsKeyed (cancels id token known) j

  -- A property of an attempt's record that no evolution undoes holds for good.
  module _ (P : AttemptRecord → Type 0) where
    abbrev pub Holds : String → AttemptJournal → Type 0
    Holds k j = (r : AttemptRecord) × (lookup k j.records ≡ some r) × P r

    pub written_Holds :
        (k : String) (new : AttemptRecord) (j : AttemptJournal)
        → (key_of new ≡ k → P new)
        → Holds k j
        → Holds k (store new j).0
    written_Holds k new j good (r, found, p) = elim (store_records new j) [
      | inl e ↦ (r, ap (lookup k) e ∙ found, p)
      | inr e ↦ elim (Bool-cases (key_of new == k)) [
        | inl hit ↦ (
          new,
          ap (lookup k) e ∙ ground (arith, lookup-insert (key_of new) k new j.records),
          good ((eq_iff (key_of new) k).0 hit),
        )
        | inr miss ↦
            (r, ap (lookup k) e ∙ ground (arith, lookup-insert (key_of new) k new j.records), p)
      ]
    ]

    module _ {q : Bool}
        (keep : (i : JournalIdentity) (old new : AttemptRecord)
          → Evolution q i old new
          → P old
          → P new) where
      pub Change-Holds :
          (k : String) (j j' : AttemptJournal) → Change q j j' → Holds k j → Holds k j'
      Change-Holds k j j' same hold = hold
      Change-Holds k j j' (evolves old new e s) hold =
          written_Holds k new j
            (λ here. keep j.identity old new s (
              let same_record : old ≡ hold.0 =
                cc (
                  e,
                  hold.1,
                  ap (λ x. lookup x j.records) (sym (Evolution-key old new s) ∙ here),
                ) in
              subst P (sym same_record) hold.2))
            hold
      Change-Holds k j j' (births id token new e room b) hold =
          written_Holds k new j
            (λ here.
              absurd (cc (e, hold.1, ap (λ x. lookup x j.records) (sym (Birth-key new b) ∙ here))))
            hold

    pub run-Holds :
        ((i : JournalIdentity) (old new : AttemptRecord) → Evolution true i old new → P old → P new)
        → (k : String) (cs : List Call) (j : AttemptJournal) → IsKeyed j.records
        → Holds k j
        → Holds k (run cs j)
    unfolding run
    run-Holds keep k [] j keyed hold = hold
    run-Holds keep k (c ∷ cs) j keyed hold =
        run-Holds keep k cs (step c j) (step-IsKeyed c j keyed)
          (Change-Holds keep k j (step c j) (step-Change c j keyed) hold)
