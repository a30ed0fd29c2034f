-- ===== src/Dispatch/Shut.antt =====
-- The outcome of cancellationTombstoneLocked (internal/pool/client.go).
use rungpu_agent.Base.{
  String, Bool, true, false, not, ◌&&◌, Option, none, some, lookup, length, leb, string_eq,
  if◌then◌else◌, ◌≡◌, refl, arith, ◌⊎◌, inl, inr, lookup-insert_self,
}
use rungpu_agent.Digest.{Sha256}
use rungpu_agent.Journal.Records.{is_some, AttemptRecord}
use rungpu_agent.Journal.Store.{AttemptJournal}
use rungpu_agent.Journal.Operations.{Outcome, ok, fail, remember_cancellation}
use rungpu_agent.Outbox.State.{attempt_result_key}
use rungpu_agent.Dispatch.Client.{
  Client, Texts, Tombstone, with_journal, cancellation_tombstone, remember_in, Remembered, kept,
  fenced, put_tombstone, fence, tombstone_of, max_cancellation_tombstones, blank_tombstone,
}
use rungpu_agent.Dispatch.Assigning.{}
use rungpu_agent.Dispatch.Cancelling.{}
use rungpu_agent.Dispatch.Closed.{}

module _ ⦃h : Sha256⦄ {S : Type 0} where
  -- A tombstone that was remembered is there.
  abbrev pub IsBuried : String → Client S × Remembered → Type 0
  IsBuried key q =
      (t : Tombstone) → q.1 ≡ kept t → is_some (lookup key q.0.cancellation_tombstones) ≡ true

  -- The outcome of cancellationTombstoneLocked: the tombstone is there, or admission is fenced.
  pub record IsShut (key : String) (c : Client S) (q : Client S × Remembered) : Type 0 where
    pub deferred : q.0.deferred_assignments ≡ c.deferred_assignments
    pub executor : q.0.executor ≡ c.executor
    pub barrier :
        (is_some (lookup key q.0.cancellation_tombstones) ≡ true)
        ⊎ (q.0.cancellation_admission_fenced ≡ true)
    pub buried : IsBuried key q

  put_tombstone-present :
      (key : String) (t : Tombstone) (c : Client S)
      → is_some (lookup key (put_tombstone key t c).cancellation_tombstones) ≡ true
  put_tombstone-present key t c = ground (arith, lookup-insert_self key t c.cancellation_tombstones)

  remember_in-IsShut :
      (texts : Texts) (key : String) (c : Client S) (q : AttemptJournal × Outcome AttemptRecord)
      → IsShut key c (remember_in texts key c q)
  remember_in-IsShut texts key c (j, fail e) = record {
    deferred = refl;
    executor = refl;
    barrier = inr refl;
    buried = λ t w. absurd (cc w);
  }
  remember_in-IsShut texts key c (j, ok r) =
      let there = put_tombstone-present key (tombstone_of r) (with_journal c (some j)) in
      record { deferred = refl; executor = refl; barrier = inl there; buried = λ t w. there }

  pub cancellation_tombstone-IsShut :
      (texts : Texts) (id token : String) (c : Client S)
      → IsShut (attempt_result_key id token) c (cancellation_tombstone texts id token c)
  unfolding cancellation_tombstone
  cancellation_tombstone-IsShut texts id token c =
      at
        (not (is_some (lookup key c.cancellation_tombstones))
          && leb max_cancellation_tombstones (length c.cancellation_tombstones))
        c.outbox.journal
    where
      key : String
      key = attempt_result_key id token

      at :
          (b : Bool) (o : Option AttemptJournal)
          → IsShut key c (
              if b
              then (
                fence c,
                fenced "cancellation tombstone capacity reached; agent admission is fenced",
              )
              else elim o [
                | some j ↦ remember_in texts key c (remember_cancellation id token false j)
                | none ↦
                    let t : Tombstone = blank_tombstone (lookup key c.cancellation_tombstones) in
                    (put_tombstone key t c, kept t)
              ])
      at true o = record {
        deferred = refl;
        executor = refl;
        barrier = inr refl;
        buried = λ t w. absurd (cc w);
      }
      at false (some j) = remember_in-IsShut texts key c (remember_cancellation id token false j)
      at false none =
          let there =
            put_tombstone-present key (blank_tombstone (lookup key c.cancellation_tombstones)) c in
          record { deferred = refl; executor = refl; barrier = inl there; buried = λ t w. there }
