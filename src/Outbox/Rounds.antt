-- ===== src/Outbox/Rounds.antt =====
-- internal/pool/result_outbox.go: sendPendingResults sends what is due, waits longer after each
-- attempt, and keeps the outbox in order.
use rungpu_agent.Base.{
  ℕ, ◌≡◌, refl, sym, ap, subst, ◌∙◌, ◌⊎◌, inl, inr, ◌≤◌, string_eq, nat_eq, Bool, true, false, List,
  [], ◌∷◌, Option, none, some, lookup, insert, if◌then◌else◌, arith,
}
use rungpu_agent.Digest.{Sha256}
use rungpu_agent.Types.{JobResult}
use rungpu_agent.Outbox.State.{PendingResult, stored, Outbox, is_foreign_key, persist_result_at_key}
use rungpu_agent.Outbox.Soundness.{
  IsSound, Persisted, kept, saved, Persisted-persist_result_at_key, AreEntries-insert,
  AreEntries-kept, AreEntries-saved, AreEntries-move,
}
use rungpu_agent.Outbox.Sending.{
  result_retry_min, result_retry_max, next_delay, batch, current, same_pending, update_pending,
  prepare, send_due, send_pending_results,
}

-- A delay that was used, between two and thirty seconds.
IsDelay : ℕ → Type 0
IsDelay d = (result_retry_min ≤ d) × (d ≤ result_retry_max)

-- The delay after an attempt is between two and thirty seconds, if the delay before it is none or
-- is in that range.
IsDelay-next_delay : (d : ℕ) → (d ≡ 0) ⊎ IsDelay d → IsDelay (next_delay d)
unfolding IsDelay next_delay
IsDelay-next_delay d (inl e) = ground (arith, e)
IsDelay-next_delay d (inr b) = ground (arith, b)

module _ ⦃h : Sha256⦄ where
  current-lookup :
      (p q : PendingResult) (box : Outbox)
      → current p box ≡ some q
      → lookup p.key box.results ≡ some q
  unfolding current
  current-lookup p q box e = pending_cases (lookup p.key box.results) e
    where
      pending_cases : (o : Option PendingResult) → same_pending p o ≡ some q → o ≡ some q
      pending_cases none e = e
      pending_cases (some r) e = ground (arith, e)

  module _ (now : ℕ) (box : Outbox) (q : PendingResult)
      (own : is_foreign_key q.key q.result ≡ false) (sound : IsSound box) where
    IsSound-update_pending :
        (w : Outbox × Bool) → Persisted q.key q.result box w → IsSound (update_pending now q w)
    IsSound-update_pending (_, false) (kept after e f) =
        AreEntries-move e (ap (insert q.key _) f)
          (AreEntries-kept box.files box.results _ own refl sound)
    IsSound-update_pending (_, true) (saved after e f) =
        AreEntries-move e (ap (insert q.key _) f)
          (AreEntries-saved box.files box.results _ own sound)

    IsSound-prepare :
        (d : Bool)
        → (d ≡ true → lookup q.key box.files ≡ some (stored q.result))
        → IsSound (
            update_pending now q
              (if d then (box, true) else persist_result_at_key q.key q.result box))
    IsSound-prepare true file =
        AreEntries-insert box.files box.results q.key _
          (record { own_key = refl; own_result = own; in_file = λ e. file refl })
          (λ key p differs e. sound key p e)
    IsSound-prepare false file =
        IsSound-update_pending _ (Persisted-persist_result_at_key q.key q.result box)

  pub IsSound-prepare-current :
      (now : ℕ) (box : Outbox) (p q : PendingResult)
      → current p box ≡ some q
      → IsSound box
      → IsSound (prepare now q box)
  unfolding prepare
  IsSound-prepare-current now box p q e sound =
      let entry = sound p.key q (current-lookup p q box e) in
      let own =
        subst (λ k. is_foreign_key k q.result ≡ false) (sym entry.own_key) entry.own_result in
      IsSound-prepare now box q own sound q.durable
        (λ d. ap (λ k. lookup k box.files) entry.own_key ∙ entry.in_file d)

  IsSound-either :
      (c : Bool) (x y : Outbox × Bool) → IsSound x.0 → IsSound y.0 → IsSound (if c then x else y).0
  IsSound-either true x y sx sy = sx
  IsSound-either false x y sx sy = sy

  module _ (write : JobResult → Outbox → Outbox × Bool) (now : ℕ)
      (keeps : (r : JobResult) (box : Outbox) → IsSound box → IsSound (write r box).0) where
    module _ (due : List PendingResult)
        (rest : (box : Outbox) → IsSound box → IsSound (send_due write now due box).0) where
      sent_cases :
          (w : Outbox × Bool)
          → IsSound w.0
          → IsSound
              (elim w.1 as (λ b. Outbox × Bool) [
                | true ↦ send_due write now due w.0
                | false ↦ (w.0, false)
              ]).0
      sent_cases (after, true) s = rest after s
      sent_cases (after, false) s = s

      current_cases :
          (p : PendingResult) (box : Outbox)
          → IsSound box
          → (o : Option PendingResult) → current p box ≡ o
          → IsSound
              (elim o as (λ x. Outbox × Bool) [
                | none ↦ send_due write now due box
                | some q ↦
                    let w = write q.result (prepare now q box) in
                    elim w.1 as (λ b. Outbox × Bool) [
                      | true ↦ send_due write now due w.0
                      | false ↦ (w.0, false)
                    ]
              ]).0
      current_cases p box sound none f = rest box sound
      current_cases p box sound (some q) f =
          sent_cases (write q.result (prepare now q box))
            (keeps q.result _ (IsSound-prepare-current now box p q f sound))

    IsSound-send_due :
        (due : List PendingResult) (box : Outbox)
        → IsSound box
        → IsSound (send_due write now due box).0
    unfolding send_due
    IsSound-send_due [] box sound = sound
    IsSound-send_due (p ∷ due) box sound =
        IsSound-either box.cancelled (box, false) _ sound
          (current_cases due (IsSound-send_due due) p box sound (current p box) refl)

    -- A round of sending keeps every pending result under its own key, and every durable one in its
    -- file, if whatever happens while a result is written to the connection does.
    pub IsSound-send_pending_results :
        (box : Outbox) → IsSound box → IsSound (send_pending_results write now box).0
    unfolding send_pending_results
    IsSound-send_pending_results box sound = IsSound-send_due (batch box now) box sound
