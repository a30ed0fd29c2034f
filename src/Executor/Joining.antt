-- ===== src/Executor/Joining.antt =====
-- A new execution joins the others only when all of them have a verified stop in the journal
-- (internal/job/executor.go, Start).
use rungpu_agent.Base.{
  ℕ, suc, String, Bool, true, false, [], ◌∷◌, any, none, some, Map, lookup, ◌==◌, nat_eq, string_eq,
  ◌≡◌, ◌≢◌, refl, sym, subst, arith, ◌⊎◌, inl, inr, ◌<◌, Bool-cases, nat_beq_iff,
}
use rungpu_agent.Digest.{Sha256}
use rungpu_agent.Types.{JobAssignment}
use rungpu_agent.Journal.Records.{OwnedResource, attempt_key}
use rungpu_agent.Journal.Store.{AttemptJournal}
use rungpu_agent.Journal.Operations.{}
use rungpu_agent.Journal.Runs.{Holds}
use rungpu_agent.Journal.Admission.{IsClosed}
use rungpu_agent.Executor.State.{Execution, Executor}
use rungpu_agent.Executor.Start.{Machine, is_busy, is_gpu_busy, refusal, new_execution}
use rungpu_agent.Executor.Run.{}
use rungpu_agent.Executor.Cancel.{}
use rungpu_agent.Executor.Histories.{}
use rungpu_agent.Executor.Kept.{Keeps, Anywhere}
use rungpu_agent.Executor.Invariant.{IsSafe, Sound, Fits, Apart, key_at, Fits-Keeps}
use rungpu_agent.Executor.Extension.{extended, joined, at_each, joined_self, joined-IsIndexed}

pub any-lookup :
    (p : ℕ → Bool) (m : Map ℕ) (id : String) (t : ℕ)
    → any (λ entry. p entry.1) m ≡ false
    → lookup id m ≡ some t
    → p t ≡ false
unfolding lookup
any-lookup p [] id t quiet found = absurd cc
any-lookup p ((key, u) ∷ m) id t quiet found = elim (Bool-cases (key == id)) [
  | inl e ↦ ground (arith, rw e at found)
  | inr e ↦ any-lookup p m id t (ground arith) (rw e at found)
]

pub refusal-none :
    (m : Machine) (a : JobAssignment) (e : Executor) → refusal m a e ≡ none → is_gpu_busy e ≡ false
unfolding refusal
refusal-none m a e admitted = ground arith

module _ ⦃h : Sha256⦄ where
  -- When Start's checks pass, no execution holds the GPU.
  pub idle :
      (e : Executor)
      → IsSafe e
      → is_gpu_busy e ≡ false
      → (t : ℕ) → t < e.next
      → (e.heap t).is_held ≡ false
  unfolding is_gpu_busy
  idle e safe quiet t lt = elim (Bool-cases (e.heap t).is_held) [
    | inr free ↦ free
    | inl held ↦
        let quiet_t : is_busy (e.heap t) ≡ false =
          any-lookup (λ u. is_busy (e.heap u)) e.executions _ t quiet
            ((safe.fits t lt).tracked held) in
        absurd (ground (arith, quiet_t, held))
  ]

  -- A new execution joins idle ones.
  module _ (e : Executor) (safe : IsSafe e)
      (free : (t : ℕ) → t < e.next → (e.heap t).is_held ≡ false) (a : JobAssignment)
      (resource : OwnedResource) (j : AttemptJournal) (keeps : Keeps Anywhere e.journal j)
      (opened : ¬ Holds IsClosed (attempt_key a.job_id a.dispatch_token) e.journal) where
    abbrev x : Execution
    x = new_execution a resource

    abbrev executions' : Map ℕ
    executions' = joined e.heap e.next e.executions x

    new-Fits : Fits executions' j e.next x
    new-Fits = record {
      tracked = λ w. joined_self e.heap e.next e.executions x;
      released = λ w. absurd (cc w);
      confirmed = λ w. absurd (cc w);
      live = λ w. refl;
      settled = λ w. absurd (cc w);
      cancelled = λ w. absurd (cc w);
    }

    old-Fits : (t : ℕ) → t < e.next → Fits executions' j t (e.heap t)
    old-Fits t lt =
        let f = Fits-Keeps keeps (λ w. tt) (safe.fits t lt) in
        record {
          tracked = λ w. absurd (cc (free t lt, w));
          released = f.released;
          confirmed = f.confirmed;
          live = f.live;
          settled = f.settled;
          cancelled = f.cancelled;
        }

    new-apart :
        (t : ℕ)
        → t < e.next
        → ¬ ((key_at x ≡ key_at (e.heap t)) ⊎ ((x.is_held ≡ true) × ((e.heap t).is_held ≡ true)))
    new-apart t lt (inr (l, r)) = cc (free t lt, r)
    new-apart t lt (inl same_key) = opened (
        subst (λ k. Holds IsClosed k e.journal) (sym same_key)
          (let (r, found, (v, c)) = (safe.fits t lt).released (free t lt) in (r, found, c)))

    pub new-IsSafe : Sound (extended e.heap e.next e.executions x) (suc e.next) executions' j
    new-IsSafe = record {
      keyed = keeps.keyed;
      fits = at_each e.heap e.next e.executions x (Fits executions' j) new-Fits old-Fits;
      known = joined-IsIndexed e.heap e.next e.executions x safe.known;
      apart = apart;
    }
      where
        apart :
            (s t : ℕ)
            → s < suc e.next
            → t < suc e.next
            → s ≢ t
            → Apart
                (extended e.heap e.next e.executions x s)
                (extended e.heap e.next e.executions x t)
        apart s t ls lt ne = elim (Bool-cases (e.next == s)) [
          | inl same ↦ elim (Bool-cases (e.next == t)) [
            | inl both ↦ absurd (ground (arith, nat_beq_iff e.next s, nat_beq_iff e.next t))
            | inr one ↦
                rw (same, one) (λ w. absurd (new-apart t (ground (arith, nat_beq_iff e.next t)) w))
          ]
          | inr other ↦ elim (Bool-cases (e.next == t)) [
            | inl same ↦
                rw (other, same)
                  (λ w. absurd (
                    new-apart s (ground (arith, nat_beq_iff e.next s))
                      (elim w [ inl k ↦ inl (sym k) | inr (l, r) ↦ inr (r, l) ])))
            | inr both ↦
                rw (other, both)
                  (safe.apart s t (ground (arith, nat_beq_iff e.next s))
                    (ground (arith, nat_beq_iff e.next t)) ne)
          ]
        ]
