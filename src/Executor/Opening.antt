-- ===== src/Executor/Opening.antt =====
-- The executor while restoreJournal (internal/job/recovery.go) fills it: every execution is restored
-- and holds the GPU, and one more may be tracked.
use rungpu_agent.Base.{
  ℕ, suc, String, true, false, none, some, Map, lookup, string_eq, ◌==◌, nat_eq, ◌≡◌, ap, arith,
  inl, inr, ◌<◌, Bool-cases, lookup-insert,
}
use text.Mathlib.TextEquality.{eq_iff}
use rungpu_agent.Digest.{Sha256}
use rungpu_agent.Journal.Records.{}
use rungpu_agent.Journal.Operations.{}
use rungpu_agent.Journal.Runs.{Holds}
use rungpu_agent.Journal.Admission.{IsClosed}
use rungpu_agent.Executor.State.{Execution, Executor}
use rungpu_agent.Executor.Kept.{}
use rungpu_agent.Executor.Invariant.{IsSafe, Fits, key_at}
use rungpu_agent.Executor.Extension.{extended, joined, at_each, joined_self, joined-IsIndexed}
use rungpu_agent.Executor.Recovery.{track}

module _ ⦃h : Sha256⦄ where
  -- While the agent opens its journal, every execution is restored and holds the GPU.
  pub record Opening (e : Executor) : Type 0 where
    pub safe : IsSafe e
    pub all_restored : (t : ℕ) → t < e.next → (e.heap t).restored ≡ true
    pub all_held : (t : ℕ) → t < e.next → (e.heap t).is_held ≡ true

  abbrev pub IsTracked : String → Executor → Type 0
  IsTracked id e = (t : ℕ) × (lookup id e.executions ≡ some t)

  module _ (e : Executor) (o : Opening e) (x : Execution)
      (flags : (x.restored ≡ true)
        × (x.is_held ≡ true)
        × (x.done ≡ true)
        × (x.stop_confirmed ≡ false))
      (closed : x.cancel_requested ≡ true → Holds IsClosed (key_at x) e.journal)
      (free : lookup x.job_id e.executions ≡ none) where
    abbrev executions' : Map ℕ
    executions' = joined e.heap e.next e.executions x

    each :
        (P : ℕ → Execution → Type 0)
        → P e.next x
        → ((t : ℕ) → t < e.next → P t (e.heap t))
        → (t : ℕ) → t < suc e.next
        → P t (extended e.heap e.next e.executions x t)
    each = at_each e.heap e.next e.executions x

    pub track_known :
        (id : String) (t : ℕ) → lookup id e.executions ≡ some t → lookup id executions' ≡ some t
    track_known id t found = elim (Bool-cases (x.job_id == id)) [
      | inl same ↦
          absurd (cc (free, found, ap (λ k. lookup k e.executions) ((eq_iff x.job_id id).0 same)))
      | inr other ↦ ground (arith, lookup-insert x.job_id id e.next e.executions)
    ]

    new-Fits : Fits executions' e.journal e.next x
    new-Fits =
        let (r, l, d, c) = flags in
        record {
          tracked = λ w. joined_self e.heap e.next e.executions x;
          released = λ w. absurd (cc (w, l));
          confirmed = λ w. absurd (cc (w, c));
          live = λ w. l;
          settled = λ w. d;
          cancelled = closed;
        }

    old-Fits : (t : ℕ) → t < e.next → Fits executions' e.journal t (e.heap t)
    old-Fits t lt =
        let f = o.safe.fits t lt in
        record {
          tracked = λ w. track_known (e.heap t).job_id t (f.tracked w);
          released = f.released;
          confirmed = f.confirmed;
          live = f.live;
          settled = f.settled;
          cancelled = f.cancelled;
        }

    restored' : (t : ℕ) → t < suc e.next → (extended e.heap e.next e.executions x t).restored ≡ true
    restored' = each (λ t y. y.restored ≡ true) flags.0 o.all_restored

    pub track-Opening : Opening (track x e)
    track-Opening = record {
      safe = record {
        keyed = o.safe.keyed;
        fits = each (Fits executions' e.journal) new-Fits old-Fits;
        known = joined-IsIndexed e.heap e.next e.executions x o.safe.known;
        apart = λ s t ls lt ne w. (restored' s ls, restored' t lt);
      };
      all_restored = restored';
      all_held = each (λ t y. y.is_held ≡ true) flags.1 o.all_held;
    }
