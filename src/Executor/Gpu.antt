-- ===== src/Executor/Gpu.antt =====
-- What an executor (internal/job/executor.go) is to the rest of the agent: a GPU that one attempt at
-- a time holds, and that no attempt gets twice. The executor refines this machine.
use rungpu_agent.Base.{
  ℕ, String, true, false, List, [], ◌∷◌, Option, none, some, contains, ◌==◌, nat_eq, string_eq, ◌≡◌,
  ◌≢◌, sym, ◌∙◌, ap, subst, arith, ◌⊎◌, inl, inr, ◌<◌, Bool-cases, nat_beq_iff,
}
use rungpu_agent.Digest.{Sha256}
use rungpu_agent.Executor.State.{Executor}
use rungpu_agent.Executor.Invariant.{IsSafe, key_at}
use rungpu_agent.Executor.Shapes.{Quiet}

-- `used` has the keys of all attempts that ever got the GPU.
pub record Gpu : Type 0 where
  pub used : List String
  pub holder : Option String

abbrev pub idle_gpu : Gpu
idle_gpu = record { used = []; holder = none }

pub data Move (g : Gpu) : Gpu → Type 0 where
  rests : Move g g
  takes :
      (k : String)
      → g.holder ≡ none
      → contains k g.used ≡ false
      → Move g (record { used = k ∷ g.used; holder = some k })
  frees : (k : String) → g.holder ≡ some k → Move g (record { used = g.used; holder = none })

pub data Moves (g : Gpu) : Gpu → Type 0 where
  begin : Moves g g
  then_move : (g' g2 : Gpu) → Moves g g' → Move g' g2 → Moves g g2

module _ ⦃h : Sha256⦄ where
  -- Who holds the GPU.
  abbrev pub IsHolder : Executor → Option String → Type 0
  IsHolder e none = (t : ℕ) → t < e.next → (e.heap t).is_held ≡ false
  IsHolder e (some k) =
      (t : ℕ) × (t < e.next) × ((e.heap t).is_held ≡ true) × (key_at (e.heap t) ≡ k)

  pub record Refines (e : Executor) (g : Gpu) : Type 0 where
    pub safe : IsSafe e
    pub none_restored : (t : ℕ) → t < e.next → (e.heap t).restored ≡ false
    pub noted : (t : ℕ) → t < e.next → contains (key_at (e.heap t)) g.used ≡ true
    pub known :
        (k : String) → contains k g.used ≡ true → (t : ℕ) × (t < e.next) × (key_at (e.heap t) ≡ k)
    pub holder : IsHolder e g.holder

  -- Two different executions are never both restored here, so they are of different attempts.
  pub differ :
      (e : Executor) (safe : IsSafe e) (s t : ℕ)
      → s < e.next
      → t < e.next
      → s ≢ t
      → (e.heap s).restored ≡ false
      → ¬ (
          (key_at (e.heap s) ≡ key_at (e.heap t))
          ⊎ (((e.heap s).is_held ≡ true) × ((e.heap t).is_held ≡ true)))
  differ e safe s t ls lt ne fresh w = let (l, r) = safe.apart s t ls lt ne w in cc (fresh, l)

  module _ (e e' : Executor) (g : Gpu) (r : Refines e g) (safe' : IsSafe e') (q : Quiet e e') where
    key_kept : (t : ℕ) → key_at (e'.heap t) ≡ key_at (e.heap t)
    key_kept t = let s = q.same t in cc (s.job, s.token)

    below : (t : ℕ) → t < e'.next → t < e.next
    below t lt = subst (λ n. t < n) q.same_next lt

    above : (t : ℕ) → t < e.next → t < e'.next
    above t lt = subst (λ n. t < n) (sym q.same_next) lt

    -- Only the holder is left to say.
    quiet_with :
        (o : Option String) → IsHolder e' o → Refines e' (record { used = g.used; holder = o })
    quiet_with o holder = record {
      safe = safe';
      none_restored = λ t lt. (q.same t).origin ∙ r.none_restored t (below t lt);
      noted =
          λ t lt. subst (λ k. contains k g.used ≡ true) (sym (key_kept t)) (r.noted t (below t lt));
      known = λ k w. let (t, lt, e) = r.known k w in (t, above t lt, key_kept t ∙ e);
      holder = holder;
    }

    dropped : (t : ℕ) → (e.heap t).is_held ≡ false → (e'.heap t).is_held ≡ false
    dropped t w = elim (Bool-cases (e'.heap t).is_held) [
      | inl held ↦ absurd (cc (w, (q.same t).held held))
      | inr free ↦ free
    ]

    pub quiet-Move :
        (o : Option String) → g.holder ≡ o → IsHolder e o → (g' : Gpu) × Move g g' × Refines e' g'
    quiet-Move none idle free = (
      g,
      rests,
      subst (λ o. Refines e' (record { used = g.used; holder = o })) (sym idle)
          (quiet_with none (λ t lt. dropped t (free t (below t lt)))),
    )
    quiet-Move (some k) busy (t, lt, held, here_key) = elim (Bool-cases (e'.heap t).is_held) [
      | inl still_held ↦ (
        g,
        rests,
        subst (λ o. Refines e' (record { used = g.used; holder = o })) (sym busy)
            (quiet_with (some k) (t, above t lt, still_held, key_kept t ∙ here_key)),
      )
      | inr gone ↦
          (record { used = g.used; holder = none }, frees k busy, quiet_with none (others gone))
    ]
      where
        others : (e'.heap t).is_held ≡ false → (u : ℕ) → u < e'.next → (e'.heap u).is_held ≡ false
        others gone u lu = elim (Bool-cases (e'.heap u).is_held) [
          | inr free ↦ free
          | inl held' ↦ elim (Bool-cases (t == u)) [
            | inl same ↦
                absurd (cc (gone, held', ap (λ v. (e'.heap v).is_held) ((nat_beq_iff t u).0 same)))
            | inr other ↦ absurd (
                differ e r.safe t u lt (below u lu) (ground (arith, nat_beq_iff t u))
                  (r.none_restored t lt) (inr (held, (q.same u).held held')))
          ]
        ]
