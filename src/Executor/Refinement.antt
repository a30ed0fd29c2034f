-- ===== src/Executor/Refinement.antt =====
-- The executor (internal/job/executor.go) refines the GPU of Executor/Gpu.antt, step by step and over
-- every history of a new agent.
use rungpu_agent.Base.{
  ℕ, String, true, false, ◌∷◌, Option, none, some, contains, ◌==◌, nat_eq, string_eq, ◌≡◌, refl,
  sym, ◌∙◌, ap, subst, arith, ◌⊎◌, inl, inr, ◌<◌, Bool-cases, nat_beq_iff,
}
use text.Mathlib.TextEquality.{eq_iff}
use rungpu_agent.Digest.{Sha256}
use rungpu_agent.Executor.State.{Execution, Executor}
use rungpu_agent.Executor.Histories.{Step, Reach, here, later}
use rungpu_agent.Executor.Invariant.{IsSafe, key_at}
use rungpu_agent.Executor.Safety.{Reach-IsSafe}
use rungpu_agent.Executor.Shapes.{Adds, Step-HasShape}
use rungpu_agent.Executor.Gpu.{
  Gpu, idle_gpu, Move, takes, Moves, begin, then_move, IsHolder, Refines, differ, quiet-Move,
}

module _ ⦃h : Sha256⦄ where
  module _ (e e' : Executor) (g : Gpu) (r : Refines e g) (safe' : IsSafe e') (x : Execution)
      (a : Adds e e' x) where
    old_at : (t : ℕ) → t < e.next → e'.heap t ≡ e.heap t
    old_at t lt = ap (λ f. f t) a.extended ∙ ground arith

    new_at : e'.heap e.next ≡ x
    new_at = ap (λ f. f e.next) a.extended ∙ ground arith

    is_old : (t : ℕ) → t < e.next → t < e'.next
    is_old t lt = omega (arith, a.next_more)

    is_new : e.next < e'.next
    is_new = omega (arith, a.next_more)

    fresh' : (e'.heap e.next).restored ≡ false
    fresh' = ap (λ y. y.restored) new_at ∙ a.first_time

    held' : (e'.heap e.next).is_held ≡ true
    held' = ap (λ y. y.is_held) new_at ∙ a.held

    -- The new execution shares neither its attempt nor the GPU with an old one.
    alone : (t : ℕ) → t < e.next → ¬ ((key_at x ≡ key_at (e.heap t)) ⊎ ((e.heap t).is_held ≡ true))
    alone t lt w =
        differ e' safe' e.next t is_new (is_old t lt) (λ same. omega (arith, same)) fresh'
          (elim w [
            | inl k ↦ inl (ap key_at new_at ∙ k ∙ sym (ap key_at (old_at t lt)))
            | inr l ↦ inr (held', ap (λ y. y.is_held) (old_at t lt) ∙ l)
          ])

    each :
        (P : Execution → Type 0)
        → P x
        → ((t : ℕ) → t < e.next → P (e.heap t))
        → (t : ℕ) → t < e'.next
        → P (e'.heap t)
    each P new old t lt = elim (Bool-cases (t == e.next)) [
      | inl same ↦ subst P (sym new_at ∙ ap e'.heap (sym ((nat_beq_iff t e.next).0 same))) new
      | inr other ↦
          let less : t < e.next = ground (arith, nat_beq_iff t e.next, a.next_more) in
          subst P (sym (old_at t less)) (old t less)
    ]

    is_free : (o : Option String) → IsHolder e o → o ≡ none
    is_free none idle = refl
    is_free (some k) (t, lt, l, same) = absurd (alone t lt (inr l))

    is_unused : contains (key_at x) g.used ≡ false
    is_unused = elim (Bool-cases (contains (key_at x) g.used)) [
      | inr new ↦ new
      | inl old ↦ let (t, lt, same) = r.known (key_at x) old in absurd (alone t lt (inl (sym same)))
    ]

    added-known :
        (k : String)
        → contains k (key_at x ∷ g.used) ≡ true
        → (t : ℕ) × (t < e'.next) × (key_at (e'.heap t) ≡ k)
    added-known k w = elim (Bool-cases (key_at x == k)) [
      | inl same ↦ (e.next, is_new, ap key_at new_at ∙ (eq_iff (key_at x) k).0 same)
      | inr other ↦
          let (t, lt, found) = r.known k (ground (arith, other)) in
          (t, is_old t lt, ap key_at (old_at t lt) ∙ found)
    ]

    added-Refines : Refines e' (record { used = key_at x ∷ g.used; holder = some (key_at x) })
    added-Refines = record {
      safe = safe';
      none_restored = each (λ y. y.restored ≡ false) a.first_time r.none_restored;
      noted =
          each (λ y. contains (key_at y) (key_at x ∷ g.used) ≡ true)
            (ground (arith, eq_iff (key_at x) (key_at x))) (λ t lt. ground (arith, r.noted t lt));
      known = added-known;
      holder = (e.next, is_new, held', ap key_at new_at);
    }

    add-Move : (g' : Gpu) × Move g g' × Refines e' g'
    add-Move = (
      record { used = key_at x ∷ g.used; holder = some (key_at x) },
      takes (key_at x) (is_free g.holder r.holder) is_unused,
      added-Refines,
    )

  -- Every step of an executor with nothing restored is a move of the GPU that it refines.
  pub Step-Move :
      (e e' : Executor) (g : Gpu) → Refines e g → Step e e' → (g' : Gpu) × Move g g' × Refines e' g'
  Step-Move e e' g r s =
      let safe' : IsSafe e' = Reach-IsSafe e e' (later e e' here s) r.safe in
      elim (Step-HasShape e e' s) [
        | inl q ↦ quiet-Move e e' g r safe' q g.holder refl r.holder
        | inr (x, a) ↦ add-Move e e' g r safe' x a
      ]

  -- In every history of a sound executor that starts without executions, what the executor does is a
  -- run of the abstract GPU: it is taken only while nobody holds it, by an attempt that never had it
  -- before, and given back by its holder; the abstract holder is the execution that holds the GPU.
  pub Reach-Moves :
      (first e : Executor)
      → IsSafe first
      → first.next ≡ 0
      → Reach first e
      → (g : Gpu) × Moves idle_gpu g × Refines e g
  Reach-Moves first e safe new here = (idle_gpu, begin, start)
    where
      none_below : {A : Type 0} → (t : ℕ) → t < first.next → A
      none_below t lt = absurd (omega (arith, new, lt))

      start : Refines first idle_gpu
      start = record {
        safe = safe;
        none_restored = λ t lt. none_below t lt;
        noted = λ t lt. none_below t lt;
        known = λ k w. absurd (cc w);
        holder = λ t lt. none_below t lt;
      }
  Reach-Moves first e safe new (later f w past s) =
      let (g, run, r) = Reach-Moves first f safe new past in
      let (g', move, r') = Step-Move f e g r s in (g', then_move g g' run move, r')
