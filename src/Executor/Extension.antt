-- ===== src/Executor/Extension.antt =====
-- One more execution in an executor's heap and map (internal/job/executor.go).
use rungpu_agent.Base.{
  ℕ, suc, String, some, Map, lookup, insert, ◌==◌, nat_eq, string_eq, ◌≡◌, ap, ◌∙◌, subst, arith,
  inl, inr, ◌<◌, Bool-cases, nat_beq_iff, lookup-insert,
}
use text.Mathlib.TextEquality.{eq_iff}
use rungpu_agent.Executor.State.{Execution, update}

module _ (heap : ℕ → Execution) (n : ℕ) (m : Map ℕ) (x : Execution) where
  abbrev pub extended : ℕ → Execution
  extended = update heap n x

  abbrev pub joined : Map ℕ
  joined = insert x.job_id n m

  -- What holds of the new execution and of each old one holds of all.
  pub at_each :
      (P : ℕ → Execution → Type 0)
      → P n x
      → ((t : ℕ) → t < n → P t (heap t))
      → (t : ℕ) → t < suc n
      → P t (extended t)
  at_each P new old t lt = elim (Bool-cases (n == t)) [
    | inl same ↦ rw same (subst (λ u. P u x) ((nat_beq_iff n t).0 same) new)
    | inr other ↦ rw other (old t (ground (arith, nat_beq_iff n t)))
  ]

  pub joined_self : lookup x.job_id joined ≡ some n
  joined_self = ground (arith, lookup-insert x.job_id x.job_id n m, eq_iff x.job_id x.job_id)

  -- The map's entries are executions under their own jobs.
  abbrev pub IsIndexed : (ℕ → Execution) → ℕ → Map ℕ → Type 0
  IsIndexed f k entries =
      (id : String) (t : ℕ) → lookup id entries ≡ some t → (t < k) × ((f t).job_id ≡ id)

  pub joined-IsIndexed : IsIndexed heap n m → IsIndexed extended (suc n) joined
  joined-IsIndexed known id t found = elim (Bool-cases (x.job_id == id)) [
    | inl same ↦
        let here : n ≡ t = ground (arith, lookup-insert x.job_id id n m) in
        let new_at : extended n ≡ x = ground arith in
        (
          omega (arith, here),
          ap (λ y. y.job_id) (subst (λ u. extended u ≡ x) here new_at)
              ∙ (eq_iff x.job_id id).0 same,
        )
    | inr other ↦
        let (lt, job) = known id t (ground (arith, lookup-insert x.job_id id n m)) in
        let old_at : extended t ≡ heap t = ground arith in
        (omega (arith, lt), ap (λ y. y.job_id) old_at ∙ job)
  ]
