-- ===== src/Ownership/Teardown.antt =====
-- internal/dockermgr/ownership.go: what a removal without error shows.
use rungpu_agent.Base.{
  ◌≡◌, refl, sym, ap, ◌∙◌, inl, inr, String, Bool, Bool-cases, true, false, ◌||◌, List, [], ◌∷◌,
  All, Option, none, some, Text, split, if◌then◌else◌, ◌==◌, ◌/=◌, string_eq, is_space, fields,
  arith,
}
use text.Mathlib.TextEquality.{eq_iff}
use rungpu_agent.Journal.Records.{OwnedResource}
use rungpu_agent.Ownership.{
  Docker, is_blank, container_of, add_container, read_inventory, labels_of, listed, on_daemon,
  owned_container, inspected, inspect_owned, is_gone, verified, removed, remove_owned_and_verify,
}

read_blank :
    (found : Option (Text × Text)) (line : Text) (lines : List Text)
    → is_blank line ≡ true
    → read_inventory found (line ∷ lines) ≡ read_inventory found lines
unfolding read_inventory
read_blank found line lines e = rw (read_inventory, e) refl

read_line :
    (found : Option (Text × Text)) (line : Text) (lines : List Text)
    → is_blank line ≡ false
    → read_inventory found (line ∷ lines)
      ≡ (elim (add_container (container_of (fields is_space line)) found) [
        | none ↦ none
        | some next ↦ read_inventory next lines
      ])
unfolding read_inventory
read_line found line lines e = rw (read_inventory, e) refl

second_container :
    (o : Option (Text × Text)) (c : Text × Text) (lines : List Text)
    → ¬ (
        (elim (add_container o (some c)) [ none ↦ none | some next ↦ read_inventory next lines ])
        ≡ some none)
second_container none c lines h = absurd (cc h)
second_container (some d) c lines h = absurd (cc h)

-- A container that was read stays in the inventory, or there is an error.
container_stays :
    (c : Text × Text) (lines : List Text) → ¬ (read_inventory (some c) lines ≡ some none)
unfolding read_inventory
container_stays c [] h = absurd (cc h)
container_stays c (line ∷ lines) h = elim (Bool-cases (is_blank line)) [
  | inl e ↦ container_stays c lines (sym (read_blank (some c) line lines e) ∙ h)
  | inr e ↦
      second_container (container_of (fields is_space line)) c lines
        (sym (read_line (some c) line lines e) ∙ h)
]

first_container :
    (o : Option (Text × Text)) (lines : List Text)
    → (elim (add_container o none) [ none ↦ none | some next ↦ read_inventory next lines ])
      ≡ some none
    → ⊥
first_container none lines h = absurd (cc h)
first_container (some c) lines h = container_stays c lines h

-- An inventory without containers has blank lines only.
blank_inventory :
    (lines : List Text)
    → read_inventory none lines ≡ some none
    → All (λ line. is_blank line ≡ true) lines
blank_inventory [] h = tt
blank_inventory (line ∷ lines) h = elim (Bool-cases (is_blank line)) [
  | inl e ↦ (e, blank_inventory lines (sym (read_blank none line lines e) ∙ h))
  | inr e ↦ absurd (
      first_container (container_of (fields is_space line)) lines
        (sym (read_line none line lines e) ∙ h))
]

first_refused :
    {S A : Type 0} (b : Bool) (s : S) (w : S × Option (Option A))
    → b ≡ true
    → ¬ ((if b then (s, none) else w).1 ≡ some none)
first_refused true s w e h = absurd (cc h)
first_refused false s w e h = absurd (ground (arith, e))

first_skipped :
    {S A : Type 0} (b : Bool) (v w : S × Option (Option A))
    → b ≡ false
    → (if b then v else w).1 ≡ some none
    → w.1 ≡ some none
first_skipped true v w e h = absurd (ground (arith, e))
first_skipped false v w e h = h

module _ {S : Type 0} (docker : Docker S) (owner : OwnedResource) where
  -- From the state s, docker ps answered on the owner's daemon, and listed no container with the
  -- owner's labels.
  pub record IsAbsent (s : S) : Type 0 where
    pub own_daemon : (docker.daemon_id s).1 ≡ some owner.daemon_id
    pub output : Text
    pub answered : (docker.ps (labels_of owner.labels) (docker.daemon_id s).0).1 ≡ some output
    pub blank : All (λ line. is_blank line ≡ true) (split b'\n' output)

  IsAbsent-listed :
      (s : S) (w : S × Option Text)
      → docker.ps (labels_of owner.labels) (docker.daemon_id s).0 ≡ w
      → (docker.daemon_id s).1 ≡ some owner.daemon_id
      → (listed docker owner w).1 ≡ some none
      → IsAbsent s
  IsAbsent-listed s (after, none) e own h = absurd (cc h)
  IsAbsent-listed s (after, some out) e own h = record {
    own_daemon = own;
    output = out;
    answered = ap (λ w. w.1) e;
    blank = blank_inventory _ h;
  }

  daemon_cases : (d owned : String) → (owned == "" || d /= owned) ≡ false → d ≡ owned
  daemon_cases d owned h = ground (arith, h, eq_iff d owned)

  IsAbsent-on_daemon :
      (s : S) (w : S × Option String)
      → docker.daemon_id s ≡ w
      → (on_daemon docker owner w).1 ≡ some none
      → IsAbsent s
  IsAbsent-on_daemon s (after, none) e h = absurd (cc h)
  IsAbsent-on_daemon s (after, some daemon) e h =
      elim (Bool-cases (owner.daemon_id == "" || daemon /= owner.daemon_id)) [
        | inl foreign ↦ absurd (first_refused _ _ _ foreign h)
        | inr own ↦
            IsAbsent-listed s _ (ap (λ w. docker.ps (labels_of owner.labels) w.0) e)
              (cc (ap (λ w. w.1) e, daemon_cases daemon owner.daemon_id own))
              (first_skipped _ (after, none) _ own h)
      ]

  IsAbsent-owned_container : (s : S) → (owned_container docker owner s).1 ≡ some none → IsAbsent s
  unfolding owned_container
  IsAbsent-owned_container s h = IsAbsent-on_daemon s (docker.daemon_id s) refl h

  Removed : S × Bool → Type 0
  Removed w =
      w.1 ≡ true → (last : S) × IsAbsent last × (w.0 ≡ (owned_container docker owner last).0)

  Removed-is_gone : (s : S) → Removed (is_gone docker owner (owned_container docker owner s))
  unfolding Removed
  Removed-is_gone s = gone_cases (owned_container docker owner s) refl
    where
      gone_cases :
          (w : S × Option (Option (Text × Text)))
          → owned_container docker owner s ≡ w
          → (is_gone docker owner w).1 ≡ true
          → (last : S) × IsAbsent last
            × ((is_gone docker owner w).0 ≡ (owned_container docker owner last).0)
      gone_cases (after, none) e h = absurd (ground (arith, h))
      gone_cases (after, some (some c)) e h = absurd (ground (arith, h))
      gone_cases (after, some none) e h =
          (s, IsAbsent-owned_container s (ap (λ w. w.1) e), sym (ap (λ w. w.0) e))

  Removed-verified : (w : S × Bool) → Removed (verified docker owner w)
  unfolding Removed
  Removed-verified (s, false) h = absurd (ground (arith, h))
  Removed-verified (s, true) h = Removed-is_gone s h

  no_empty_answer :
      (o : Option Text)
      → ¬ (
          ◌≡◌ {A = Option (Option Text)}
            (elim o [ none ↦ none | some c ↦ some (some c) ])
            (some none))
  no_empty_answer none h = absurd (cc h)
  no_empty_answer (some c) h = absurd (cc h)

  inspected_empty :
      (w : S × Option (Option (Text × Text)))
      → (inspected docker owner w).1 ≡ some none
      → (w.1 ≡ some none) × ((inspected docker owner w).0 ≡ w.0)
  inspected_empty (s, none) h = absurd (cc h)
  inspected_empty (s, some none) h = (refl, refl)
  inspected_empty (s, some (some (id, name))) h = absurd (no_empty_answer _ h)

  choice_empty :
      (b : Bool) (s : S) (w : S × Option (Option Text))
      → (if b then (s, none) else w).1 ≡ some none
      → (w.1 ≡ some none) × ((if b then (s, none) else w).0 ≡ w.0)
  choice_empty true s w h = absurd (cc h)
  choice_empty false s w h = (h, refl)

  inspect_owned_empty :
      (s : S)
      → (inspect_owned docker owner s).1 ≡ some none
      → ((owned_container docker owner s).1 ≡ some none)
        × ((inspect_owned docker owner s).0 ≡ (owned_container docker owner s).0)
  unfolding inspect_owned
  inspect_owned_empty s h =
      let (k, same) =
        choice_empty _ s (inspected docker owner (owned_container docker owner s)) h in
      let (absent, after) = inspected_empty (owned_container docker owner s) k in
      (absent, same ∙ after)

  Removed-removed :
      (s : S) (w : S × Option (Option Text))
      → inspect_owned docker owner s ≡ w
      → Removed (removed docker owner w)
  unfolding Removed
  Removed-removed s (after, none) e h = absurd (ground (arith, h))
  Removed-removed s (after, some (some id)) e h = Removed-verified (docker.remove id after) h
  Removed-removed s (after, some none) e h =
      let (absent, same) = inspect_owned_empty s (ap (λ w. w.1) e) in
      (s, IsAbsent-owned_container s absent, sym (ap (λ w. w.0) e) ∙ same)

  -- RemoveOwnedAndVerify returns no error only if the last inventory that it took, on the daemon of
  -- the owner, listed no container with the owner's labels.
  pub remove_owned_and_verify-IsAbsent :
      (s : S)
      → (remove_owned_and_verify docker owner s).1 ≡ true
      → (last : S) × IsAbsent last
        × ((remove_owned_and_verify docker owner s).0 ≡ (owned_container docker owner last).0)
  unfolding remove_owned_and_verify Removed
  remove_owned_and_verify-IsAbsent s h = Removed-removed s (inspect_owned docker owner s) refl h
