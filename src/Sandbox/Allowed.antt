-- ===== src/Sandbox/Allowed.antt =====
-- internal/dockermgr/security.go: the images that are accepted.
use rungpu_agent.Base.{
  ◌≡◌, ◌≢◌, ◌↔◌, ◌⊎◌, inl, inr, sym, subst, Bool, Bool-cases, true, ◌&&◌, ◌||◌, List, [], ◌∷◌, ◌++◌,
  map, any, contains, Text, codes, if◌then◌else◌, ◌==◌, ◌/=◌, nat_eq, list_eq, beq_refl, arith, Eq,
}
use rungpu_agent.Sandbox.{
  SecurityPolicy, trusted_registries, normalize_image, image_matches_trusted, matches_either,
  accepts_image,
}
use rungpu_agent.Sandbox.Names.{
  sum_map, or_true, IsFullName, Matches, normalize_image-IsFullName, full_name_unique,
  image_matches_trusted-Matches,
}

-- A name stands for the image by the full name of the image.
MatchesFull : Text → Text → Type 0
MatchesFull trusted image = (full : Text) × IsFullName image full × Matches trusted full

-- The registries that every agent trusts.
abbrev pub agent_registries : List Text
agent_registries =
    map codes ("docker.io/library/" ∷ "jupyter/" ∷ "pytorch/" ∷ "nvcr.io/nvidia/" ∷ [])

-- The image is one that the policy allows: any image; the one that the pool assigned, as it is
-- written or by the full names of both; or one, by its full name or as it is written, that a
-- registry of the agent or of its owner stands for.
pub Allowed : Text → SecurityPolicy → Type 0
Allowed image policy =
    (policy.allow_any_image ≡ true)
    ⊎ (((policy.coordinator_image ≢ [])
          × (Matches policy.coordinator_image image
              ⊎ ((full : Text) × IsFullName policy.coordinator_image full
                  × MatchesFull full image)))
        ⊎ ((prefix : Text) × (contains prefix (agent_registries ++ policy.own_registries) ≡ true)
            × (MatchesFull prefix image ⊎ Matches prefix image)))

image_matches_trusted-MatchesFull :
    (trusted image : Text)
    → (image_matches_trusted (normalize_image image) trusted ≡ true) ↔ MatchesFull trusted image
unfolding MatchesFull
image_matches_trusted-MatchesFull trusted image =
    let (to, from) = image_matches_trusted-Matches (normalize_image image) trusted in
    (
      λ h. (normalize_image image, normalize_image-IsFullName image, to h),
      λ (full, name, m). from (subst (Matches trusted) (full_name_unique image full name) m),
    )

assigned_iff :
    (assigned image : Text)
    → (image_matches_trusted (normalize_image image) (normalize_image assigned) ≡ true)
      ↔ ((full : Text) × IsFullName assigned full × MatchesFull full image)
assigned_iff assigned image =
    let (to, from) = image_matches_trusted-MatchesFull (normalize_image assigned) image in
    (
      λ h. (normalize_image assigned, normalize_image-IsFullName assigned, to h),
      λ (full, name, m).
          from (subst (λ t. MatchesFull t image) (full_name_unique assigned full name) m),
    )

any-true {ℓ} :
    {A : Type ℓ} ⦃e : Eq A⦄ (p : A → Bool) (xs : List A)
    → (any p xs ≡ true) ↔ ((x : A) × (contains x xs ≡ true) × (p x ≡ true))
any-true ⦃e⦄ p [] = (λ h. absurd (ground (arith, h)), λ (x, c, h). absurd (ground (arith, c)))
any-true ⦃e⦄ p (x ∷ xs) =
    let (to, from) = any-true p xs in
    (
      λ h. elim (Bool-cases (p x)) [
        | inl here ↦ (x, ground (arith, beq_refl x), here)
        | inr differs ↦
            let (y, c, there) = to (ground (arith, h, differs)) in (y, ground (arith, c), there)
      ],
      λ (y, c, h). elim (Bool-cases (x == y)) [
        | inl same ↦ ground (arith, subst (λ z. p z ≡ true) (sym ((e.beq_iff x y).0 same)) h)
        | inr differs ↦ ground (arith, from (y, ground (arith, c, differs), h))
      ],
    )

policy_cases :
    (a n m k t : Bool)
    → ((if a then true else if n && (m || k) then true else t) ≡ true)
      ↔ ((a ≡ true) ⊎ (((n ≡ true) × ((m ≡ true) ⊎ (k ≡ true))) ⊎ (t ≡ true)))
policy_cases a n m k t = ground arith

given_text : (t : Text) → ((t /= []) ≡ true) ↔ (t ≢ [])
given_text [] = ground arith
given_text (c ∷ t) = ground arith

-- ValidateImage accepts an image exactly if the policy allows any image; or the name that the pool
-- assigned stands for it, as both are written or in their full names; or a trusted name stands for
-- it, in its full name or as it is written. The full name puts "docker.io/library/" before a name
-- without a slash, and "docker.io/" before one whose part before the first slash has no dot. A name
-- stands for itself with any tag or digest, or, if it ends in "/" or has a digest, for all that it
-- begins.
pub accepts_image-Allowed :
    (image : Text) (policy : SecurityPolicy)
    → (accepts_image image policy ≡ true) ↔ Allowed image policy
unfolding accepts_image Allowed
accepts_image-Allowed image policy =
    let assigned = policy.coordinator_image in
    let full = normalize_image image in
    let registries = trusted_registries ++ policy.own_registries in
    let tests =
      policy_cases policy.allow_any_image (assigned /= []) (image_matches_trusted image assigned)
        (image_matches_trusted full (normalize_image assigned))
        (any (matches_either image) registries) in
    let listed = any-true (matches_either image) registries in
    let given = given_text assigned in
    let written = image_matches_trusted-Matches image assigned in
    let named = assigned_iff assigned image in
    let either = λ (prefix : Text).
      or_true (image_matches_trusted full prefix) (image_matches_trusted image prefix) in
    let whole = λ (prefix : Text). image_matches_trusted-MatchesFull prefix image in
    let at = λ (prefix : Text). image_matches_trusted-Matches image prefix in
    (
      λ h.
          sum_map (λ a. a)
            (sum_map (λ k. (given.0 k.0, sum_map written.0 named.0 k.1))
              (λ k.
                let (prefix, c, m) = listed.0 k in
                (prefix, c, sum_map (whole prefix).0 (at prefix).0 ((either prefix).0 m))))
            (tests.0 h),
      λ k. tests.1 (
          sum_map (λ a. a)
            (sum_map (λ k. (given.1 k.0, sum_map written.1 named.1 k.1))
              (λ (prefix, c, m).
                listed.1 (prefix, c, (either prefix).1 (sum_map (whole prefix).1 (at prefix).1 m))))
            k),
    )
