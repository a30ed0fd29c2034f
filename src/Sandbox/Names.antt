-- ===== src/Sandbox/Names.antt =====
-- internal/dockermgr/security.go, normalizeImage and imageMatchesTrusted: the full name of an image,
-- and what a trusted name stands for.
use mathlib.Core.List.{reverse-cons, reverse-append, reverse-reverse}
use rungpu_agent.Base.{
  ◌≡◌, ◌≢◌, ◌↔◌, ◌⊎◌, inl, inr, refl, sym, ap, ◌∙◌, Bool, Bool-cases, true, false, ◌||◌, [], ◌∷◌,
  ◌++◌, reverse, ℕ, contains, Text, codes, has_prefix, if◌then◌else◌, ◌==◌, nat_eq, list_eq,
  list_beq_iff, nat_beq_iff, beq_refl, arith,
}
use rungpu_agent.Sandbox.Segments.{IsFree, before_eq, before_splits, contains-middle}
use rungpu_agent.Sandbox.{
  contains_text, before, has_suffix, normalize_image, is_prefix_only, image_matches_trusted,
}

-- The text starts with the prefix.
abbrev pub Starts : Text → Text → Type 0
Starts s p = (rest : Text) × (s ≡ p ++ rest)

pub has_prefix-Starts : (s p : Text) → (has_prefix s p ≡ true) ↔ Starts s p
unfolding has_prefix
has_prefix-Starts s [] = (λ h. (s, refl), λ h. refl)
has_prefix-Starts [] (q ∷ p) = (λ h. absurd (ground (arith, h)), λ (rest, e). absurd (cc e))
has_prefix-Starts (c ∷ s) (q ∷ p) =
    let (to, from) = has_prefix-Starts s p in
    (
      λ h.
          let (rest, e) = to (ground (arith, h)) in
          (rest, cc (e, (nat_beq_iff c q).0 (ground (arith, h)))),
      λ (rest, e).
          let here : c ≡ q = cc e in
          let there : s ≡ p ++ rest = cc e in ground (arith, here, from (rest, there), beq_refl c),
    )

-- The name ends in "/" or has a digest.
pub IsPrefixOnly : Text → Type 0
IsPrefixOnly trusted =
    ((owner : Text) × (trusted ≡ owner ++ codes "/"))
    ⊎ ((name : Text) × Starts trusted (name ++ codes "@sha256:"))

-- What a trusted name stands for: all that it begins, if it ends in "/" or has a digest, else the
-- image itself with any tag or digest.
pub Matches : Text → Text → Type 0
Matches trusted image =
    (trusted ≢ [])
    × ((IsPrefixOnly trusted × Starts image trusted)
        ⊎ ((¬ IsPrefixOnly trusted)
            × ((image ≡ trusted)
                ⊎ (Starts image (trusted ++ codes ":") ⊎ Starts image (trusted ++ codes "@")))))

-- The full name of an image: Docker Hub's library holds a name without a slash; a name whose part
-- before the first slash has no dot is of Docker Hub; else that part is the registry.
pub IsFullName : Text → Text → Type 0
IsFullName image full =
    (IsFree b'/' image × (full ≡ codes "docker.io/library/" ++ image))
    ⊎ ((host : Text) × (rest : Text) × (image ≡ host ++ b'/' ∷ rest)
        × IsFree b'/' host
        × ((IsFree b'.' host × (full ≡ codes "docker.io/" ++ image))
            ⊎ ((contains b'.' host ≡ true) × (full ≡ image))))

pub sum_map {ℓ κ ℓ' κ'} :
    {A : Type ℓ} {A' : Type ℓ'} {B : Type κ} {B' : Type κ'} → (A → A') → (B → B') → A ⊎ B → A' ⊎ B'
sum_map f g (inl a) = inl (f a)
sum_map f g (inr b) = inr (g b)

trusted_cases :
    (e p a x y z : Bool)
    → ((if e then false else if p then a else x || y || z) ≡ true) ↔ (
        (e ≡ false)
        × (((p ≡ true) × (a ≡ true)) ⊎ ((p ≡ false) × ((x ≡ true) ⊎ ((y ≡ true) ⊎ (z ≡ true))))))
trusted_cases e p a x y z = ground arith

pub empty_text : (t : Text) → ((t == []) ≡ false) ↔ (t ≢ [])
empty_text [] = ground arith
empty_text (c ∷ t) = ground arith

pub or_true : (a b : Bool) → ((a || b) ≡ true) ↔ ((a ≡ true) ⊎ (b ≡ true))
or_true a b = ground arith

nothing_contains : (q : ℕ) (part name rest : Text) → ◌≢◌ {A = Text} [] ((name ++ q ∷ part) ++ rest)
nothing_contains q part [] rest e = cc e
nothing_contains q part (x ∷ name) rest e = cc e

contains_text-true :
    (s part : Text) → (contains_text s part ≡ true) ↔ ((name : Text) × Starts s (name ++ part))
unfolding contains_text
contains_text-true [] [] = (λ h. ([], ([], refl)), λ h. refl)
contains_text-true [] (q ∷ part) =
    (λ h. absurd (cc h), λ (name, (rest, e)). absurd (nothing_contains q part name rest e))
contains_text-true (c ∷ s) part =
    let (to, from) = contains_text-true s part in
    let here = has_prefix-Starts (c ∷ s) part in
    (
      λ h. elim (Bool-cases (has_prefix (c ∷ s) part)) [
        | inl p ↦ ([], here.0 p)
        | inr p ↦
            let (name, (rest, e)) = to (ground (arith, h, p)) in
            (c ∷ name, (rest, ap (λ t. c ∷ t) e))
      ],
      λ found. later c s part from here.1 found.0 found.1,
    )
  where
    later :
        (c : ℕ) (s part : Text)
        → (((name : Text) × Starts s (name ++ part)) → contains_text s part ≡ true)
        → (Starts (c ∷ s) part → has_prefix (c ∷ s) part ≡ true)
        → (name : Text) → Starts (c ∷ s) (name ++ part)
        → (has_prefix (c ∷ s) part || contains_text s part) ≡ true
    later c s part from here [] starts = ground (arith, here starts)
    later c s part from here (x ∷ name) (rest, e) =
        let inside : s ≡ (name ++ part) ++ rest = cc e in
        ground (arith, from (name, (rest, inside)))

ends_in_slash :
    (t : Text) → (has_suffix t (codes "/") ≡ true) ↔ ((owner : Text) × (t ≡ owner ++ codes "/"))
ends_in_slash t =
    let (to, from) = has_prefix-Starts (reverse t) (codes "/") in
    (
      λ h.
          let (rest, e) = to h in
          (reverse rest, sym (reverse-reverse t) ∙ ap reverse e ∙ reverse-cons b'/' rest),
      λ (owner, e). from (reverse owner, ap reverse e ∙ reverse-append owner (codes "/")),
    )

is_prefix_only-true : (t : Text) → (is_prefix_only t ≡ true) ↔ IsPrefixOnly t
unfolding IsPrefixOnly
is_prefix_only-true t =
    let slash = ends_in_slash t in
    let digest = contains_text-true t (codes "@sha256:") in
    let tests = or_true (has_suffix t (codes "/")) (contains_text t (codes "@sha256:")) in
    (λ h. sum_map slash.0 digest.0 (tests.0 h), λ h. tests.1 (sum_map slash.1 digest.1 h))

is_prefix_only-false : (t : Text) → (is_prefix_only t ≡ false) ↔ (¬ IsPrefixOnly t)
is_prefix_only-false t = (
  λ h p. absurd (cc (h, (is_prefix_only-true t).1 p)),
  λ no. elim (Bool-cases (is_prefix_only t)) [
    | inl e ↦ absurd (no ((is_prefix_only-true t).0 e))
    | inr e ↦ e
  ],
)

pub normalize_image-IsFullName : (image : Text) → IsFullName image (normalize_image image)
unfolding normalize_image IsFullName
normalize_image-IsFullName image = elim (Bool-cases (contains b'/' image)) [
  | inr free ↦ inl (free, rw (free) refl)
  | inl slash ↦
      let (rest, e, free) = before_splits b'/' image slash in
      inr (before b'/' image, rest, e, free, hosted slash)
]
  where
    hosted :
        contains b'/' image ≡ true
        → (IsFree b'.' (before b'/' image) × (normalize_image image ≡ codes "docker.io/" ++ image))
          ⊎ ((contains b'.' (before b'/' image) ≡ true) × (normalize_image image ≡ image))
    hosted slash = elim (Bool-cases (contains b'.' (before b'/' image))) [
      | inl dot ↦ inr (dot, rw (slash, normalize_image, dot) refl)
      | inr none ↦ inl (none, rw (slash, normalize_image, none) refl)
    ]

pub full_name_unique : (image full : Text) → IsFullName image full → full ≡ normalize_image image
unfolding normalize_image IsFullName
full_name_unique image full (inl (free, e)) = rw (free) e
full_name_unique image full (inr (host, rest, e, free, kind)) = at kind
  where
    slash : contains b'/' image ≡ true
    slash = ap (contains b'/') e ∙ contains-middle b'/' host rest

    here : before b'/' image ≡ host
    here = ap (before b'/') e ∙ before_eq b'/' host rest free

    at :
        ((IsFree b'.' host × (full ≡ codes "docker.io/" ++ image))
          ⊎ ((contains b'.' host ≡ true) × (full ≡ image)))
        → full ≡ normalize_image image
    at (inl (plain, f)) = rw (slash, normalize_image, here, plain) f
    at (inr (dot, f)) = rw (slash, normalize_image, here, dot) f

pub image_matches_trusted-Matches :
    (image trusted : Text) → (image_matches_trusted image trusted ≡ true) ↔ Matches trusted image
unfolding image_matches_trusted Matches
image_matches_trusted-Matches image trusted =
    let tests =
      trusted_cases (trusted == []) (is_prefix_only trusted) (has_prefix image trusted)
        (image == trusted) (has_prefix image (trusted ++ codes ":"))
        (has_prefix image (trusted ++ codes "@")) in
    let whole = has_prefix-Starts image trusted in
    let tag = has_prefix-Starts image (trusted ++ codes ":") in
    let digest = has_prefix-Starts image (trusted ++ codes "@") in
    let given = empty_text trusted in
    let same = list_beq_iff image trusted in
    let only = is_prefix_only-true trusted in
    let other = is_prefix_only-false trusted in
    (
      λ h.
          let (e, k) = tests.0 h in
          (
            given.0 e,
            sum_map (λ k. (only.0 k.0, whole.0 k.1))
                (λ k. (other.0 k.0, sum_map same.0 (sum_map tag.0 digest.0) k.1)) k,
          ),
      λ (e, k). tests.1 (
        given.1 e,
        sum_map (λ k. (only.1 k.0, whole.1 k.1))
            (λ k. (other.1 k.0, sum_map same.1 (sum_map tag.1 digest.1) k.1)) k,
      ),
    )
