-- ===== src/Sandbox/Segments.antt =====
-- The segments of a path, by strings.Split and strings.Join (internal/dockermgr/security.go,
-- isAgentControlledPath and ValidateMounts).
use mathlib.Core.List.{append-nil}
use rungpu_agent.Base.{
  ℕ, ◌≡◌, ◌↔◌, refl, sym, ap, ◌∙◌, subst, Bool-cases, true, false, List, [], ◌∷◌, ◌++◌, All,
  contains, Text, split, join, ◌==◌, nat_eq, list_eq, nat_beq_iff, beq_refl, inl, inr, arith,
}
use rungpu_agent.Sandbox.{before}

abbrev pub IsFree : ℕ → Text → Type 0
IsFree c s = contains c s ≡ false

-- The path is slash-free segments with a slash between each two, and this is one of them.
pub HasSegment : Text → Text → Type 0
HasSegment s path =
    (first : Text) × (rest : List Text) × (path ≡ join (first ∷ rest))
    × All (IsFree b'/') (first ∷ rest)
    × (contains s (first ∷ rest) ≡ true)

split_cons : (p : Text) → (w : Text) × (ws : List Text) × (split b'/' p ≡ w ∷ ws)
split_cons [] = ([], [], refl)
split_cons (c ∷ p) = elim (Bool-cases (c == b'/')) [
  | inl e ↦ ([], split b'/' p, rw (e) refl)
  | inr e ↦ let (w, ws, f) = split_cons p in (c ∷ w, ws, rw (e, f) refl)
]

join-split : (p : Text) → join (split b'/' p) ≡ p
join-split [] = refl
join-split (c ∷ p) =
    let (w, ws, f) = split_cons p in
    let rest : join (w ∷ ws) ≡ p = ap join (sym f) ∙ join-split p in
    elim (Bool-cases (c == b'/')) [
      | inl e ↦
          rw (e, f) (ap (λ x. b'/' ∷ x) rest ∙ ap (λ x. x ∷ p) (sym ((nat_beq_iff c b'/').0 e)))
      | inr e ↦ rw (e, f) (joined c w ws ∙ ap (λ x. c ∷ x) rest)
    ]
  where
    joined : (c : ℕ) (w : Text) (ws : List Text) → join ((c ∷ w) ∷ ws) ≡ c ∷ join (w ∷ ws)
    joined c w [] = refl
    joined c w (v ∷ ws) = refl

split-IsFree : (p : Text) → All (IsFree b'/') (split b'/' p)
split-IsFree [] = (refl, tt)
split-IsFree (c ∷ p) =
    let (w, ws, f) = split_cons p in
    let free : All (IsFree b'/') (w ∷ ws) = subst (All (IsFree b'/')) f (split-IsFree p) in
    elim (Bool-cases (c == b'/')) [
      | inl e ↦ rw (e, f) (refl, free)
      | inr e ↦ rw (e, f) (ground (arith, e, free.0), free.1)
    ]

-- The first segment's characters, before what begins with a slash or is empty.
split_first :
    (w : Text) (p : Text) (ws : List Text)
    → IsFree b'/' w
    → split b'/' p ≡ [] ∷ ws
    → split b'/' (w ++ p) ≡ w ∷ ws
split_first [] p ws free f = f
split_first (c ∷ w) p ws free f =
    let e : (c == b'/') ≡ false = ground (arith, free) in
    rw (e, split_first w p ws (ground (arith, free)) f) refl

split-join :
    (w : Text) (ws : List Text) → All (IsFree b'/') (w ∷ ws) → split b'/' (join (w ∷ ws)) ≡ w ∷ ws
split-join w [] (free, _) =
    subst (λ p. split b'/' p ≡ w ∷ []) (append-nil w) (split_first w [] [] free refl)
split-join w (v ∷ ws) (free, more) =
    split_first w (b'/' ∷ join (v ∷ ws)) (v ∷ ws) free (rw (split-join v ws more) refl)

pub contains-split : (s path : Text) → (contains s (split b'/' path) ≡ true) ↔ HasSegment s path
unfolding HasSegment
contains-split s path = (
  λ h.
      let (w, ws, f) = split_cons path in
      (
        w,
        ws,
        sym (join-split path) ∙ ap join f,
        subst (All (IsFree b'/')) f (split-IsFree path),
        subst (λ xs. contains s xs ≡ true) f h,
      ),
  λ (w, ws, e, free, here).
      ap (λ p. contains s (split b'/' p)) e ∙ ap (contains s) (split-join w ws free) ∙ here,
)

-- What stands before the first separator.
pub before_eq : (c : ℕ) (host rest : Text) → IsFree c host → before c (host ++ c ∷ rest) ≡ host
before_eq c [] rest free = ground (arith, beq_refl c)
before_eq c (x ∷ host) rest free =
    let e : (x == c) ≡ false = ground (arith, free) in
    rw (e) (ap (λ h. x ∷ h) (before_eq c host rest (ground (arith, free))))

pub before_splits :
    (c : ℕ) (s : Text)
    → contains c s ≡ true
    → (rest : Text) × (s ≡ before c s ++ c ∷ rest) × IsFree c (before c s)
before_splits c [] h = absurd (cc h)
before_splits c (x ∷ s) h = elim (Bool-cases (x == c)) [
  | inl e ↦ (s, rw (e) (ap (λ y. y ∷ s) ((nat_beq_iff x c).0 e)), rw (e) refl)
  | inr e ↦
      let (rest, f, free) = before_splits c s (ground (arith, h, e)) in
      (rest, rw (e) (ap (λ y. x ∷ y) f), rw (e) (ground (arith, e, free)))
]

pub contains-middle : (c : ℕ) (host rest : Text) → contains c (host ++ c ∷ rest) ≡ true
contains-middle c [] rest = ground (arith, beq_refl c)
contains-middle c (x ∷ host) rest = ground (arith, contains-middle c host rest)
