-- ===== src/Sandbox/Mounts.antt =====
-- internal/dockermgr/security.go: the host paths that a container may mount.
use rungpu_agent.Base.{
  ◌≡◌, ◌≢◌, ◌↔◌, ◌⊎◌, inl, inr, refl, Bool, Bool-cases, true, false, not, List, map, [], ◌∷◌, ◌++◌,
  any, All, contains, Text, codes, has_prefix, clean, ap, ◌∙◌, subst, if◌then◌else◌, ◌==◌, nat_eq,
  list_eq, list_beq_iff, arith, or_false,
}
use rungpu_agent.Sandbox.{
  blocked_mount_paths, is_agent_controlled, is_below, is_refused, host_path, accepts_mounts, before,
}
use rungpu_agent.Sandbox.Names.{Starts, has_prefix-Starts, sum_map}
use rungpu_agent.Sandbox.Segments.{
  IsFree, HasSegment, contains-split, before_eq, before_splits, contains-middle,
}

-- The path is none of the blocked ones, nor below one.
abbrev pub Outside : Text → List Text → Type 0
Outside path blocked = All (λ b. (path ≢ b) × ¬ Starts path (b ++ codes "/")) blocked

-- The system's directories.
abbrev pub protected_paths : List Text
protected_paths = map codes (
    "/" ∷ "/etc" ∷ "/root" ∷ "/home" ∷ "/var/run/docker.sock" ∷ "/var/run" ∷ "/proc" ∷ "/sys"
    ∷ "/dev" ∷ "/boot" ∷ "/usr" ∷ "/bin" ∷ "/sbin" ∷ "/lib" ∷ "/tmp" ∷ [])

-- A mount with a colon: of the path before the first one, when it is cleaned.
pub Safe : Text → Type 0
Safe mount =
    (host rest : Text)
    → mount ≡ host ++ b':' ∷ rest
    → IsFree b':' host
    → HasSegment (codes ".tokenize") (clean host) ⊎ Outside (clean host) protected_paths

not_true : (b : Bool) → ¬ (b ≡ true) → b ≡ false
not_true true h = absurd (h refl)
not_true false h = refl

is_below-false :
    (path b : Text) → (is_below path b ≡ false) ↔ ((path ≢ b) × ¬ Starts path (b ++ codes "/"))
is_below-false path b =
    let starts = has_prefix-Starts path (b ++ codes "/") in
    let same = list_beq_iff path b in
    let tests = or_false (path == b) (has_prefix path (b ++ codes "/")) in
    (
      λ h.
          let (e, p) = tests.0 h in
          (λ q. absurd (cc (same.1 q, e)), λ s. absurd (cc (starts.1 s, p))),
      λ (differs, free).
          tests.1 (not_true _ (λ e. differs (same.0 e)), not_true _ (λ e. free (starts.0 e))),
    )

Outside-of_other :
    (path : Text) (blocked : List Text)
    → is_agent_controlled path ≡ false
    → (is_agent_controlled path ≡ true) ⊎ Outside path blocked
    → Outside path blocked
Outside-of_other path blocked other (inl agent) = absurd (cc (agent, other))
Outside-of_other path blocked other (inr o) = o

not_refused :
    (path : Text) (blocked : List Text)
    → (any (is_refused path) blocked ≡ false)
      ↔ ((is_agent_controlled path ≡ true) ⊎ Outside path blocked)
not_refused path [] = (λ h. inr tt, λ h. refl)
not_refused path (b ∷ blocked) =
    let (to, from) = not_refused path blocked in
    let (out, back) = is_below-false path b in
    let tests = or_false (is_refused path b) (any (is_refused path) blocked) in
    elim (Bool-cases (is_agent_controlled path)) [
      | inl agent ↦ (λ h. inl agent, λ h. tests.1 (ground (arith, agent), from (inl agent)))
      | inr other ↦ (
        λ h.
            let (here, there) = tests.0 h in
            inr (out (ground (arith, here, other)), Outside-of_other path blocked other (to there)),
        λ k.
            let (here, there) = Outside-of_other path (b ∷ blocked) other k in
            tests.1 (ground (arith, back here), from (inr there)),
      )
    ]

mount_cases :
    (colon refused rest : Bool)
    → ((if not colon then rest else if refused then false else rest) ≡ true)
      ↔ ((colon ≡ true → refused ≡ false) × (rest ≡ true))
mount_cases true true rest = ground arith
mount_cases true false rest = ground arith
mount_cases false refused rest = ground arith

-- The test of one mount, by the path that stands before its first colon.
mount-Safe :
    (mount : Text)
    → (contains b':' mount ≡ true → any (is_refused (host_path mount)) blocked_mount_paths ≡ false)
      ↔ Safe mount
unfolding Safe is_agent_controlled
mount-Safe mount = (
  λ h host rest e free.
      let here : before b':' mount ≡ host = ap (before b':') e ∙ before_eq b':' host rest free in
      let colon = ap (contains b':') e ∙ contains-middle b':' host rest in
      subst (λ p. HasSegment (codes ".tokenize") (clean p) ⊎ Outside (clean p) protected_paths) here
        (sum_map (contains-split (codes ".tokenize") (host_path mount)).0 (λ o. o)
          ((not_refused (host_path mount) blocked_mount_paths).0 (h colon))),
  λ safe colon.
      let (rest, e, free) = before_splits b':' mount colon in
      (not_refused (host_path mount) blocked_mount_paths).1 (
        sum_map (contains-split (codes ".tokenize") (host_path mount)).1 (λ o. o)
          (safe (before b':' mount) rest e free)),
)

-- ValidateMounts accepts mounts exactly if, of each that has a colon, the text before the first
-- colon is, cleaned by filepath.Clean of Unix, a path with a segment ".tokenize", or is none of the
-- blocked paths and below none.
pub accepts_mounts-Safe : (mounts : List Text) → (accepts_mounts mounts ≡ true) ↔ All Safe mounts
unfolding accepts_mounts
accepts_mounts-Safe [] = (λ h. tt, λ h. refl)
accepts_mounts-Safe (mount ∷ mounts) =
    let rest = accepts_mounts-Safe mounts in
    let here = mount-Safe mount in
    let tests =
      mount_cases (contains b':' mount) (any (is_refused (host_path mount)) blocked_mount_paths)
        (accepts_mounts mounts) in
    (λ h. let (m, r) = tests.0 h in (here.0 m, rest.0 r), λ (m, r). tests.1 (here.1 m, rest.1 r))
