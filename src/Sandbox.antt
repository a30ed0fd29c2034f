-- ===== src/Sandbox.antt =====
-- internal/dockermgr/security.go: which images and mounts a job's container may have.
use rungpu_agent.Base.{
  ℕ, ℤ, pos, Bool, true, false, not, ◌&&◌, ◌||◌, List, [], ◌∷◌, ◌++◌, reverse, any, contains,
  Option, none, some, Text, codes, has_prefix, trim_space, split, clean, if◌then◌else◌, ◌==◌, ◌/=◌,
  nat_eq, list_eq,
}
pub mod Names
pub mod Allowed
pub mod Segments
pub mod Mounts
mod Examples

abbrev pub trusted_registries : List Text
trusted_registries =
    codes "docker.io/library/" ∷ codes "jupyter/" ∷ codes "pytorch/" ∷ codes "nvcr.io/nvidia/" ∷ []

abbrev pub blocked_mount_paths : List Text
blocked_mount_paths =
    codes "/"
    ∷ codes "/etc"
    ∷ codes "/root"
    ∷ codes "/home"
    ∷ codes "/var/run/docker.sock"
    ∷ codes "/var/run"
    ∷ codes "/proc"
    ∷ codes "/sys"
    ∷ codes "/dev"
    ∷ codes "/boot"
    ∷ codes "/usr"
    ∷ codes "/bin"
    ∷ codes "/sbin"
    ∷ codes "/lib"
    ∷ codes "/tmp"
    ∷ []

-- The fields of a policy that decide about images.
pub record SecurityPolicy : Type 0 where
  pub allow_any_image : Bool
  pub own_registries : List Text
  pub coordinator_image : Text

unfoldable pub with_assigned_image : SecurityPolicy → Text → SecurityPolicy
with_assigned_image policy image = record policy { coordinator_image = trim_space image }

abbrev pub has_suffix : Text → Text → Bool
has_suffix s end = has_prefix (reverse s) (reverse end)

-- strings.Contains.
unfoldable pub contains_text : Text → Text → Bool
contains_text [] part = part == []
contains_text (c ∷ s) part = has_prefix (c ∷ s) part || contains_text s part

-- strings.SplitN(s, sep, 2)[0], and whether there is a second part.
abbrev pub before : ℕ → Text → Text
before sep [] = []
before sep (c ∷ s) = if c == sep then [] else c ∷ before sep s

unfoldable pub normalize_image : Text → Text
normalize_image image =
    if not (contains b'/' image)
    then codes "docker.io/library/" ++ image
    else if not (contains b'.' (before b'/' image))
    then codes "docker.io/" ++ image
    else image

abbrev pub is_prefix_only : Text → Bool
is_prefix_only trusted = has_suffix trusted (codes "/") || contains_text trusted (codes "@sha256:")

unfoldable pub image_matches_trusted : Text → Text → Bool
image_matches_trusted image trusted =
    if trusted == []
    then false
    else if is_prefix_only trusted
    then has_prefix image trusted
    else image == trusted
      || has_prefix image (trusted ++ codes ":")
      || has_prefix image (trusted ++ codes "@")

abbrev pub is_assigned : Text → SecurityPolicy → Bool
is_assigned image policy =
    policy.coordinator_image /= []
    && (image_matches_trusted image policy.coordinator_image
        || image_matches_trusted (normalize_image image) (normalize_image policy.coordinator_image))

abbrev pub matches_either : Text → Text → Bool
matches_either image prefix =
    image_matches_trusted (normalize_image image) prefix || image_matches_trusted image prefix

-- ValidateImage: whether there is no error.
unfoldable pub accepts_image : Text → SecurityPolicy → Bool
accepts_image image policy =
    if policy.allow_any_image
    then true
    else if is_assigned image policy
    then true
    else any (matches_either image) (trusted_registries ++ policy.own_registries)

unfoldable pub is_agent_controlled : Text → Bool
is_agent_controlled path = contains (codes ".tokenize") (split b'/' path)

abbrev pub is_below : Text → Text → Bool
is_below path blocked = path == blocked || has_prefix path (blocked ++ codes "/")

abbrev pub is_refused : Text → Text → Bool
is_refused path blocked = is_below path blocked && not (is_agent_controlled path)

abbrev pub host_path : Text → Text
host_path mount = clean (before b':' mount)

-- ValidateMounts: whether there is no error. A mount without a colon names no host path.
unfoldable pub accepts_mounts : List Text → Bool
accepts_mounts [] = true
accepts_mounts (mount ∷ mounts) =
    let rest = accepts_mounts mounts in
    if not (contains b':' mount)
    then rest
    else if any (is_refused (host_path mount)) blocked_mount_paths
    then false
    else rest
