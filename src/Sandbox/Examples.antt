-- ===== src/Sandbox/Examples.antt =====
-- internal/dockermgr/security.go: a policy, images and mounts.
use rungpu_agent.Base.{
  ◌≡◌, ◌↔◌, refl, true, false, List, [], ◌∷◌, Text, codes, All, has_prefix, trim_space, clean,
  clean_segments,
}
use rungpu_agent.Sandbox.{
  SecurityPolicy, with_assigned_image, normalize_image, image_matches_trusted, contains_text,
  accepts_image, is_agent_controlled, accepts_mounts,
}
use rungpu_agent.Sandbox.Allowed.{Allowed, accepts_image-Allowed}
use rungpu_agent.Sandbox.Mounts.{Safe, accepts_mounts-Safe}

abbrev owner_policy : SecurityPolicy
owner_policy = record {
  allow_any_image = false;
  own_registries = codes "docker.io/" ∷ [];
  coordinator_image = [];
}

abbrev strict_policy : SecurityPolicy
strict_policy = record { allow_any_image = false; own_registries = []; coordinator_image = [] }

tag_of_assigned :
    accepts_image
      (codes "ghcr.io/team/app:v2")
      (with_assigned_image strict_policy (codes " ghcr.io/team/app "))
    ≡ true
unfolding accepts_image image_matches_trusted normalize_image contains_text has_prefix
    with_assigned_image trim_space
tag_of_assigned = refl

other_name :
    accepts_image
      (codes "ghcr.io/team/app-evil")
      (with_assigned_image strict_policy (codes "ghcr.io/team/app"))
    ≡ false
unfolding accepts_image image_matches_trusted normalize_image contains_text has_prefix
    with_assigned_image trim_space
other_name = refl

-- A registry whose host has a port and no dot is taken for a repository of Docker Hub.
port_registry : accepts_image (codes "registry:5000/app") owner_policy ≡ true
unfolding accepts_image image_matches_trusted normalize_image contains_text has_prefix
port_registry = refl

abbrev mounts : List Text
mounts = codes "/home/u/.tokenize/cache:/models:ro" ∷ codes "/srv/data:/data" ∷ codes "named" ∷ []

safe_mounts : accepts_mounts mounts ≡ true
unfolding accepts_mounts is_agent_controlled has_prefix clean clean_segments
safe_mounts = refl

hidden_etc : accepts_mounts (codes "/srv/../etc/shadow:/x" ∷ []) ≡ false
unfolding accepts_mounts is_agent_controlled has_prefix clean clean_segments
hidden_etc = refl

accepts_image-Allowed_example :
    (accepts_image (codes "ubuntu:22.04") strict_policy ≡ true)
    ↔ Allowed (codes "ubuntu:22.04") strict_policy
accepts_image-Allowed_example = accepts_image-Allowed (codes "ubuntu:22.04") strict_policy

accepts_mounts-Safe_example : (accepts_mounts mounts ≡ true) ↔ All Safe mounts
accepts_mounts-Safe_example = accepts_mounts-Safe mounts
