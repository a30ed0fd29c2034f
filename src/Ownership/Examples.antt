-- ===== src/Ownership/Examples.antt =====
-- internal/dockermgr/ownership.go: a machine with one owned container, which the removal takes.
use rungpu_agent.Base.{
  ◌≡◌, refl, Bool, true, false, [], ◌∷◌, some, Text, codes, ◌++◌, lookup, trim_space, fields,
  string_eq,
}
use rungpu_agent.Journal.Records.{OwnedResource}
use rungpu_agent.Ownership.{
  Docker, Inspected, is_blank, is_full_container_id, read_inventory, has_labels, owned_container,
  inspect_owned, remove_owned_and_verify,
}
use rungpu_agent.Ownership.Teardown.{IsAbsent, remove_owned_and_verify-IsAbsent}

abbrev owner : OwnedResource
owner = record { name = "box"; labels = some (("job", "job-1") ∷ []); daemon_id = "daemon" }

abbrev container_id : Text
container_id = codes "0123456789abcdef0123456789abcdef0123456789abcdef0123456789abcdef"

abbrev inventory : Bool → Text
inventory true = container_id ++ codes " box\n"
inventory false = codes "\n"

abbrev seen : Inspected
seen = record {
  id = container_id;
  name = codes "box";
  labels = ("job", "job-1") ∷ [];
  running = some true;
}

-- The state tells whether the container is there.
abbrev machine : Docker Bool
machine = record {
  daemon_id = λ s. (s, some "daemon");
  ps = λ labels s. (s, some (inventory s));
  inspect = λ id s. (s, some (seen ∷ []));
  remove = λ id s. (false, true);
}

removal : (remove_owned_and_verify machine owner true).1 ≡ true
unfolding remove_owned_and_verify inspect_owned owned_container read_inventory is_blank
    is_full_container_id has_labels lookup trim_space fields
removal = refl

remove_owned_and_verify-IsAbsent_example :
    (last : Bool) × IsAbsent machine owner last
    × ((remove_owned_and_verify machine owner true).0 ≡ (owned_container machine owner last).0)
remove_owned_and_verify-IsAbsent_example =
    remove_owned_and_verify-IsAbsent machine owner true removal
