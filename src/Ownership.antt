-- ===== src/Ownership.antt =====
-- internal/dockermgr/ownership.go: the container that an execution owns, and its removal. The docker
-- command is a parameter: each call takes the state of the machine to the next, with an answer.
use rungpu_agent.Base.{
  ℕ, leb, String, Bool, true, false, not, ◌&&◌, ◌||◌, List, [], ◌∷◌, Map, lookup, all, Option, none,
  some, Text, codes, is_digit, is_space, trim_space, fields, split, length, if◌then◌else◌, ◌==◌,
  ◌/=◌, nat_eq, list_eq, string_eq, option_eq,
}
use rungpu_agent.Journal.Records.{OwnedResource}
pub mod Teardown
mod Examples

-- One entry of what docker inspect prints, as JSON reads it; `running` is none if State or Running
-- is missing. A name is without its leading "/".
pub record Inspected : Type 0 where
  pub id : Text
  pub name : Text
  pub labels : Map String
  pub running : Option Bool

-- The calls of the docker command; `none` and `false` are their errors. `ps` is docker ps with the
-- labels as filters, `inspect` docker inspect with its output decoded, `none` if it is no JSON list.
pub record Docker (S : Type 0) : Type 0 where
  pub daemon_id : S → S × Option String
  pub ps : Map String → S → S × Option Text
  pub inspect : Text → S → S × Option (List Inspected)
  pub remove : Text → S → S × Bool

abbrev is_id_character : ℕ → Bool
is_id_character c = is_digit c || (leb b'a' c && leb c b'f')

unfoldable pub is_full_container_id : Text → Bool
is_full_container_id s = length s == 64 && all is_id_character s

unfoldable pub is_blank : Text → Bool
is_blank line = trim_space line == []

-- The two fields of a line.
abbrev pub container_of : List Text → Option (Text × Text)
container_of (id ∷ name ∷ []) = if is_full_container_id id then some (id, name) else none
container_of (id ∷ name ∷ more ∷ rest) = none
container_of (id ∷ []) = none
container_of [] = none

-- The container after one more line: an error if there is one before.
abbrev pub add_container :
    Option (Text × Text) → Option (Text × Text) → Option (Option (Text × Text))
add_container none line = none
add_container (some c) none = some (some c)
add_container (some c) (some before) = none

-- `none` is an error, `some none` an inventory without containers.
unfoldable pub read_inventory : Option (Text × Text) → List Text → Option (Option (Text × Text))
read_inventory found [] = some found
read_inventory found (line ∷ lines) = elim (is_blank line) [
  | true ↦ read_inventory found lines
  | false ↦ elim (add_container (container_of (fields is_space line)) found) [
    | none ↦ none
    | some next ↦ read_inventory next lines
  ]
]

unfoldable pub has_labels : Map String → Map String → Bool
has_labels [] labels = true
has_labels ((key, value) ∷ wanted) labels =
    (elim (lookup key labels) [ some v ↦ v == value | none ↦ "" == value ])
    && has_labels wanted labels

-- A nil map has no keys.
abbrev pub labels_of : Option (Map String) → Map String
labels_of none = []
labels_of (some labels) = labels

abbrev pub is_empty : Map String → Bool
is_empty [] = true
is_empty (entry ∷ rest) = false

abbrev pub is_missing : Option Bool → Bool
is_missing none = true
is_missing (some b) = false

module _ {S : Type 0} (docker : Docker S) (owner : OwnedResource) where
  abbrev pub listed : S × Option Text → S × Option (Option (Text × Text))
  listed (s, none) = (s, none)
  listed (s, some out) = (s, read_inventory none (split b'\n' out))

  abbrev pub on_daemon : S × Option String → S × Option (Option (Text × Text))
  on_daemon (s, none) = (s, none)
  on_daemon (s, some daemon) =
      if owner.daemon_id == "" || daemon /= owner.daemon_id
      then (s, none)
      else listed (docker.ps (labels_of owner.labels) s)

  unfoldable pub owned_container : S → S × Option (Option (Text × Text))
  owned_container s = on_daemon (docker.daemon_id s)

  -- The one entry that docker inspect must print.
  abbrev pub consistent : Text → Text → Option (List Inspected) → Option Text
  consistent id name (some (c ∷ [])) =
      if c.id /= id
        || c.name /= name
        || is_missing c.running
        || not (has_labels (labels_of owner.labels) c.labels)
      then none
      else some id
  consistent id name (some (c ∷ d ∷ rest)) = none
  consistent id name (some []) = none
  consistent id name none = none

  abbrev pub inspected : S × Option (Option (Text × Text)) → S × Option (Option Text)
  inspected (s, none) = (s, none)
  inspected (s, some none) = (s, some none)
  inspected (s, some (some (id, name))) =
      let (after, answer) = docker.inspect id s in
      (after, elim (consistent id name answer) [ none ↦ none | some c ↦ some (some c) ])

  -- The id of inspectOwned: `none` is an error, `some none` that there is no container.
  unfoldable pub inspect_owned : S → S × Option (Option Text)
  inspect_owned s =
      if owner.name == "" || is_empty (labels_of owner.labels)
      then (s, none)
      else inspected (owned_container s)

  abbrev pub is_gone : S × Option (Option (Text × Text)) → S × Bool
  is_gone (s, some none) = (s, true)
  is_gone (s, some (some c)) = (s, false)
  is_gone (s, none) = (s, false)

  abbrev pub verified : S × Bool → S × Bool
  verified (s, false) = (s, false)
  verified (s, true) = is_gone (owned_container s)

  abbrev pub removed : S × Option (Option Text) → S × Bool
  removed (s, none) = (s, false)
  removed (s, some none) = (s, true)
  removed (s, some (some id)) = verified (docker.remove id s)

  -- Whether RemoveOwnedAndVerify returns no error.
  unfoldable pub remove_owned_and_verify : S → S × Bool
  remove_owned_and_verify s = removed (inspect_owned s)
