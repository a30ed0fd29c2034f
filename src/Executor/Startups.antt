-- ===== src/Executor/Startups.antt =====
-- NewExecutorWithOptions on concrete directories: the entries of an old outbox are restored, one
-- sibling's journal is taken, another one's is held elsewhere.
use mathlib.Core.List.{Memᴰ}
use text.Mathlib.TextEquality.{eq_iff}
use rungpu_agent.Base.{
  String, true, List, [], ◌∷◌, Option, none, some, Map, string_eq, lookup, insert, map, All,
  has_prefix, ◌==◌, ◌≡◌, refl, sym, ap, subst, ◌∙◌, Bool-cases, inl, inr,
}
use rungpu_agent.Types.{valid_job_id}
use rungpu_agent.Digest.{Sha256, decodes_to, toy_sha256}
use rungpu_agent.Journal.Records.{
  attempt_key, docker_runtime_name, resource, validate, AttemptRecord,
}
use rungpu_agent.Journal.Store.{AttemptJournal, store, atomic_write, catalog_of, sort}
use rungpu_agent.Journal.Operations.{find_or_fresh, remember_legacy_result}
use rungpu_agent.Journal.Load.{
  open_journal, read_identity, initialize, rebuild, read_catalog, load_keys, load_files,
  catalog_complete, add_uncatalogued, save_if_changed, register,
}
use rungpu_agent.Executor.Recovery.{restore_journal}
use rungpu_agent.Journal.Runs.{legacy_results, step, run}
use rungpu_agent.Journal.Readmission.{new_journal}
use rungpu_agent.Executor.State.{Executor}
use rungpu_agent.Executor.Startup.{
  Entry, plain_file, directory, free, owned, Startup, ready, new_executor, is_passed,
}
use rungpu_agent.Executor.Siblings.{IsRange, IsRecovered, IsAccounted}
use rungpu_agent.Executor.Recovered.{new_executor-IsRecovered}
use rungpu_agent.Executor.Cases.{surroundings, result_of, executor_over, owner}

-- The values of a map, each as it is found under its key.
abbrev add : Option AttemptRecord → List AttemptRecord → List AttemptRecord
add none rs = rs
add (some r) rs = r ∷ rs

abbrev values : Map AttemptRecord → Map AttemptRecord → List AttemptRecord
values whole [] = []
values whole ((k, _) ∷ m) = add (lookup k whole) (values whole m)

add_found :
    (whole : Map AttemptRecord) (k : String) (o : Option AttemptRecord) (rs : List AttemptRecord)
    → lookup k whole ≡ o
    → All (λ r. (k : String) × (lookup k whole ≡ some r)) rs
    → All (λ r. (k : String) × (lookup k whole ≡ some r)) (add o rs)
add_found whole k none rs absent h = h
add_found whole k (some r) rs found h = ((k, found), h)

values_found :
    (whole m : Map AttemptRecord)
    → All (λ r. (k : String) × (lookup k whole ≡ some r)) (values whole m)
values_found whole [] = tt
values_found whole ((k, _) ∷ m) =
    add_found whole k (lookup k whole) (values whole m) refl (values_found whole m)

add_later :
    (r : AttemptRecord) (o : Option AttemptRecord) (rs : List AttemptRecord)
    → Memᴰ r rs
    → Memᴰ r (add o rs)
add_later r none rs m = m
add_later r (some s) rs m = Memᴰ.tail m

values_reach :
    (whole m : Map AttemptRecord) (k : String) (r s : AttemptRecord)
    → lookup k whole ≡ some r
    → lookup k m ≡ some s
    → Memᴰ r (values whole m)
unfolding lookup
values_reach whole [] k r s found at = absurd (cc at)
values_reach whole ((j, t) ∷ m) k r s found at = elim (Bool-cases (j == k)) [
  | inl hit ↦
      subst (λ o. Memᴰ r (add o (values whole m)))
        (sym found ∙ ap (λ x. lookup x whole) (sym ((eq_iff j k).0 hit))) (Memᴰ.head refl)
  | inr miss ↦
      add_later r (lookup j whole) (values whole m)
        (values_reach whole m k r s found (rw (miss, lookup) at at))
]

abbrev range : Map AttemptRecord → List AttemptRecord
range m = values m m

range-IsRange : IsRange range
range-IsRange = record {
  present = λ m. values_found m m;
  complete = λ m k r found. values_reach m m k r r found found;
}

-- A digest that tells the directory of gpu-1 from the others.
instance abbrev digest : Sha256
digest = toy_sha256 "gpu-1\0"

abbrev entries : List Entry
entries =
    record { name = ".machine.lock"; content = plain_file }
    ∷ record {
      name = attempt_key "gpu-1" "";
      content = directory (free owner) (new_journal (λ r. true) "gpu-1" owner).disk;
    }
    ∷ record {
      name = attempt_key "gpu-1" "";
      content = directory owned (new_journal (λ r. true) "gpu-1" owner).disk;
    }
    ∷ []

outbox_journal : AttemptJournal
unfolding run step remember_legacy_result store atomic_write find_or_fresh attempt_key resource
    validate valid_job_id lookup insert catalog_of sort docker_runtime_name
outbox_journal =
    run (legacy_results (result_of "job-1" "a") ∷ []) (new_journal (λ r. true) "gpu-0" owner)

startup : Startup
unfolding outbox_journal new_executor
startup =
    new_executor range (λ gpu_id. surroundings)
      (executor_over (new_journal (λ r. true) "gpu-0" owner)) (free owner) outbox_journal.disk
      entries

abbrev executor_of : Startup → Executor
executor_of (ready e es) = e
executor_of _ = executor_over (new_journal (λ r. true) "gpu-0" owner)

abbrev peers_of : Startup → List Executor
peers_of (ready e es) = es
peers_of _ = []

is_ready : startup ≡ ready (executor_of startup) (peers_of startup)
unfolding startup open_journal read_identity decodes_to initialize rebuild read_catalog load_keys
    load_files catalog_complete add_uncatalogued save_if_changed register restore_journal is_passed
    has_prefix
is_ready = refl

-- The job of the old outbox is tracked, and the peer of gpu-1 is kept.
tracks_the_job : lookup "job-1" (executor_of startup).executions ≡ some 0
unfolding is_ready
tracks_the_job = refl

one_peer : map (λ e. e.gpu_id) (peers_of startup) ≡ "gpu-1" ∷ []
unfolding is_ready
one_peer = refl

new_executor-IsRecovered_example :
    (random_owner : String) × (free owner ≡ free random_owner)
    × IsRecovered "gpu-0" random_owner outbox_journal.disk (executor_of startup)
    × All (IsAccounted (attempt_key "gpu-0" "") (peers_of startup)) entries
unfolding startup
new_executor-IsRecovered_example =
    new_executor-IsRecovered range (λ gpu_id. surroundings) range-IsRange
      (executor_over (new_journal (λ r. true) "gpu-0" owner)) (free owner) outbox_journal.disk
      entries (executor_of startup) (peers_of startup) refl is_ready
