-- ===== src/Journal/Restart.antt =====
-- The journal of internal/job/journal.go over crashes and restarts of the agent: any calls, any
-- failing writes, a crash, and openAttemptJournal again.
use rungpu_agent.Base.{
  String, true, List, [], ◌∷◌, none, lookup, string_eq, ◌≡◌, ◌↔◌, refl, ap, ◌∙◌, inl, inr,
}
use rungpu_agent.Digest.{Sha256}
use rungpu_agent.Journal.Records.{AttemptRecord, JournalIdentity, docker_runtime_name, is_some}
use rungpu_agent.Journal.Store.{AttemptJournal, Disk}
use rungpu_agent.Journal.Lifecycle.{Change, same, evolves, births, Birth, IsKeyed}
use rungpu_agent.Journal.Runs.{Call, step, run, step-Change, step-IsKeyed, Evolution-key}
use rungpu_agent.Journal.Load.{may_be_uncatalogued}
use rungpu_agent.Journal.Entries.{contents, contents-stored}
use rungpu_agent.Journal.Durable.{IsDurable, IsSound}
use rungpu_agent.Journal.Soundness.{store-IsSound}
use rungpu_agent.Journal.Reopen.{lookup-contents}
use rungpu_agent.Journal.Crash.{AllFit, Opens, opens_lem}
use rungpu_agent.Journal.Fits.{open_journal_fits}

-- The disk that a crash leaves, when its writes work again.
abbrev pub after_crash : Disk → Disk
after_crash d = record d { outcomes = [] }

module _ ⦃h : Sha256⦄ where
  -- The first record of an attempt is one that the catalog may lack.
  Birth-uncatalogued :
      (i : JournalIdentity) (id token : String) (new : AttemptRecord)
      → Birth i id token new
      → may_be_uncatalogued new ≡ true
  unfolding may_be_uncatalogued docker_runtime_name
  Birth-uncatalogued i id token new (Birth.admitted_first a b) = refl
  Birth-uncatalogued i id token new Birth.cancelled_first = refl
  Birth-uncatalogued i id token new (Birth.result_first x) = refl
  Birth-uncatalogued i id token new (Birth.legacy_first x) = refl

  Change-IsSound : (j j' : AttemptJournal) → Change true j j' → IsSound j → IsSound j'
  Change-IsSound j j' same sound = sound
  Change-IsSound j j' (evolves old new e s) sound =
      store-IsSound new j sound
        (inl (ap (λ k. is_some (lookup k j.records)) (Evolution-key old new s) ∙ ap is_some e))
  Change-IsSound j j' (births id token new e room b) sound =
      store-IsSound new j sound (inr (Birth-uncatalogued j.identity id token new b, room))

  -- Every history of calls keeps the journal and its files sound, whatever writes fail. The records
  -- must stand under their own keys, as every call keeps them.
  pub run-IsSound :
      (cs : List Call) (j : AttemptJournal) → IsKeyed j.records → IsSound j → IsSound (run cs j)
  unfolding run
  run-IsSound [] j keyed sound = sound
  run-IsSound (c ∷ cs) j keyed sound =
      run-IsSound cs (step c j) (step-IsKeyed c j keyed)
        (Change-IsSound j (step c j) (step-Change c j keyed) sound)

  -- The reopened journal against the one that crashed.
  pub record Recovers (before after : AttemptJournal) : Type 0 where
    pub nothing_forgotten :
        (k : String)
        → is_some (lookup k before.records) ≡ true
        → is_some (lookup k after.records) ≡ true
    pub exact : before.fault ≡ none → after.records ≡ before.records
    pub usable : after.fault ≡ none

  -- After any calls, with any of their writes failing, a crash leaves a directory that the agent
  -- opens again with its own GPU identity, exactly if each record file on the disk has at most
  -- 16 MiB by then, since the reading refuses a larger one. No attempt is then forgotten, and if no
  -- write had failed the records are exactly those before the crash. This is for a sound journal
  -- whose records stand under their own keys.
  pub reopen_after_crash :
      (random_owner : String) (j : AttemptJournal) (cs : List Call)
      → IsKeyed j.records
      → IsSound j
      → let before : AttemptJournal = run cs j in
        AllFit before.disk ↔ (
          (after : AttemptJournal) × Opens before.identity.gpu_id random_owner
            (after_crash before.disk)
            after
          × Recovers before after)
  reopen_after_crash random_owner j cs keyed sound =
      let before : AttemptJournal = run cs j in
      let s : IsSound before = run-IsSound cs j keyed sound in
      let durable : IsDurable before.identity s.listed (after_crash before.disk) = record {
        registered = s.durable.registered;
        identity_written = s.durable.identity_written;
        catalog_written = s.durable.catalog_written;
        in_order = s.durable.in_order;
      } in
      (
        λ fit.
            let (after, opens) =
              opens_lem random_owner before.identity s.listed (after_crash before.disk) s.opened
                durable fit refl in
            (
              after,
              opens,
              record {
                nothing_forgotten = λ k p.
                    ap (λ m. is_some (lookup k m)) opens.2
                    ∙ lookup-contents before.identity s.listed k before.disk.record_files
                        s.durable.in_order.good
                    ∙ s.remembered k p;
                exact = λ no_fault.
                    opens.2
                    ∙ ap contents (s.synced no_fault).same_records
                    ∙ contents-stored before.records;
                usable = opens.4;
              },
            ),
        λ (after, opens, _).
            open_journal_fits before.identity.gpu_id random_owner before.identity
              (after_crash before.disk) after durable.identity_written s.opened.initialized
              (ap (λ p. p.1) opens.1),
      )
