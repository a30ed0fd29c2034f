-- ===== src/Outbox/Batch.antt =====
-- internal/pool/result_outbox.go, sendPendingResults: which results a round takes.
use mathlib.Core.List.{Memᴰ}
use rungpu_agent.Base.{
  ℕ, zero, suc, String, true, false, List, [], ◌∷◌, Option, none, some, Map, lookup, All, All-map,
  All-at, take, length, length-take, ◌==◌, nat_eq, string_eq, ◌≡◌, refl, sym, ap, ◌∙◌, ◌⊎◌, inl,
  inr, ◌≤◌, Bool-cases, arith,
}
use rungpu_agent.Digest.{Sha256}
use rungpu_agent.Journal.Records.{AttemptRecord}
use rungpu_agent.Journal.Store.{AttemptJournal}
use rungpu_agent.Journal.Operations.{find}
use rungpu_agent.Outbox.State.{PendingResult, Outbox}
use rungpu_agent.Outbox.Sending.{
  result_batch_size, is_due_before, insert_due, sort_due, blocks_replay, is_blocked, is_due,
  due_results, batch,
}

-- The times of the next attempts of p and of later results.
abbrev IsFirst : PendingResult → List PendingResult → Type 0
IsFirst p due = All (λ q. p.next_attempt ≤ q.next_attempt) due

abbrev IsSorted : List PendingResult → Type 0
IsSorted [] = Unit {0}
IsSorted (p ∷ due) = IsFirst p due × IsSorted due

module _ {A : Type 0} (P : A → Type 0) where
  All-take : (n : ℕ) (xs : List A) → All P xs → All P (take n xs)
  All-take zero xs h = tt
  All-take (suc n) [] h = tt
  All-take (suc n) (x ∷ xs) h = (h.0, All-take n xs h.1)

All-insert_due :
    (P : PendingResult → Type 0) (p : PendingResult) (due : List PendingResult)
    → P p
    → All P due
    → All P (insert_due p due)
unfolding insert_due
All-insert_due P p [] hp h = (hp, tt)
All-insert_due P p (q ∷ due) hp h = elim (Bool-cases (is_due_before q p)) [
  | inl e ↦ rw (e) (h.0, All-insert_due P p due hp h.1)
  | inr e ↦ rw (e) (hp, h)
]

All-sort_due :
    (P : PendingResult → Type 0) (due : List PendingResult) → All P due → All P (sort_due due)
unfolding sort_due
All-sort_due P [] h = tt
All-sort_due P (p ∷ due) h = All-insert_due P p (sort_due due) h.0 (All-sort_due P due h.1)

before_le : (p q : PendingResult) → is_due_before p q ≡ true → p.next_attempt ≤ q.next_attempt
unfolding is_due_before
before_le p q e = ground (arith, e)

not_before_le : (p q : PendingResult) → is_due_before p q ≡ false → q.next_attempt ≤ p.next_attempt
unfolding is_due_before
not_before_le p q e = ground (arith, e)

IsFirst-trans :
    (p q : PendingResult) (due : List PendingResult)
    → p.next_attempt ≤ q.next_attempt
    → IsFirst q due
    → IsFirst p due
IsFirst-trans p q due le first = All-map (λ r h. omega (arith, le, h)) due first

insert_due-IsSorted :
    (p : PendingResult) (due : List PendingResult) → IsSorted due → IsSorted (insert_due p due)
unfolding insert_due
insert_due-IsSorted p [] s = (tt, tt)
insert_due-IsSorted p (q ∷ due) (first, s) = elim (Bool-cases (is_due_before q p)) [
  | inl e ↦ rw (e) (
    All-insert_due (λ r. q.next_attempt ≤ r.next_attempt) p due (before_le q p e) first,
    insert_due-IsSorted p due s,
  )
  | inr e ↦
      let le = not_before_le q p e in rw (e) ((le, IsFirst-trans p q due le first), (first, s))
]

sort_due-IsSorted : (due : List PendingResult) → IsSorted (sort_due due)
unfolding sort_due
sort_due-IsSorted [] = tt
sort_due-IsSorted (p ∷ due) = insert_due-IsSorted p (sort_due due) (sort_due-IsSorted due)

past :
    (p q r : PendingResult) (due after : List PendingResult)
    → (Memᴰ p (q ∷ due) → Memᴰ p after)
    → Memᴰ p (q ∷ r ∷ due)
    → Memᴰ p (r ∷ after)
past p q r due after later (Memᴰ.head e) = Memᴰ.tail (later (Memᴰ.head e))
past p q r due after later (Memᴰ.tail (Memᴰ.head e)) = Memᴰ.head e
past p q r due after later (Memᴰ.tail (Memᴰ.tail m)) = Memᴰ.tail (later (Memᴰ.tail m))

Memᴰ-insert_due :
    (p q : PendingResult) (due : List PendingResult) → Memᴰ p (q ∷ due) → Memᴰ p (insert_due q due)
unfolding insert_due
Memᴰ-insert_due p q [] m = m
Memᴰ-insert_due p q (r ∷ due) m = elim (Bool-cases (is_due_before r q)) [
  | inr e ↦ rw (e) m
  | inl e ↦ rw (e) (past p q r due (insert_due q due) (Memᴰ-insert_due p q due) m)
]

Memᴰ-sort_due : (p : PendingResult) (due : List PendingResult) → Memᴰ p due → Memᴰ p (sort_due due)
unfolding sort_due
Memᴰ-sort_due p [] m = m
Memᴰ-sort_due p (q ∷ due) (Memᴰ.head e) = Memᴰ-insert_due p q (sort_due due) (Memᴰ.head e)
Memᴰ-sort_due p (q ∷ due) (Memᴰ.tail m) =
    Memᴰ-insert_due p q (sort_due due) (Memᴰ.tail (Memᴰ-sort_due p due m))

-- A result that the cut leaves out comes after all that it keeps.
take_cases :
    (n : ℕ) (p : PendingResult) (due : List PendingResult)
    → IsSorted due
    → Memᴰ p due
    → Memᴰ p (take n due)
      ⊎ ((length (take n due) ≡ n) × All (λ q. q.next_attempt ≤ p.next_attempt) (take n due))
take_cases n p [] s m = elim m [ ]
take_cases zero p (q ∷ due) s m = inr (refl, tt)
take_cases (suc n) p (q ∷ due) s (Memᴰ.head e) = inl (Memᴰ.head e)
take_cases (suc n) p (q ∷ due) (first, s) (Memᴰ.tail m) = elim (take_cases n p due s m) [
  | inl kept ↦ inl (Memᴰ.tail kept)
  | inr (full, later) ↦
      inr
        (omega (arith, full), (All-at (λ r. q.next_attempt ≤ r.next_attempt) p due first m, later))
]

module _ ⦃h : Sha256⦄ where
  -- The time of the next attempt is not after now, and the journal does not block the replay.
  pub record IsDue (box : Outbox) (now : ℕ) (p : PendingResult) : Type 0 where
    pub in_time : p.next_attempt ≤ now
    pub may_replay :
        (j : AttemptJournal) (r : AttemptRecord)
        → box.journal ≡ some j
        → find j p.result.job_id p.result.dispatch_token ≡ some r
        → r.replay_blocked ≡ false

  is_due-IsDue :
      (box : Outbox) (now : ℕ) (p : PendingResult) → is_due box now p ≡ true → IsDue box now p
  unfolding is_due is_blocked
  is_due-IsDue box now p e = record {
    in_time = ground (arith, e);
    may_replay = λ j r has found. ground (arith, e, rw (has, is_blocked, found) at e);
  }

  IsDue-is_due :
      (box : Outbox) (now : ℕ) (p : PendingResult) → IsDue box now p → is_due box now p ≡ true
  unfolding is_due is_blocked
  IsDue-is_due box now p d = ground (arith, free box.journal refl, d.in_time)
    where
      found_free :
          (j : AttemptJournal)
          → box.journal ≡ some j
          → (o : Option AttemptRecord) → find j p.result.job_id p.result.dispatch_token ≡ o
          → blocks_replay o ≡ false
      found_free j has none e = refl
      found_free j has (some r) e = d.may_replay j r has e

      free : (o : Option AttemptJournal) → box.journal ≡ o → is_blocked o p ≡ false
      free none e = refl
      free (some j) e = found_free j e _ refl

  All-due_results :
      (box : Outbox) (now : ℕ) (m : Map PendingResult) → All (IsDue box now) (due_results box now m)
  unfolding due_results
  All-due_results box now [] = tt
  All-due_results box now ((key, p) ∷ rest) = elim (Bool-cases (is_due box now p)) [
    | inl e ↦ rw (e) (is_due-IsDue box now p e, All-due_results box now rest)
    | inr e ↦ rw (e) (All-due_results box now rest)
  ]

  Memᴰ-due_results :
      (box : Outbox) (now : ℕ) (m : Map PendingResult) (key : String) (p : PendingResult)
      → lookup key m ≡ some p
      → is_due box now p ≡ true
      → Memᴰ p (due_results box now m)
  unfolding due_results lookup
  Memᴰ-due_results box now [] key p found d = absurd (cc found)
  Memᴰ-due_results box now ((k, q) ∷ rest) key p found d = elim (Bool-cases (k == key)) [
    | inl hit ↦
        let same : q ≡ p = cc (rw (hit, lookup) at found) in
        rw (ap (is_due box now) same ∙ d) (Memᴰ.head (sym same))
    | inr miss ↦
        let later = Memᴰ-due_results box now rest key p (rw (miss, lookup) at found) d in
        elim (Bool-cases (is_due box now q)) [
          | inl e ↦ rw (e) (Memᴰ.tail later)
          | inr e ↦ rw (e) later
        ]
  ]

  -- A round takes at most 64 results, all of them due: the time of their next attempt is not after
  -- now, and the journal has no record of theirs that blocks the replay. A pending result that is
  -- due is taken, unless 64 are taken whose next attempts are none later than its own.
  pub batch-IsDue :
      (box : Outbox) (now : ℕ)
      → (length (batch box now) ≤ result_batch_size)
        × All (IsDue box now) (batch box now)
        × ((key : String) (p : PendingResult)
            → lookup key box.results ≡ some p
            → IsDue box now p
            → Memᴰ p (batch box now)
              ⊎ ((length (batch box now) ≡ result_batch_size)
                  × All (λ q. q.next_attempt ≤ p.next_attempt) (batch box now)))
  unfolding batch
  batch-IsDue box now =
      let due = due_results box now box.results in
      (
        omega (arith, length-take result_batch_size (sort_due due)),
        All-take _ result_batch_size (sort_due due)
            (All-sort_due _ due (All-due_results box now box.results)),
        λ key p found d. take_cases result_batch_size p (sort_due due) (sort_due-IsSorted due) (
            Memᴰ-sort_due p due
              (Memᴰ-due_results box now box.results key p found (IsDue-is_due box now p d))),
      )
