-- ===== src/Consumer/Run/Committed.antt =====
-- No message is lost: what the loop commits has been handled or published as a dead letter, and it
-- commits the fetched messages in their order, without a gap.
use finflow.Base.{
  ℕ, ◌≡◌, refl, sym, ap, ◌∙◌, Option, none, some, List, [], ◌∷◌, ◌++◌, arith, ◌⊎◌, inl, inr,
  Bool-cases,
}
use mathlib.Core.List.{append-nil, append_assoc}
use finflow.Go.Errors.{Error, Result, ok, err}
use finflow.Go.Json.{Document}
use finflow.Postgres.{Outcome, success, failed, unacknowledged, first_outcome}
use finflow.Consumer.Message.{Message}
use finflow.Consumer.Handle.{handle_message}
use finflow.Consumer.Retry.{Handled, handle_with_retry}
use finflow.Consumer.DeadLetter.{DeadLetterRecord, dead_letter_message}
use finflow.Consumer.Run.{
  PaymentConsumer, ConsumerState, Fetch, fetched, fetch_failed, is_cancellation, after_kafka,
  written, marked, publish, commit_message, commit_published, finish_message, process_message,
  after_round, round, run,
}

err≢ok {ℓ} : {A : Type ℓ} {e : Error} {a : A} → err e ≡ ok a → ⊥
err≢ok h = cc

some≢none {ℓ} : {A : Type ℓ} {a : A} → some a ≡ none → ⊥
some≢none h = cc

module _ {T : Type 0} (c : PaymentConsumer T) where
  -- The message is committed and was handled, or it is committed and its dead letter is written.
  abbrev pub Settled : Message Document → Handled → ℕ → ConsumerState T → ConsumerState T → Type 0
  Settled m r now s s' =
      (s'.committed ≡ s.committed ++ m ∷ [])
      × (((r.error ≡ none) × (s'.dead_letters ≡ s.dead_letters))
          ⊎ ((e : Error) × (r.error ≡ some e)
              × (s'.dead_letters
                  ≡ s.dead_letters
                    ++ dead_letter_message c.dead_letter_topic m e r.attempts now ∷ [])))

  -- A commit leaves the dead letters alone, and an answer without an error is a commit.
  abbrev Committing :
      Message Document → ConsumerState T → Result (Unit {0}) × ConsumerState T → Type 0
  Committing m s (answer, s') =
      (s'.dead_letters ≡ s.dead_letters)
      × ((s'.committed ≡ s.committed) ⊎ (s'.committed ≡ s.committed ++ m ∷ []))
      × (answer ≡ ok tt → s'.committed ≡ s.committed ++ m ∷ [])

  marked_cases :
      (o : Outcome) (m : Message Document) (s : ConsumerState T) → Committing m s (marked o m s)
  marked_cases success m s = (refl, inr refl, λ _. refl)
  marked_cases (failed e) m s = (refl, inl refl, λ h. absurd (err≢ok h))
  marked_cases (unacknowledged e) m s = (refl, inr refl, λ h. absurd (err≢ok h))

  commit_message_cases :
      (m : Message Document) (s : ConsumerState T) → Committing m s (commit_message m s)
  unfolding commit_message
  commit_message_cases m s = marked_cases (first_outcome s.kafka) m (after_kafka s)

  -- A dead letter is on the broker before its message is committed.
  abbrev Lettered :
      Message Document
      → Message DeadLetterRecord
      → ConsumerState T
      → Result (Unit {0}) × ConsumerState T
      → Type 0
  Lettered m letter s (answer, s') =
      ((s'.committed ≡ s.committed)
        ⊎ ((s'.committed ≡ s.committed ++ m ∷ [])
            × (s'.dead_letters ≡ s.dead_letters ++ letter ∷ [])))
      × (answer ≡ ok tt → s'.committed ≡ s.committed ++ m ∷ [])

  Lettered-of_commit :
      (m : Message Document) (letter : Message DeadLetterRecord) (s s' : ConsumerState T)
      (out : Result (Unit {0}) × ConsumerState T)
      → s'.committed ≡ s.committed
      → s'.dead_letters ≡ s.dead_letters ++ letter ∷ []
      → Committing m s' out
      → Lettered m letter s out
  Lettered-of_commit m letter s s' out same added (letters, either, sure) = (
    elim either [
      | inl kept ↦ inl (kept ∙ same)
      | inr more ↦ inr (more ∙ ap (λ ms. ms ++ m ∷ []) same, letters ∙ added)
    ],
    λ h. sure h ∙ ap (λ ms. ms ++ m ∷ []) same,
  )

  finish_written :
      (o : Outcome) (m : Message Document) (letter : Message DeadLetterRecord) (s : ConsumerState T)
      → Lettered m letter s (commit_published m (written o letter s).0 (written o letter s).1)
  finish_written success m letter s =
      Lettered-of_commit m letter s (written success letter s).1
        (commit_message m (written success letter s).1) refl refl
        (commit_message_cases m (written success letter s).1)
  finish_written (failed e) m letter s = (inl refl, λ h. absurd (err≢ok h))
  finish_written (unacknowledged e) m letter s = (inl refl, λ h. absurd (err≢ok h))

  publish_letters :
      (m : Message Document) (e : Error) (attempts : ℕ) (s : ConsumerState T)
      → Lettered m
          (dead_letter_message c.dead_letter_topic m e attempts s.world.clock)
          s
          (commit_published m (publish c m e attempts s).0 (publish c m e attempts s).1)
  unfolding publish
  publish_letters m e attempts s =
      finish_written (first_outcome s.kafka) m
        (dead_letter_message c.dead_letter_topic m e attempts s.world.clock) (after_kafka s)

  -- What the code after the retries does with a message.
  abbrev Finished :
      Message Document → Handled → ConsumerState T → Result (Unit {0}) × ConsumerState T → Type 0
  Finished m r s (answer, s') =
      ((s'.committed ≡ s.committed) ⊎ Settled m r s.world.clock s s')
      × (answer ≡ ok tt → s'.committed ≡ s.committed ++ m ∷ [])

  finish_message_finishes :
      (m : Message Document) (r : Handled) (error : Option Error) (s : ConsumerState T)
      → r.error ≡ error
      → Finished m r s (finish_message c m r.attempts error s)
  unfolding finish_message
  finish_message_finishes m r none s h =
      let (letters, either, sure) = commit_message_cases m s in
      (elim either [ inl kept ↦ inl kept | inr more ↦ inr (more, inl (h, letters)) ], sure)
  finish_message_finishes m r (some e) s h = elim (Bool-cases (is_cancellation e)) [
    | inl ended ↦ rw ended (inl refl, λ k. absurd (err≢ok k))
    | inr going ↦
        let (either, sure) = publish_letters m e r.attempts s in
        rw going (
          elim either [ inl kept ↦ inl kept | inr (more, added) ↦ inr (more, inr (e, h, added)) ],
          sure,
        )
  ]

  -- The consumer commits a message only if its handling ended without an error or its dead letter
  -- has been written, and otherwise commits nothing; an answer without an error means that the
  -- message is committed.
  pub process_message_settles :
      (m : Message Document) (s : ConsumerState T)
      → let (r, w) = handle_with_retry (handle_message c.ledger m) c.policy s.waits s.world in
        let (answer, s') = process_message c m s in
        ((s'.committed ≡ s.committed) ⊎ Settled m r w.clock s s')
        × (answer ≡ ok tt → s'.committed ≡ s.committed ++ m ∷ [])
  unfolding process_message
  process_message_settles m s =
      let (r, w) = handle_with_retry (handle_message c.ledger m) c.policy s.waits s.world in
      finish_message_finishes m r r.error (record s { world = w; waits = r.waits }) refl

  -- The messages of a script, in their order.
  abbrev pub fetched_messages : List Fetch → List (Message Document)
  fetched_messages [] = []
  fetched_messages (fetched m ∷ fetches) = m ∷ fetched_messages fetches
  fetched_messages (fetch_failed e wait ∷ fetches) = fetched_messages fetches

  -- A run over messages commits the first of them, all where it does not stop.
  abbrev InOrder :
      List (Message Document) → ConsumerState T → Option Error × ConsumerState T → Type 0
  InOrder messages s (stopped, s') =
      (done : List (Message Document)) × (rest : List (Message Document)) × (messages
        ≡ done ++ rest)
      × (s'.committed ≡ s.committed ++ done)
      × (stopped ≡ none → rest ≡ [])

  InOrder-same :
      (messages : List (Message Document)) (s s' : ConsumerState T)
      (out : Option Error × ConsumerState T)
      → s'.committed ≡ s.committed
      → InOrder messages s' out
      → InOrder messages s out
  InOrder-same messages s s' out same (done, rest, parts, committed, all) =
      (done, rest, parts, committed ∙ ap (λ ms. ms ++ done) same, all)

  InOrder-fetched :
      (m : Message Document) (messages : List (Message Document)) (s s' : ConsumerState T)
      (r : Result (Unit {0})) (out : Option Error × ConsumerState T)
      → (s'.committed ≡ s.committed) ⊎ (s'.committed ≡ s.committed ++ m ∷ [])
      → (r ≡ ok tt → s'.committed ≡ s.committed ++ m ∷ [])
      → InOrder messages s' out
      → InOrder (m ∷ messages) s (after_round r s' out)
  InOrder-fetched m messages s s' (ok done) out either sure (first, rest, parts, committed, all) = (
    m ∷ first,
    rest,
    ap (λ ms. m ∷ ms) parts,
    committed ∙ (ap (λ ms. ms ++ first) (sure refl) ∙ append_assoc s.committed (m ∷ []) first),
    all,
  )
  InOrder-fetched m messages s s' (err e) out (inl kept) sure h =
      ([], m ∷ messages, refl, kept ∙ sym (append-nil s.committed), λ k. absurd (some≢none k))
  InOrder-fetched m messages s s' (err e) out (inr more) sure h =
      (m ∷ [], messages, refl, more, λ k. absurd (some≢none k))

  InOrder-failed :
      (messages : List (Message Document)) (s s' : ConsumerState T) (r : Result (Unit {0}))
      (out : Option Error × ConsumerState T)
      → s'.committed ≡ s.committed
      → InOrder messages s' out
      → InOrder messages s (after_round r s' out)
  InOrder-failed messages s s' (ok done) out same h = InOrder-same messages s s' out same h
  InOrder-failed messages s s' (err e) out same h =
      ([], messages, refl, same ∙ sym (append-nil s.committed), λ k. absurd (some≢none k))

  fetch_failed_commits :
      (e : Error) (wait : Option Error) (s : ConsumerState T)
      → (round c (fetch_failed e wait) s).1.committed ≡ s.committed
  unfolding round
  fetch_failed_commits e wait s = ground arith

  -- The loop of Run commits the first messages that it fetches, in their order and without a gap,
  -- and all of them where it does not stop.
  pub run_commits_in_order :
      (fetches : List Fetch) (s : ConsumerState T)
      → let (stopped, s') = run c fetches s in
        (done : List (Message Document)) × (rest : List (Message Document)) × (fetched_messages
            fetches
          ≡ done ++ rest)
        × (s'.committed ≡ s.committed ++ done)
        × (stopped ≡ none → rest ≡ [])
  unfolding run
  run_commits_in_order [] s = ([], [], refl, sym (append-nil s.committed), λ _. refl)
  run_commits_in_order (fetched m ∷ fetches) s =
      let (either, sure) = process_message_settles m s in
      InOrder-fetched m (fetched_messages fetches) s (process_message c m s).1
        (process_message c m s).0 (run c fetches (process_message c m s).1)
        (elim either [ inl kept ↦ inl kept | inr settled ↦ inr settled.0 ]) sure
        (run_commits_in_order fetches (process_message c m s).1)
  run_commits_in_order (fetch_failed e wait ∷ fetches) s =
      InOrder-failed (fetched_messages fetches) s (round c (fetch_failed e wait) s).1
        (round c (fetch_failed e wait) s).0 (run c fetches (round c (fetch_failed e wait) s).1)
        (fetch_failed_commits e wait s)
        (run_commits_in_order fetches (round c (fetch_failed e wait) s).1)
