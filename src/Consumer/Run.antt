-- ===== src/Consumer/Run.antt =====
-- `Run` of consumer/payment_consumer.go with `Publish` of dead_letter.go: fetch, handle with retries,
-- publish a dead letter for what failed, commit. A script gives what each fetch returns, and a list of
-- outcomes what Kafka answers to a write or a commit.
pub mod Committed
use finflow.Base.{
  ℕ, String, Bool, true, false, ◌||◌, Option, none, some, List, [], ◌∷◌, ◌++◌, if◌then◌else◌,
}
use finflow.Go.Errors.{Sentinel, Error, wrap, is, Result, ok, err}
use finflow.Go.Json.{Document}
use finflow.Postgres.{
  World, Outcome, success, failed, unacknowledged, first_outcome, other_outcomes,
}
use finflow.Consumer.Message.{Message}
use finflow.Consumer.Handle.{Ledger, handle_message}
use finflow.Consumer.Retry.{RetryPolicy, Handled, handle_with_retry}
use finflow.Consumer.DeadLetter.{DeadLetterRecord, dead_letter_message}

pub record PaymentConsumer (T : Type 0) : Type 0 where
  pub ledger : Ledger T
  pub dead_letter_topic : String
  pub policy : RetryPolicy

-- The world of the consumer: the ledger's, what ends the waits, Kafka's answers, the dead letters that
-- the broker has, and the messages whose offsets it has as committed.
pub record ConsumerState (T : Type 0) : Type 0 where
  pub world : World T
  pub waits : List (Option Error)
  pub kafka : List Outcome
  pub dead_letters : List (Message DeadLetterRecord)
  pub committed : List (Message Document)

-- What `FetchMessage` returns; after an error, what ends the wait of a second.
pub data Fetch : Type 0 where
  fetched : Message Document → Fetch
  fetch_failed : Error → Option Error → Fetch

abbrev pub is_cancellation : Error → Bool
is_cancellation e = is e Sentinel.canceled || is e Sentinel.deadline_exceeded

module _ {T : Type 0} where
  abbrev pub after_kafka : ConsumerState T → ConsumerState T
  after_kafka s = record s { kafka = other_outcomes s.kafka }

  abbrev pub written :
      Outcome → Message DeadLetterRecord → ConsumerState T → Result (Unit {0}) × ConsumerState T
  written success letter s = (ok tt, record s { dead_letters = s.dead_letters ++ letter ∷ [] })
  written (failed e) letter s = (err (wrap "publish dead-letter record" e), s)
  written (unacknowledged e) letter s = (
    err (wrap "publish dead-letter record" e),
    record s { dead_letters = s.dead_letters ++ letter ∷ [] },
  )

  -- `Publish`
  unfoldable pub publish :
      PaymentConsumer T
      → Message Document
      → Error
      → ℕ
      → ConsumerState T
      → Result (Unit {0}) × ConsumerState T
  publish c m cause attempts s =
      written (first_outcome s.kafka)
        (dead_letter_message c.dead_letter_topic m cause attempts s.world.clock) (after_kafka s)

  abbrev pub marked :
      Outcome → Message Document → ConsumerState T → Result (Unit {0}) × ConsumerState T
  marked success m s = (ok tt, record s { committed = s.committed ++ m ∷ [] })
  marked (failed e) m s = (err (wrap "commit payment event" e), s)
  marked (unacknowledged e) m s =
      (err (wrap "commit payment event" e), record s { committed = s.committed ++ m ∷ [] })

  -- `CommitMessages`
  unfoldable pub commit_message :
      Message Document → ConsumerState T → Result (Unit {0}) × ConsumerState T
  commit_message m s = marked (first_outcome s.kafka) m (after_kafka s)

  abbrev pub commit_published :
      Message Document → Result (Unit {0}) → ConsumerState T → Result (Unit {0}) × ConsumerState T
  commit_published m (ok done) s = commit_message m s
  commit_published m (err e) s = (err (wrap "dead-letter payment event" e), s)

  -- What follows the retries.
  unfoldable pub finish_message :
      PaymentConsumer T
      → Message Document
      → ℕ
      → Option Error
      → ConsumerState T
      → Result (Unit {0}) × ConsumerState T
  unfolding publish commit_message
  finish_message c m attempts none s = commit_message m s
  finish_message c m attempts (some e) s =
      if is_cancellation e
      then (err e, s)
      else (let (r, s') = publish c m e attempts s in commit_published m r s')

  -- One fetched message; an error ends `Run`.
  unfoldable pub process_message :
      PaymentConsumer T → Message Document → ConsumerState T → Result (Unit {0}) × ConsumerState T
  unfolding handle_with_retry
  process_message c m s =
      let (r, w) = handle_with_retry (handle_message c.ledger m) c.policy s.waits s.world in
      finish_message c m r.attempts r.error (record s { world = w; waits = r.waits })

  -- One round of the loop.
  unfoldable pub round :
      PaymentConsumer T → Fetch → ConsumerState T → Result (Unit {0}) × ConsumerState T
  unfolding process_message
  round c (fetched m) s = process_message c m s
  round c (fetch_failed e wait) s =
      if is_cancellation e
      then (err e, s)
      else elim wait [ none ↦ (ok tt, s) | some cause ↦ (err cause, s) ]

  abbrev pub after_round :
      Result (Unit {0})
      → ConsumerState T
      → Option Error × ConsumerState T
      → Option Error × ConsumerState T
  after_round (ok done) s rest = rest
  after_round (err e) s rest = (some e, s)

  -- The loop over a script; `none` where it still runs at the script's end.
  unfoldable pub run :
      PaymentConsumer T → List Fetch → ConsumerState T → Option Error × ConsumerState T
  unfolding round
  run c [] s = (none, s)
  run c (f ∷ fetches) s =
      let (r, s') = round c f s in let rest = run c fetches s' in after_round r s' rest
