-- ===== src/Payments/Publisher.antt =====
-- services/payment-service/internal/publisher/outbox_publisher.go: `publishOne`, `PublishBatch` and `Run`
-- over any `OutboxRepository`. Trace headers, metrics and logs are left out.
pub mod Delivered
pub mod Batch
pub mod Waiting
pub mod Settled
pub mod Drained
pub mod Unchanged
use finflow.Base.{ℕ, String, Option, none, some, List, [], ◌∷◌, ◌++◌}
use finflow.Base.Int.{ℤ}
use finflow.Go.Errors.{Error, error_text, Result, ok, err}
use finflow.Go.Json.{Document}
use finflow.Postgres.{
  World, Outcome, success, failed, unacknowledged, first_outcome, other_outcomes,
}
use finflow.Consumer.Message.{Header, Message}
use finflow.Payments.Event.{OutboxEvent}
use finflow.Payments.Outbox.{OutboxRepository}

-- The store's world, what Kafka answers to a write, and the messages of the topic.
pub record PublisherState (T : Type 0) : Type 0 where
  pub world : World T
  pub kafka : List Outcome
  pub topic : List (Message Document)

-- The message of an event; the broker sets its partition and offset.
unfoldable pub event_message : String → OutboxEvent → Message Document
event_message topic_name e = record {
  topic = topic_name;
  partition = 0;
  offset = 0;
  key = e.aggregate_id;
  value = e.payload;
  headers =
      record { key = "event_id"; value = e.id }
      ∷ record { key = "event_type"; value = e.event_type }
      ∷ record { key = "aggregate_type"; value = e.aggregate_type }
      ∷ [];
}

module _ {T : Type 0} (store : OutboxRepository T) (topic_name : String) where
  -- `WriteMessages`
  abbrev pub sent :
      Outcome → Message Document → PublisherState T → Result (Unit {0}) × PublisherState T
  sent success m s = (ok tt, record s { topic = s.topic ++ m ∷ [] })
  sent (failed e) m s = (err e, s)
  sent (unacknowledged e) m s = (err e, record s { topic = s.topic ++ m ∷ [] })

  unfoldable pub publish_one : OutboxEvent → PublisherState T → Result (Unit {0}) × PublisherState T
  unfolding event_message
  publish_one e s =
      sent (first_outcome s.kafka) (event_message topic_name e)
        (record s { kafka = other_outcomes s.kafka })

  -- The mark that follows; an error of its own is only logged.
  abbrev pub mark : OutboxEvent → Result (Unit {0}) → PublisherState T → PublisherState T
  mark e (ok done) s = record s { world = (store.mark_published e.id s.world.clock s.world).1 }
  mark e (err cause) s = record s { world = (store.mark_failed e.id (error_text cause) s.world).1 }

  -- The loop over the claimed events.
  unfoldable pub publish_events : List OutboxEvent → PublisherState T → PublisherState T
  unfolding publish_one
  publish_events [] s = s
  publish_events (e ∷ events) s =
      let (r, s') = publish_one e s in publish_events events (mark e r s')

  abbrev pub after_claim :
      Result (List OutboxEvent) → PublisherState T → Result (Unit {0}) × PublisherState T
  after_claim (err e) s = (err e, s)
  after_claim (ok events) s = (ok tt, publish_events events s)

  unfoldable pub publish_batch : ℤ → PublisherState T → Result (Unit {0}) × PublisherState T
  unfolding publish_events
  publish_batch batch_size s =
      let (r, w) = store.claim_pending batch_size s.world in after_claim r (record s { world = w })

  -- `Run` over what ends each wait: the ticker, or the context's error.
  unfoldable pub run : ℤ → List (Option Error) → PublisherState T → Option Error × PublisherState T
  unfolding publish_batch
  run batch_size [] s = (none, s)
  run batch_size (none ∷ ticks) s = run batch_size ticks (publish_batch batch_size s).1
  run batch_size (some cause ∷ ticks) s = (some cause, (publish_batch batch_size s).1)
