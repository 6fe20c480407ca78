-- ===== src/Payments/Publisher/Drained.antt =====
-- The loop of outbox_publisher.go where Kafka and the database answer: every waiting event is published.
use finflow.Base.{ℕ, zero, suc, Option, none, List, [], ◌∷◌}
use finflow.Go.Environment.{Environment}
use finflow.Go.Errors.{Error}
use finflow.Go.Json.{Document}
use finflow.Consumer.Message.{Message}
use finflow.Payments.Event.{OutboxEvent}
use finflow.Payments.Tables.{PaymentDb}
use finflow.Payments.Publisher.{PublisherState}

-- A state in which every further call succeeds.
abbrev pub quiet :
    List OutboxEvent → PaymentDb → ℕ → ℕ → List (Message Document) → PublisherState PaymentDb
quiet outbox db n c topic = record {
  world = record { db = record db { outbox = outbox }; schedule = []; next_id = n; clock = c };
  kafka = [];
  topic = topic;
}

-- As many ticks as there are rounds.
abbrev pub ticks : ℕ → List (Option Error)
ticks zero = []
ticks (suc k) = none ∷ ticks k
