-- ===== src/Tests/Publisher.antt =====
-- The publisher's theorems on the concrete inputs.
use finflow.Base.{refl, none, some, [], ◌∷◌}
use finflow.Base.Int.{pos}
use finflow.Go.Errors.{message}
use finflow.Postgres.{success, failed, unacknowledged}
use finflow.Payments.Event.{OutboxEvent, OutboxStatus, new_payment_event, payment_created_event}
use finflow.Payments.Tables.{PaymentDb}
use finflow.Payments.Outbox.{postgres_outbox}
use finflow.Payments.Publisher.{PublisherState, run}
use finflow.Payments.Publisher.Delivered.{Delivered}
use finflow.Payments.Publisher.Batch.{run-Delivered}
use finflow.Tests.Inputs.{ascii, world, keyed_row, created_document}

abbrev waiting : OutboxEvent
waiting = new_payment_event ascii "e1" "p0" payment_created_event created_document

abbrev again : OutboxEvent
again = record waiting { id = "e2"; status = OutboxStatus.failed }

-- The broker takes the first message and loses its answer, then takes the second.
abbrev state : PublisherState PaymentDb
state = record {
  world =
      world (record { payments = keyed_row ∷ []; outbox = waiting ∷ again ∷ [] })
        (success ∷ success ∷ success ∷ failed (message "connection refused") ∷ []);
  kafka = unacknowledged (message "timeout") ∷ success ∷ [];
  topic = [];
}

state-Delivered : Delivered ascii state
state-Delivered = ((refl, λ published. cc), ((refl, λ published. cc), tt))

run-Delivered_example :
    Delivered ascii
      (run
        (postgres_outbox ascii)
        "payments"
        (pos 0)
        (none ∷ some (message "canceled") ∷ [])
        state).1
run-Delivered_example =
    run-Delivered ascii "payments" (pos 0) (none ∷ some (message "canceled") ∷ []) state
      state-Delivered
