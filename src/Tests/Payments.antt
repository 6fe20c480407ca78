-- ===== src/Tests/Payments.antt =====
-- The payment service's theorems on the concrete inputs.
use finflow.Base.{◌≡◌, refl, false, [], ◌∷◌}
use finflow.Base.Int.{pos}
use finflow.Go.Errors.{ok, message, is}
use finflow.Postgres.{World, success, failed, transaction, statement}
use finflow.Payments.Model.{Payment}
use finflow.Payments.Event.{payment_created_payload}
use finflow.Payments.Tables.{
  PaymentDb, payment_of_row, insert_idempotent_query, select_by_key_query,
}
use finflow.Payments.Repository.{
  create, postgres_payments, idempotent_body, after_insert, query_payment, replay_existing,
}
use finflow.Payments.Repository.Create.{create_again_db, create_once_ok}
use finflow.Payments.Repository.Idempotent.{CreatedOnce}
use finflow.Payments.Service.{update_status}
use finflow.Payments.Consistency.{IsConsistent}
use finflow.Payments.History.{
  Request, serve, empty, after, batch, Keeps, Reachable-IsConsistent, serve-Keeps,
}
use finflow.Payments.Outbox.{postgres_outbox}
use finflow.Payments.Publisher.{PublisherState, publish_batch}
use finflow.Payments.Repository as Repository
use finflow.Payments.Repository.{update_body, publish_status_changed, insert_outbox_event}
use finflow.Payments.Tables.{select_by_id_query, update_status_query, insert_outbox_query}
use finflow.Postgres.{new_uuid}
use finflow.Payments.Answer.{update_status_status}
use finflow.Go.Strings.{trim_space, to_lower}
use finflow.Payments.Contract.{decode-payment_created_payload}
use finflow.Consumer.Payload.{decode_payment_created}
use finflow.Tests.Inputs.{
  ascii, world, create_request, keyed_payment, empty_payments, keyed_row, keyed_payments,
}

abbrev creation : Request
creation = Request.create create_request "k1"

abbrev decision : Request
decision = Request.update_status "a" (record { status = "succeeded" })

abbrev start : World PaymentDb
start = world empty_payments (success ∷ [])

abbrev created : World PaymentDb
created = world (serve ascii creation start) (failed (message "connection refused") ∷ [])

-- A batch of the publisher after the two calls, whose message Kafka refuses.
abbrev publishing : PublisherState PaymentDb
publishing = record {
  world = world (serve ascii decision created) [];
  kafka = failed (message "broker down") ∷ [];
  topic = [];
}

abbrev published : PaymentDb
published = (publish_batch (postgres_outbox ascii) "payments" (pos 25) publishing).1.world.db

Reachable-IsConsistent_example : IsConsistent published
unfolding is
Reachable-IsConsistent_example = Reachable-IsConsistent ascii published (
    batch "payments" (pos 25) publishing
      (after created decision (after start creation empty (refl, tt)) (refl, tt)))

serve-Keeps_example :
    Keeps ascii (keyed_row ∷ []) (serve ascii decision (world keyed_payments [])).payments
serve-Keeps_example = serve-Keeps ascii (world keyed_payments []) decision tt

create_again_db_example :
    (create ascii keyed_payment (world keyed_payments (success ∷ []))).1.db ≡ keyed_payments
create_again_db_example =
    create_again_db ascii keyed_payment (world keyed_payments (success ∷ [])) (refl, tt) refl refl

decode-payment_created_payload_example :
    decode_payment_created (payment_created_payload ascii keyed_payment)
    ≡ ok (record {
      schema_version = pos 1;
      payment_id = "p1";
      amount_cents = pos 1250;
      currency = "USD";
    })
decode-payment_created_payload_example = decode-payment_created_payload ascii keyed_payment refl

create_once_ok_example :
    CreatedOnce ascii keyed_payment keyed_payments
      (payment_of_row keyed_row, false)
      (create ascii keyed_payment (world keyed_payments (success ∷ []))).1.db
unfolding create transaction idempotent_body after_insert query_payment statement
    insert_idempotent_query is replay_existing select_by_key_query
create_once_ok_example =
    create_once_ok ascii keyed_payment (world keyed_payments (success ∷ [])) (refl, tt) refl refl

abbrev decided : Payment
decided = record (payment_of_row keyed_row) { status = "failed"; updated_at = 7 }

update_status_status_example : decided.status ≡ to_lower ascii (trim_space ascii " failed ")
unfolding update_status to_lower trim_space Repository.get_by_id query_payment statement
    select_by_id_query Repository.update_status transaction update_body update_status_query
    publish_status_changed insert_outbox_event new_uuid insert_outbox_query
update_status_status_example =
    update_status_status ascii "p0" (record { status = " failed " }) (world keyed_payments [])
      {answer = decided} refl
