-- ===== src/Payments/Contract.antt =====
-- The payload that the payment service writes and the ledger service reads: `json.Marshal` of
-- services/payment-service/internal/event/payment_event.go against the decoding of
-- services/ledger-service/internal/consumer/payment_consumer.go.
use finflow.Base.{◌≡◌, true, inl, inr, Bool-cases}
use finflow.Base.Int.{pos}
use finflow.Go.Environment.{Environment}
use finflow.Go.Errors.{ok}
use finflow.Go.Json.{is_int64}
use finflow.Go.Strings.{is_empty}
use finflow.Payments.Model.{Payment}
use finflow.Payments.Event.{payment_created_payload}
use finflow.Consumer.Payload.{decode_payment_created}

-- From the payload that the payment service writes for a payment whose cents fit an int64, the
-- ledger's consumer reads schema version 1 and the payment's id, cents and currency.
pub decode-payment_created_payload :
    (env : Environment) (payment : Payment)
    → is_int64 payment.amount_cents ≡ true
    → decode_payment_created (payment_created_payload env payment)
      ≡ ok (record {
        schema_version = pos 1;
        payment_id = payment.id;
        amount_cents = payment.amount_cents;
        currency = payment.currency;
      })
unfolding decode_payment_created payment_created_payload
decode-payment_created_payload env payment h =
    elim (Bool-cases (is_empty payment.external_reference)) [
      | inl none_given ↦ rw (none_given, h)
      | inr given ↦ rw (given, h)
    ]
