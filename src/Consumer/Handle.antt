-- ===== src/Consumer/Handle.antt =====
-- `HandleMessage` and `handlePaymentCreated` of consumer/payment_consumer.go, over the interface
-- `Ledger`. Tracing, metrics and logs are left out.
use finflow.Base.{String, Bool, List, str_eq, if◌then◌else◌}
use finflow.Go.Errors.{message, wrap, permanent, map_error}
use finflow.Go.Json.{Document}
use finflow.Go.Strings.{is_empty}
use finflow.Postgres.{Action, pure, fail, lift, ◌>>=◌}
use finflow.Ledger.Model.{Entry, PaymentMovementRequest}
use finflow.Consumer.Message.{Message, header_value}
use finflow.Consumer.Payload.{PaymentCreatedPayload, decode_payment_created}

abbrev pub payment_created_event : String
payment_created_event = "payment.created"

abbrev pub payment_status_changed_event : String
payment_status_changed_event = "payment.status_changed"

-- `type Ledger interface`
pub record Ledger (T : Type 0) : Type 0 where
  pub record_payment_movement_once :
      String → String → PaymentMovementRequest → Action T (List Entry × Bool)

abbrev pub movement_request : PaymentCreatedPayload → PaymentMovementRequest
movement_request payload = record {
  payment_id = payload.payment_id;
  amount_cents = payload.amount_cents;
  currency = payload.currency;
}

module _ {T : Type 0} (ledger : Ledger T) where
  -- A duplicate and a new event both end without an error.
  unfoldable pub handle_payment_created : String → String → Document → Action T (Unit {0})
  handle_payment_created event_id event_type value = do
    payload ← lift (
        map_error (λ e. permanent (wrap "decode payment.created payload" e))
          (decode_payment_created value))
    answer ← ledger.record_payment_movement_once event_id event_type (movement_request payload)
    pure tt

  unfoldable pub handle_message : Message Document → Action T (Unit {0})
  unfolding header_value
  handle_message m =
      let event_id = header_value m.headers "event_id" in
      let event_type = header_value m.headers "event_type" in
      if is_empty event_id
      then fail (permanent (message "payment event missing event_id header"))
      else if str_eq event_type payment_created_event
      then handle_payment_created event_id event_type m.value
      else if str_eq event_type payment_status_changed_event
      then pure tt
      else pure tt
