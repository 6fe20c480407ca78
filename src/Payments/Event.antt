-- ===== src/Payments/Event.antt =====
-- services/payment-service/internal/event/payment_event.go: the events of the outbox and their payloads.
use finflow.Base.{ℕ, String, Option, none, List, [], ◌∷◌, ◌++◌, if◌then◌else◌}
use finflow.Base.Int.{pos}
use finflow.Go.Environment.{Environment}
use finflow.Go.Json.{Member, Document, object, number, text, time}
use finflow.Go.Strings.{is_empty}
use finflow.Payments.Model.{PaymentStatus, Payment}

abbrev pub aggregate_type_payment : String
aggregate_type_payment = "payment"

abbrev pub payment_created_event : String
payment_created_event = "payment.created"

abbrev pub payment_status_changed_event : String
payment_status_changed_event = "payment.status_changed"

-- The constants `OutboxStatus...`.
pub data OutboxStatus : Type 0 where
  pending publishing published failed : OutboxStatus

pub record OutboxEvent : Type 0 where
  pub id : String
  pub aggregate_type : String
  pub aggregate_id : String
  pub event_type : String
  pub payload : Document
  pub status : OutboxStatus
  pub attempts : ℕ
  pub last_error : Option String
  pub created_at : ℕ
  pub published_at : Option ℕ

-- A field with the option `omitempty`.
abbrev pub unless_empty : String → String → List (String × Member)
unless_empty key value = if is_empty value then [] else (key, text value) ∷ []

module _ (env : Environment) where
  -- `json.Marshal` of a `PaymentCreatedPayload`.
  unfoldable pub payment_created_payload : Payment → Document
  payment_created_payload payment = object (
      ("schema_version", number (pos 1))
      ∷ ("payment_id", text payment.id)
      ∷ ("amount_cents", number payment.amount_cents)
      ∷ ("currency", text payment.currency)
      ∷ ("status", text payment.status)
      ∷ (unless_empty "external_reference" payment.external_reference
          ++ (("created_at", time (env.format_time payment.created_at)) ∷ [])))

  -- `json.Marshal` of a `PaymentStatusChangedPayload`.
  unfoldable pub payment_status_changed_payload : PaymentStatus → Payment → Document
  payment_status_changed_payload previous_status payment = object (
      ("schema_version", number (pos 1))
      ∷ ("payment_id", text payment.id)
      ∷ ("previous_status", text previous_status)
      ∷ ("new_status", text payment.status)
      ∷ ("changed_at", time (env.format_time payment.updated_at))
      ∷ [])

  -- `newPaymentEvent`, with the id that `uuid.NewString` gives; the database sets the time.
  abbrev pub new_payment_event : String → String → String → Document → OutboxEvent
  new_payment_event id payment_id event_type payload = record {
    id = id;
    aggregate_type = aggregate_type_payment;
    aggregate_id = payment_id;
    event_type = event_type;
    payload = payload;
    status = pending;
    attempts = 0;
    last_error = none;
    created_at = 0;
    published_at = none;
  }

  unfoldable pub new_payment_created : String → Payment → OutboxEvent
  unfolding payment_created_payload
  new_payment_created id payment =
      new_payment_event id payment.id payment_created_event (payment_created_payload payment)

  unfoldable pub new_payment_status_changed : String → PaymentStatus → Payment → OutboxEvent
  unfolding payment_status_changed_payload
  new_payment_status_changed id previous_status payment =
      new_payment_event id payment.id payment_status_changed_event
        (payment_status_changed_payload previous_status payment)
