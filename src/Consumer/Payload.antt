-- ===== src/Consumer/Payload.antt =====
-- `paymentCreatedPayload` of consumer/payment_consumer.go and its decoding.
use finflow.Base.{String}
use finflow.Base.Int.{ℤ, pos}
use finflow.Go.Errors.{message, Result, ok, err, ◌>>=◌}
use finflow.Go.Json.{Document, object, malformed, text_field, number_field}

pub record PaymentCreatedPayload : Type 0 where
  pub schema_version : ℤ
  pub payment_id : String
  pub amount_cents : ℤ
  pub currency : String

-- `json.Unmarshal(value, &payload)`
unfoldable pub decode_payment_created : Document → Result PaymentCreatedPayload
unfolding text_field number_field
decode_payment_created (malformed s) = err (message s)
decode_payment_created (object members) = do
  schema_version ← number_field "schema_version" (pos 0) members
  payment_id ← text_field "payment_id" "" members
  amount_cents ← number_field "amount_cents" (pos 0) members
  currency ← text_field "currency" "" members
  ok (record {
    schema_version = schema_version;
    payment_id = payment_id;
    amount_cents = amount_cents;
    currency = currency;
  })
