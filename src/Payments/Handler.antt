-- ===== src/Payments/Handler.antt =====
-- services/payment-service/internal/handler/payment_handler.go and json.go, and the middleware that
-- cmd/api/main.go puts before the handlers.
pub mod Created
pub mod ClientErrors
pub mod Updated
use finflow.Base.{String, Bool, true, false, not, List, [], ◌∷◌, if◌then◌else◌}
use finflow.Base.Int.{ℤ, pos}
use finflow.Go.Environment.{Environment}
use finflow.Go.Errors.{Error, Sentinel, Result, ok, err, message, is, ◌>>=◌, ◌>>◌}
use finflow.Go.Json.{Document, object, malformed, text_field, number_field, only_fields}
use finflow.Postgres.{World, Action}
use finflow.Http.{
  Headers, Request, Response, Reply, payload, Handler, Decoded, decoded, too_large, get, set,
  write_json, write_request_error, decode_body,
}
use finflow.Http.Security.{security_headers, max_body_bytes, internal_service_token}
use finflow.Payments.Model.{Payment, CreatePaymentRequest, UpdatePaymentStatusRequest}
use finflow.Payments.Repository.{PaymentRepository}
use finflow.Payments.Service.{CreatePaymentResult}
use finflow.Payments.Service as Service

-- The JSON fields of the two requests.
unfoldable pub decode_create : Document → Result CreatePaymentRequest
unfolding only_fields text_field number_field
decode_create (malformed cause) = err (message cause)
decode_create (object members) = do
  known ←
      only_fields ("amount_cents" ∷ "currency" ∷ "description" ∷ "external_reference" ∷ []) members
  amount ← number_field "amount_cents" (pos 0) members
  currency ← text_field "currency" "" members
  description ← text_field "description" "" members
  reference ← text_field "external_reference" "" members
  ok (record {
    amount_cents = amount;
    currency = currency;
    description = description;
    external_reference = reference;
  })

unfoldable pub decode_status : Document → Result UpdatePaymentStatusRequest
unfolding only_fields text_field
decode_status (malformed cause) = err (message cause)
decode_status (object members) = do
  known ← only_fields ("status" ∷ []) members
  status ← text_field "status" "" members
  ok (record { status = status })

module _ (headers : Headers) (r : Request) where
  -- The answers to an error of `Create`.
  unfoldable pub create_failed : Error → Response Payment
  create_failed e =
      if is e Sentinel.validation
      then write_request_error headers r 400 "invalid payment request"
      else if is e Sentinel.idempotency_conflict
      then write_request_error headers r 409 "idempotency key reused with different request"
      else write_request_error headers r 500 "could not create payment"

  -- To an error of `GetByID`.
  unfoldable pub get_failed : Error → Response Payment
  get_failed e =
      if is e Sentinel.validation
      then write_request_error headers r 400 "invalid payment id"
      else if is e Sentinel.payment_not_found
      then write_request_error headers r 404 "payment not found"
      else write_request_error headers r 500 "could not get payment"

  -- To an error of `UpdateStatus`.
  unfoldable pub update_failed : Error → Response Payment
  update_failed e =
      if is e Sentinel.validation
      then write_request_error headers r 400 "invalid payment status request"
      else if is e Sentinel.payment_not_found
      then write_request_error headers r 404 "payment not found"
      else if is e Sentinel.invalid_status_transition
      then write_request_error headers r 409 "invalid payment status transition"
      else write_request_error headers r 500 "could not update payment status"

  -- 201, or 200 with the header of a replay.
  unfoldable pub create_response : Result CreatePaymentResult → Response Payment
  unfolding create_failed
  create_response (err e) = create_failed e
  create_response (ok result) =
      if not result.created
      then write_json (set "X-Idempotent-Replay" "true" headers) 200 (payload result.payment)
      else write_json headers 201 (payload result.payment)

  unfoldable pub get_response : Result Payment → Response Payment
  unfolding get_failed
  get_response (err e) = get_failed e
  get_response (ok payment) = write_json headers 200 (payload payment)

  unfoldable pub update_response : Result Payment → Response Payment
  unfolding update_failed
  update_response (err e) = update_failed e
  update_response (ok payment) = write_json headers 200 (payload payment)

-- Where the body decodes, the call of the service; the answer to any other body changes nothing.
abbrev pub with_body :
    {A W : Type 0}
    → Decoded A
    → Headers
    → Request
    → (A → W → Response Payment × W)
    → W
    → Response Payment × W
with_body (decoded a) headers r call w = call a w
with_body Decoded.too_large headers r call w =
    (write_request_error headers r 413 "request body too large", w)
with_body Decoded.malformed headers r call w =
    (write_request_error headers r 400 "invalid JSON request body", w)

-- `RegisterRoutes`
pub data Endpoint : Type 0 where
  create_endpoint get_endpoint update_status_endpoint : Endpoint

module _ (env : Environment) {T : Type 0} (repository : PaymentRepository T) where
  unfoldable pub create_payment : Handler (World T) Payment
  unfolding decode_body decode_create create_response
  create_payment headers r = with_body (decode_body decode_create r) headers r (λ request w.
      let (result, w') =
        Service.create env repository request (get "Idempotency-Key" r.headers) w in
      (create_response headers r result, w'))

  unfoldable pub get_payment : Handler (World T) Payment
  unfolding get_response
  get_payment headers r w =
      let (result, w') = Service.get_by_id env repository (r.url_param "id") w in
      (get_response headers r result, w')

  unfoldable pub update_payment_status : Handler (World T) Payment
  unfolding decode_body decode_status update_response
  update_payment_status headers r = with_body (decode_body decode_status r) headers r (λ request w.
      let (result, w') = Service.update_status env repository (r.url_param "id") request w in
      (update_response headers r result, w'))

  unfoldable pub payment_endpoint : Endpoint → Handler (World T) Payment
  unfolding create_payment get_payment update_payment_status
  payment_endpoint Endpoint.create_endpoint = create_payment
  payment_endpoint Endpoint.get_endpoint = get_payment
  payment_endpoint Endpoint.update_status_endpoint = update_payment_status

  -- A route of the API with its middleware.
  unfoldable pub payment_api : String → ℤ → Endpoint → Handler (World T) Payment
  unfolding security_headers internal_service_token max_body_bytes payment_endpoint
  payment_api token limit endpoint =
      security_headers
        (internal_service_token env token (max_body_bytes limit (payment_endpoint endpoint)))

-- The patterns that `RegisterRoutes` adds below /api/v1.
abbrev pub payment_patterns : List String
payment_patterns =
    "/api/v1/payments" ∷ "/api/v1/payments/{id}" ∷ "/api/v1/payments/{id}/status" ∷ []
