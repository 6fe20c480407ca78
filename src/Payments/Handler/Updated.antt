-- ===== src/Payments/Handler/Updated.antt =====
-- What `PATCH /api/v1/payments/{id}/status` of payment_handler.go answers, and what it has done to
-- the tables.
use finflow.Base.{◌≡◌, refl, ◌≤◌, ◌<◌, String, true, false, ◌⊎◌, inl, inr, Bool-cases, arith}
use finflow.Go.Environment.{Environment}
use finflow.Go.Errors.{Error, Sentinel, is, Result-cases}
use finflow.Postgres.{World}
use finflow.Postgres.Known.{AllDriver}
use finflow.Http.{Headers, Request, Response, Decoded, decoded, write_json, decode_body}
use finflow.Payments.Model.{PaymentStatus, Payment, UpdatePaymentStatusRequest, pending}
use finflow.Payments.Tables.{PaymentDb}
use finflow.Payments.Repository.{postgres_payments}
use finflow.Payments.Repository.Update.{Changed}
use finflow.Payments.Service as Service
use finflow.Payments.Lifecycle.{IsFinal, update_status_changes}
use finflow.Payments.Handler.ClientErrors.{is_client_error, update_status_known}
use finflow.Payments.Handler.{
  decode_status, update_failed, update_response, with_body, update_payment_status,
}

module _ (env : Environment) where
  -- Nothing, or a pending payment made succeeded or failed and the event of that.
  abbrev pub Moved : PaymentDb → PaymentDb → Type 0
  Moved db db' =
      (db' ≡ db)
      ⊎ ((id : String) × (status : PaymentStatus) × IsFinal status
          × Changed env id pending status db db')

  -- What the answer's status says of the tables.
  abbrev pub UpdateAnswer : Response Payment → PaymentDb → PaymentDb → Type 0
  UpdateAnswer answer db db' =
      ((answer.status ≡ 200) × Moved db db')
      ⊎ (((400 ≤ answer.status) × (answer.status < 500) × (db' ≡ db))
          ⊎ ((answer.status ≡ 500) × Moved db db'))

  update_failed-client :
      (headers : Headers) (r : Request) (e : Error)
      → is_client_error e ≡ true
      → (400 ≤ (update_failed headers r e).status) × ((update_failed headers r e).status < 500)
  unfolding update_failed write_json
  update_failed-client headers r e known = elim (Bool-cases (is e Sentinel.validation)) [
    | inl invalid ↦ rw invalid (omega arith, omega arith)
    | inr valid ↦ elim (Bool-cases (is e Sentinel.payment_not_found)) [
      | inl missing ↦ rw (valid, missing) (omega arith, omega arith)
      | inr found ↦ elim (Bool-cases (is e Sentinel.invalid_status_transition)) [
        | inl forbidden ↦ rw (valid, found, forbidden) (omega arith, omega arith)
        | inr other ↦ absurd (ground arith)
      ]
    ]
  ]

  update_failed-other :
      (headers : Headers) (r : Request) (e : Error)
      → is_client_error e ≡ false
      → (update_failed headers r e).status ≡ 500
  unfolding update_failed write_json
  update_failed-other headers r e unknown =
      let valid : is e Sentinel.validation ≡ false = ground arith in
      let found : is e Sentinel.payment_not_found ≡ false = ground arith in
      let allowed : is e Sentinel.invalid_status_transition ≡ false = ground arith in
      rw (valid, found, allowed) refl

  update_response-Answer :
      (headers : Headers) (r : Request) (id : String) (request : UpdatePaymentStatusRequest)
      (w : World PaymentDb)
      → AllDriver is_client_error w.schedule
      → let (result, w') = Service.update_status env (postgres_payments env) id request w in
        UpdateAnswer (update_response headers r result) w.db w'.db
  unfolding update_response write_json
  update_response-Answer headers r id request w d =
      let moved = update_status_changes env id request w in
      elim (Result-cases (Service.update_status env (postgres_payments env) id request w).0) [
        | inl (payment, h) ↦ rw h (inl (refl, moved))
        | inr (e, h) ↦ elim (Bool-cases (is_client_error e)) [
          | inl known ↦
              let (low, high) = update_failed-client headers r e known in
              rw h (inr (inl (low, high, update_status_known env id request w d h known)))
          | inr unknown ↦ rw h (inr (inr (update_failed-other headers r e unknown, moved)))
        ]
      ]

  -- Under any failures of the driver other than the package's own errors, PATCH
  -- /payments/{id}/status answers 200, with the tables as they were or one pending payment made
  -- succeeded or failed and the event of that added; or a 4xx, with the tables as they were; or
  -- 500, after a failure that may have hidden such a change.
  pub update_payment_status-Answer :
      (headers : Headers) (r : Request) (w : World PaymentDb)
      → AllDriver is_client_error w.schedule
      → let (answer, w') = update_payment_status env (postgres_payments env) headers r w in
        UpdateAnswer answer w.db w'.db
  unfolding update_payment_status write_json
  update_payment_status-Answer headers r w d = body-Answer (decode_body decode_status r)
    where
      call : UpdatePaymentStatusRequest → World PaymentDb → Response Payment × World PaymentDb
      call request w =
          let (result, w') =
            Service.update_status env (postgres_payments env) (r.url_param "id") request w in
          (update_response headers r result, w')

      body-Answer :
          (b : Decoded UpdatePaymentStatusRequest)
          → let (answer, w') = with_body b headers r call w in UpdateAnswer answer w.db w'.db
      body-Answer (decoded request) =
          update_response-Answer headers r (r.url_param "id") request w d
      body-Answer Decoded.too_large = inr (inl (omega arith, omega arith, refl))
      body-Answer Decoded.malformed = inr (inl (omega arith, omega arith, refl))
