-- ===== src/Payments/Handler/Created.antt =====
-- What `POST /api/v1/payments` of payment_handler.go answers, and what it has done to the tables.
use finflow.Base.{
  ◌≡◌, refl, ap, ◌∙◌, ◌≤◌, ◌<◌, String, Bool, true, false, none, ◌⊎◌, inl, inr, Bool-cases, arith,
}
use finflow.Go.Environment.{Environment}
use finflow.Go.Errors.{Error, Sentinel, ok, is, Result-cases}
use finflow.Go.Strings.{is_empty, trim_space}
use finflow.Postgres.{World, Action, pure, lift, ◌>>=◌, after_begin, new_uuid}
use finflow.Postgres.Atomic.{bind_then, transaction_ok}
use finflow.Http.{Headers, Request, Response, Decoded, decoded, get, set, write_json, decode_body}
use finflow.Http.Fields.{get-set}
use finflow.Payments.Model.{Payment, CreatePaymentRequest, pending}
use finflow.Payments.Tables.{PaymentDb, insert_row_query}
use finflow.Payments.Repository.{
  query_payment, publish_created, insert_body, insert_with_outbox, annotate, postgres_payments,
}
use finflow.Payments.Repository as Repository
use finflow.Payments.Repository.Writes.{Inserted, insert_body_ok}
use finflow.Payments.Repository.NotFound.{AllForeign}
use finflow.Payments.Repository.Create.{create_once_ok}
use finflow.Payments.Service.{
  CreatePaymentResult, unwrapped, normalize_create, new_payment, validate_create_payment,
  create_valid,
}
use finflow.Payments.Service as Service
use finflow.Payments.Answer.{unwrapped_ok}
use finflow.Payments.Lifecycle.{create_inserts}
use finflow.Payments.Handler.{
  decode_create, create_failed, create_response, with_body, create_payment,
}

module _ (env : Environment) where
  -- An answer that tells whether a payment was inserted.
  abbrev Told : Payment → Bool → PaymentDb → PaymentDb → Type 0
  Told payment created db db' =
      ((created ≡ false) × (db' ≡ db)) ⊎ ((created ≡ true) × Inserted env payment db db')

  insert_body_created :
      (payment : Payment) (w : World PaymentDb) {answer : Payment × Bool} {text : String}
      → (insert_body env payment w).0 ≡ ok (answer, text)
      → answer.1 ≡ true
  unfolding insert_body
  insert_body_created payment w h =
      let insert =
        annotate "insert payment" (query_payment (insert_row_query env payment none none)) in
      let answered : Payment → (Payment × Bool) × String =
        λ p. ((p, true), "commit create transaction") in
      let next : Payment → Action PaymentDb ((Payment × Bool) × String) =
        λ p. publish_created env p >>= λ sent. pure {T = PaymentDb} (answered p) in
      let (p, inserted, same, h1) = bind_then insert next w h in
      let (sent, done, same', h2) =
        bind_then (publish_created env p) (λ sent. pure {T = PaymentDb} (answered p)) (insert w).1
          h1 in
      ground arith

  create_tells :
      (payment : Payment) (w : World PaymentDb) {answer : Payment × Bool}
      → AllForeign w.schedule
      → (Repository.create env payment w).0 ≡ ok answer
      → Told payment answer.1 w.db (Repository.create env payment w).1.db
  unfolding Repository.create insert_with_outbox
  create_tells payment w foreign h = elim (Bool-cases (is_empty payment.idempotency_key)) [
    | inr keyed ↦ elim (create_once_ok env payment w foreign keyed h) [
      | inl (replayed, same) ↦ inl (ap (λ (a : Payment × Bool). a.1) replayed.3, same)
      | inr (created, _, inserted) ↦ inr (created, inserted)
    ]
    | inl empty ↦ rw empty (
        let (text, returned, kept) =
          transaction_ok "begin create transaction" (insert_body env payment) w (rw empty at h) in
        inr (
          insert_body_created payment (after_begin w) returned,
          rw (← kept) (insert_body_ok env payment (after_begin w) returned),
        ))
  ]

  -- The service's answer tells the same.
  abbrev pub Recorded : PaymentDb → PaymentDb → Type 0
  Recorded db db' = (payment : Payment) × (payment.status ≡ pending) × Inserted env payment db db'

  service_tells :
      (raw : CreatePaymentRequest) (key_text : String) (w : World PaymentDb)
      {result : CreatePaymentResult}
      → AllForeign w.schedule
      → (Service.create env (postgres_payments env) raw key_text w).0 ≡ ok result
      → let db' = (Service.create env (postgres_payments env) raw key_text w).1.db in
        ((result.created ≡ false) × (db' ≡ w.db)) ⊎ ((result.created ≡ true) × Recorded w.db db')
  unfolding Service.create new_uuid
  service_tells raw key_text w {result} foreign h =
      let request = normalize_create env raw in
      let key = trim_space env key_text in
      let check : Action PaymentDb (Unit {0}) = lift (validate_create_payment env request key) in
      let answered : Payment × Bool → Action PaymentDb CreatePaymentResult =
        λ p. pure {T = PaymentDb} (record { payment = p.0; created = p.1 }) in
      let next : Unit {0} → Action PaymentDb CreatePaymentResult =
        λ valid. create_valid env (postgres_payments env) request key >>= answered in
      let (valid, checked, same, h1) = bind_then check next w h in
      let (answer, made, same', h2) =
        bind_then (create_valid env (postgres_payments env) request key) answered w h1 in
      let payment = new_payment env (new_uuid env w).0 request key in
      let told =
        create_tells payment (new_uuid env w).1 foreign
          (unwrapped_ok Sentinel.idempotency_conflict _ made) in
      let kept : result.created ≡ answer.1 = ground arith in
      rw (same ∙ same') (elim told [
        | inl (old, unchanged) ↦ inl (kept ∙ old, unchanged)
        | inr (new, inserted) ↦ inr (kept ∙ new, (payment, refl, inserted))
      ])

  -- What the answer's status says of the tables.
  abbrev pub CreateAnswer : Response Payment → PaymentDb → PaymentDb → Type 0
  CreateAnswer answer db db' =
      ((answer.status ≡ 201) × Recorded db db')
      ⊎ (((answer.status ≡ 200) × (get "X-Idempotent-Replay" answer.headers ≡ "true") × (db' ≡ db))
          ⊎ ((400 ≤ answer.status) × (answer.status < 600) × ((db' ≡ db) ⊎ Recorded db db')))

  replay_header :
      (headers : Headers)
      → get "X-Idempotent-Replay"
          (set "Content-Type" "application/json" (set "X-Idempotent-Replay" "true" headers))
        ≡ "true"
  replay_header headers =
      get-set "X-Idempotent-Replay" "Content-Type" "application/json"
        (set "X-Idempotent-Replay" "true" headers)
      ∙ get-set "X-Idempotent-Replay" "X-Idempotent-Replay" "true" headers

  create_failed-status :
      (headers : Headers) (r : Request) (e : Error)
      → (400 ≤ (create_failed headers r e).status) × ((create_failed headers r e).status < 600)
  unfolding create_failed write_json
  create_failed-status headers r e = elim (Bool-cases (is e Sentinel.validation)) [
    | inl invalid ↦ rw invalid (omega arith, omega arith)
    | inr valid ↦ elim (Bool-cases (is e Sentinel.idempotency_conflict)) [
      | inl conflict ↦ rw (valid, conflict) (omega arith, omega arith)
      | inr other ↦ rw (valid, other) (omega arith, omega arith)
    ]
  ]

  create_response-Answer :
      (headers : Headers) (r : Request) (raw : CreatePaymentRequest) (key : String)
      (w : World PaymentDb)
      → AllForeign w.schedule
      → let (result, w') = Service.create env (postgres_payments env) raw key w in
        CreateAnswer (create_response headers r result) w.db w'.db
  unfolding create_response write_json
  create_response-Answer headers r raw key w foreign =
      elim (Result-cases (Service.create env (postgres_payments env) raw key w).0) [
        | inl (result, h) ↦ elim (service_tells raw key w foreign h) [
          | inl (old, same) ↦ rw (h, old) (inr (inl (refl, replay_header headers, same)))
          | inr (new, recorded) ↦ rw (h, new) (inl (refl, recorded))
        ]
        | inr (e, h) ↦ rw h (
            let (low, high) = create_failed-status headers r e in
            inr (inr (low, high, create_inserts env raw key w foreign)))
      ]

  -- Under any failures of the driver other than the package's own ErrPaymentNotFound, a 201 of POST
  -- /payments means that a pending payment and its event were added, and a 200, which carries
  -- X-Idempotent-Replay, that the tables are as they were; any other answer is a 4xx or a 5xx.
  pub create_payment-Answer :
      (headers : Headers) (r : Request) (w : World PaymentDb)
      → AllForeign w.schedule
      → let (answer, w') = create_payment env (postgres_payments env) headers r w in
        CreateAnswer answer w.db w'.db
  unfolding create_payment write_json
  create_payment-Answer headers r w foreign = body-Answer (decode_body decode_create r)
    where
      call : CreatePaymentRequest → World PaymentDb → Response Payment × World PaymentDb
      call request w =
          let (result, w') =
            Service.create env (postgres_payments env) request (get "Idempotency-Key" r.headers)
              w in
          (create_response headers r result, w')

      body-Answer :
          (d : Decoded CreatePaymentRequest)
          → let (answer, w') = with_body d headers r call w in CreateAnswer answer w.db w'.db
      body-Answer (decoded request) =
          create_response-Answer headers r request (get "Idempotency-Key" r.headers) w foreign
      body-Answer Decoded.too_large = inr (inr (omega arith, omega arith, inl refl))
      body-Answer Decoded.malformed = inr (inr (omega arith, omega arith, inl refl))
