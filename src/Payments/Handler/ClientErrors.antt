-- ===== src/Payments/Handler/ClientErrors.antt =====
-- The errors that payment_handler.go answers with a status below 500: `UpdateStatus` has changed
-- nothing where it returns one.
use finflow.Base.{
  ◌≡◌, refl, sym, ap, ◌∙◌, ℕ, String, Bool, Option, true, ◌||◌, inl, inr, Bool-cases, arith, str_eq,
}
use finflow.Go.Environment.{Environment}
use finflow.Go.Errors.{Error, Sentinel, wrap, is, Result, ok, err}
use finflow.Go.Strings.{trim_space, to_lower}
use finflow.Postgres.{World, pure, lift, statement, ◌>>=◌, new_uuid}
use finflow.Postgres.Atomic.{bind_cases}
use finflow.Postgres.Known.{AllDriver, Leaves, statement-Leaves, bind-Leaves, known_transaction}
use finflow.Payments.Model.{PaymentStatus, Payment, UpdatePaymentStatusRequest}
use finflow.Payments.Tables.{
  PaymentDb, PaymentRow, scan_payment, select_by_id_query, update_status_query, insert_outbox_query,
}
use finflow.Payments.Event.{new_payment_status_changed}
use finflow.Payments.Repository.{
  query_payment, annotate, insert_outbox_event, publish_status_changed, update_body,
  postgres_payments,
}
use finflow.Payments.Repository as Repository
use finflow.Payments.Repository.Update.{get_by_id_db}
use finflow.Payments.Service.{unwrapped, mapped, is_known_status, can_transition, change_status}
use finflow.Payments.Service as Service

-- The errors that the handler answers with a status below 500.
abbrev pub is_client_error : Error → Bool
is_client_error e =
    is e Sentinel.validation
    || is e Sentinel.payment_not_found
    || is e Sentinel.invalid_status_transition

sees_through : (text : String) (e : Error) → is_client_error (wrap text e) ≡ is_client_error e
unfolding is
sees_through text e = refl

module _ (env : Environment) where
  query_payment-Leaves :
      (query : ℕ → PaymentDb → Result (Option PaymentRow × PaymentDb))
      → Leaves is_client_error (query_payment query)
  unfolding query_payment
  query_payment-Leaves query =
      bind-Leaves is_client_error (statement (λ e. e) query)
        (λ row. lift {T = PaymentDb} (scan_payment row))
        (statement-Leaves is_client_error (λ e. e) query) (λ row w h. h)

  publish_status_changed-Leaves :
      (previous : PaymentStatus) (payment : Payment)
      → Leaves is_client_error (publish_status_changed env previous payment)
  unfolding publish_status_changed insert_outbox_event new_uuid
  publish_status_changed-Leaves previous payment w h =
      let event = new_payment_status_changed env (new_uuid env w).0 previous payment in
      statement-Leaves is_client_error (wrap "insert outbox event") (insert_outbox_query env event)
        (new_uuid env w).1 h

  update_body-Leaves :
      (id : String) (previous status : PaymentStatus)
      → Leaves is_client_error (update_body env id previous status)
  unfolding update_body
  update_body-Leaves id previous status =
      let query = query_payment (update_status_query env id status previous) in
      let answered : Payment → Payment × String = λ p. (p, "commit status update transaction") in
      bind-Leaves is_client_error (annotate "update payment status" query)
        (λ p. publish_status_changed env previous p >>= λ sent. pure {T = PaymentDb} (answered p))
        (query_payment-Leaves (update_status_query env id status previous))
        (λ p.
          bind-Leaves is_client_error (publish_status_changed env previous p)
            (λ sent. pure {T = PaymentDb} (answered p)) (publish_status_changed-Leaves previous p)
            (λ sent w h. h))

  -- The repository's error under the service's.
  unwrapped_known :
      (r : Result Payment) {e : Error}
      → unwrapped Sentinel.payment_not_found r ≡ err e
      → is_client_error e ≡ true
      → (cause : Error) × (r ≡ err cause) × (is_client_error cause ≡ true)
  unwrapped_known (ok p) h k = absurd cc
  unwrapped_known (err cause) h k = elim (Bool-cases (is cause Sentinel.payment_not_found)) [
    | inl missing ↦ (cause, refl, ground arith)
    | inr other ↦ (cause, refl, ground arith)
  ]

  change_status_known :
      (id : String) (status : PaymentStatus) (current : Payment) (w : World PaymentDb) {e : Error}
      → AllDriver is_client_error w.schedule
      → (change_status env (postgres_payments env) id status current w).0 ≡ err e
      → is_client_error e ≡ true
      → (change_status env (postgres_payments env) id status current w).1.db ≡ w.db
  unfolding change_status Repository.update_status
  change_status_known id status current w d h k = elim (Bool-cases (str_eq current.status status)) [
    | inl same ↦ rw same refl
    | inr differs ↦ elim (Bool-cases (can_transition current.status status)) [
      | inr forbidden ↦ rw (differs, forbidden) refl
      | inl allowed ↦
          let (cause, failed, known) =
            unwrapped_known (Repository.update_status env id current.status status w).0
              (rw (differs, allowed) at h) k in
          rw (differs, allowed)
            (known_transaction is_client_error sees_through "begin status update transaction"
              (update_body env id current.status status) w
              (update_body-Leaves id current.status status) d failed known)
    ]
  ]

  -- An error of the service that is answered with a status below 500 has changed nothing.
  pub update_status_known :
      (id : String) (request : UpdatePaymentStatusRequest) (w : World PaymentDb) {e : Error}
      → AllDriver is_client_error w.schedule
      → (Service.update_status env (postgres_payments env) id request w).0 ≡ err e
      → is_client_error e ≡ true
      → (Service.update_status env (postgres_payments env) id request w).1.db ≡ w.db
  unfolding Service.update_status Repository.get_by_id
  update_status_known id_text request w d h k =
      let id = trim_space env id_text in
      let status = to_lower env (trim_space env request.status) in
      elim (Bool-cases (env.parses id)) [
        | inr refused ↦ rw refused refl
        | inl parsed ↦ elim (Bool-cases (is_known_status status)) [
          | inr unknown ↦ rw (parsed, unknown) refl
          | inl known ↦
              rw (parsed, known)
                (let read =
                    mapped env (postgres_payments env) Sentinel.payment_not_found
                      (Repository.get_by_id env id) in
                  let change = change_status env (postgres_payments env) id status in
                  let unread = get_by_id_db env id w in
                  elim (bind_cases read change w) [
                    | inl (e', _, same) ↦ ap (λ q. q.1.db) same ∙ unread
                    | inr (current, _, same) ↦
                        ap (λ q. q.1.db) same
                        ∙ change_status_known id status current (read w).1
                            (query_payment-Leaves (select_by_id_query env id) w d)
                            (sym (ap (λ q. q.0) same) ∙ rw (parsed, known) at h) k
                        ∙ unread
                  ])
        ]
      ]
