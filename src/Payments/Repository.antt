-- ===== src/Payments/Repository.antt =====
-- services/payment-service/internal/repository/payment_repository.go: the interface
-- `PaymentRepository` and its implementation, with the transactional outbox.
pub mod Update
pub mod Create
pub mod NotFound
pub mod Idempotent
pub mod Writes
use finflow.Base.{
  ℕ, ◌==◌, not, String, Bool, true, false, Option, none, some, if◌then◌else◌, str_eq,
}
use finflow.Go.Environment.{Environment}
use finflow.Go.Errors.{Error, Sentinel, sentinel, wrap, is, Result, ok, err}
use finflow.Go.Strings.{is_empty}
use finflow.Postgres.{World, Action, pure, fail, lift, ◌>>=◌, new_uuid, statement, transaction}
use finflow.Payments.Model.{PaymentStatus, Payment}
use finflow.Payments.Event.{OutboxEvent, new_payment_created, new_payment_status_changed}
use finflow.Payments.Tables.{
  PaymentDb, PaymentRow, scan_payment, insert_row_query, insert_idempotent_query,
  select_by_key_query, select_by_id_query, update_status_query, insert_outbox_query,
}

-- `type PaymentRepository interface`
pub record PaymentRepository (T : Type 0) : Type 0 where
  pub create : Payment → Action T (Payment × Bool)
  pub get_by_id : String → Action T Payment
  pub update_status : String → PaymentStatus → PaymentStatus → Action T Payment

-- An error of `scanPayment`, in the words of its caller.
abbrev pub wrapped {ℓ} : {A : Type ℓ} → String → Result A → Result A
wrapped text (ok a) = ok a
wrapped text (err e) = err (wrap text e)

-- `scanPayment(tx.QueryRow(...))`
unfoldable pub query_payment :
    (ℕ → PaymentDb → Result (Option PaymentRow × PaymentDb)) → Action PaymentDb Payment
unfolding scan_payment
query_payment query = do row ← statement (λ e. e) query; lift (scan_payment row)

-- `fmt.Errorf(text, err)` around an action's error.
abbrev pub annotate {ℓ} : {A : Type ℓ} → String → Action PaymentDb A → Action PaymentDb A
annotate text action w = let (r, w') = action w in (wrapped text r, w')

module _ (env : Environment) where
  unfoldable pub insert_outbox_event : OutboxEvent → Action PaymentDb (Unit {0})
  insert_outbox_event event = statement (wrap "insert outbox event") (insert_outbox_query env event)

  -- `event.NewPaymentCreated` with its new id, and the insertion of the event.
  unfoldable pub publish_created : Payment → Action PaymentDb (Unit {0})
  publish_created payment w =
      let (id, w') = new_uuid env w in insert_outbox_event (new_payment_created env id payment) w'

  unfoldable pub publish_status_changed : PaymentStatus → Payment → Action PaymentDb (Unit {0})
  publish_status_changed previous_status payment w =
      let (id, w') = new_uuid env w in
      insert_outbox_event (new_payment_status_changed env id previous_status payment) w'

  unfoldable pub insert_body : Payment → Action PaymentDb ((Payment × Bool) × String)
  insert_body payment = do
    created ← annotate "insert payment" (query_payment (insert_row_query env payment none none))
    sent ← publish_created created
    pure ((created, true), "commit create transaction")

  unfoldable pub insert_with_outbox : Payment → Action PaymentDb (Payment × Bool)
  insert_with_outbox payment = transaction "begin create transaction" (insert_body payment)

  -- The payment that holds the key already.
  unfoldable pub replay_existing : Payment → Action PaymentDb ((Payment × Bool) × String)
  replay_existing payment = do
    existing ←
        annotate "find idempotent payment"
          (query_payment (select_by_key_query payment.idempotency_key))
    if not (str_eq existing.idempotency_hash payment.idempotency_hash)
        then fail (sentinel Sentinel.idempotency_conflict)
        else pure ((existing, false), "commit idempotent replay transaction")

  -- What follows the insertion: the event, the payment that was there, or the error.
  unfoldable pub after_insert :
      Payment → Result Payment → Action PaymentDb ((Payment × Bool) × String)
  after_insert payment (ok created) = do
    sent ← publish_created created
    pure ((created, true), "commit idempotent create transaction")
  after_insert payment (err e) =
      if is e Sentinel.payment_not_found
      then replay_existing payment
      else fail (wrap "create payment" e)

  unfoldable pub idempotent_body : Payment → Action PaymentDb ((Payment × Bool) × String)
  idempotent_body payment w =
      let (inserted, w') = query_payment (insert_idempotent_query env payment) w in
      after_insert payment inserted w'

  unfoldable pub create : Payment → Action PaymentDb (Payment × Bool)
  create payment =
      if is_empty payment.idempotency_key
      then insert_with_outbox payment
      else transaction "begin idempotent create transaction" (idempotent_body payment)

  unfoldable pub get_by_id : String → Action PaymentDb Payment
  get_by_id id = annotate "get payment by id" (query_payment (select_by_id_query env id))

  unfoldable pub update_body :
      String → PaymentStatus → PaymentStatus → Action PaymentDb (Payment × String)
  update_body id previous_status status = do
    payment ←
        annotate "update payment status"
          (query_payment (update_status_query env id status previous_status))
    sent ← publish_status_changed previous_status payment
    pure (payment, "commit status update transaction")

  unfoldable pub update_status : String → PaymentStatus → PaymentStatus → Action PaymentDb Payment
  update_status id previous_status status =
      transaction "begin status update transaction" (update_body id previous_status status)

  -- `NewPostgresPaymentRepository`
  abbrev pub postgres_payments : PaymentRepository PaymentDb
  postgres_payments = record {
    create = create;
    get_by_id = get_by_id;
    update_status = update_status;
  }
