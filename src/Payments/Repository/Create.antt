-- ===== src/Payments/Repository/Create.antt =====
-- `PostgresPaymentRepository.Create`: its outcomes with and without an idempotency key.
use finflow.Base.{◌≡◌, String, Bool, true, false, any, arith, ◌⊎◌, inl, inr, Bool-cases}
use finflow.Go.Environment.{Environment}
use finflow.Go.Errors.{ok}
use finflow.Go.Strings.{is_empty}
use finflow.Postgres.{World, after_begin}
use finflow.Postgres.Atomic.{transaction_ok, transaction_db}
use finflow.Payments.Model.{Payment}
use finflow.Payments.Tables.{PaymentDb, has_key, insert_idempotent_query}
use finflow.Payments.Repository.{query_payment, idempotent_body, create}
use finflow.Payments.Repository.Writes.{Inserted, query_payment_ok, insert_with_outbox_db}
use finflow.Payments.Repository.NotFound.{
  AllForeign, other-foreign, query_payment-NotFound, insert_idempotent_none, insert_idempotent_some,
}
use finflow.Payments.Repository.Idempotent.{CreatedOnce, after_insert_ok}

module _ (env : Environment) where
  idempotent_body_ok :
      (payment : Payment) (w : World PaymentDb) {answer : Payment × Bool} {text : String}
      → AllForeign w.schedule
      → (idempotent_body env payment w).0 ≡ ok (answer, text)
      → CreatedOnce env payment w.db answer (idempotent_body env payment w).1.db
  unfolding idempotent_body
  idempotent_body_ok payment w foreign h =
      let insert = query_payment (insert_idempotent_query env payment) in
      after_insert_ok env payment (insert w).0 w.db (insert w).1
        (λ p returned.
          let (row, wrote, e) = query_payment_ok (insert_idempotent_query env payment) w returned in
          let (absent, added) = insert_idempotent_some env payment w.clock w.db wrote in
          (row, e, absent, added))
        (λ e returned missing.
          elim (query_payment-NotFound (insert_idempotent_query env payment) w foreign returned
            missing) [
              | inl same ↦ same
              | inr conflict ↦
                  insert_idempotent_none env payment w.clock w.db (insert w).1.db conflict
            ])
        h

  -- `Create` changes nothing, or adds one payment together with the event of its creation, where the
  -- driver's errors are its own.
  pub create_db :
      (payment : Payment) (w : World PaymentDb)
      → AllForeign w.schedule
      → let db' = (create env payment w).1.db in (db' ≡ w.db) ⊎ Inserted env payment w.db db'
  unfolding create
  create_db payment w foreign = elim (Bool-cases (is_empty payment.idempotency_key)) [
    | inl empty ↦ rw empty (insert_with_outbox_db env payment w)
    | inr keyed ↦
        rw keyed
          (elim (transaction_db "begin idempotent create transaction" (idempotent_body env payment)
            w) [
              | inl same ↦ inl same
              | inr (answer, (text, returned, kept)) ↦
                  rw (← kept)
                    (elim (idempotent_body_ok payment (after_begin w)
                      (other-foreign w.schedule foreign) returned) [
                        | inl (_, same) ↦ inl same
                        | inr (_, _, inserted) ↦ inr inserted
                      ])
            ])
  ]

  -- Create with an idempotency key that a payment holds already leaves the tables as they are,
  -- under any failures of the driver other than the package's own ErrPaymentNotFound.
  pub create_again_db :
      (payment : Payment) (w : World PaymentDb)
      → AllForeign w.schedule
      → is_empty payment.idempotency_key ≡ false
      → any (has_key payment.idempotency_key) w.db.payments ≡ true
      → (create env payment w).1.db ≡ w.db
  unfolding create
  create_again_db payment w foreign keyed held =
      rw keyed
        (elim (transaction_db "begin idempotent create transaction" (idempotent_body env payment)
          w) [
            | inl same ↦ same
            | inr (answer, (text, returned, kept)) ↦
                rw (← kept)
                  (elim (idempotent_body_ok payment (after_begin w)
                    (other-foreign w.schedule foreign) returned) [
                      | inl (_, same) ↦ same
                      | inr (_, absent, _) ↦ absurd (ground arith)
                    ])
          ])

  -- An answer of Create with an idempotency key, under any failures of the driver other than the
  -- package's own ErrPaymentNotFound, is the payment that held the key, made from a request of the
  -- same hash and marked as not created, with the tables unchanged; or it is marked as created, no
  -- payment held the key, and one payment and its event were added.
  pub create_once_ok :
      (payment : Payment) (w : World PaymentDb) {answer : Payment × Bool}
      → AllForeign w.schedule
      → is_empty payment.idempotency_key ≡ false
      → (create env payment w).0 ≡ ok answer
      → CreatedOnce env payment w.db answer (create env payment w).1.db
  unfolding create
  create_once_ok payment w foreign keyed h = rw keyed (
      let (text, returned, kept) =
        transaction_ok "begin idempotent create transaction" (idempotent_body env payment) w
          (rw keyed at h) in
      rw (← kept)
        (idempotent_body_ok payment (after_begin w) (other-foreign w.schedule foreign) returned))
