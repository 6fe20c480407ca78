-- ===== src/Payments/History.antt =====
-- Sequences of requests to the payment service and of batches of its publisher: `Create`, `GetByID`,
-- `UpdateStatus` (payment_service.go) and `PublishBatch` (outbox_publisher.go) over PostgreSQL.
use finflow.Base.{
  ℕ, ◌≡◌, refl, ap, String, false, ◌&&◌, List, [], ◌∷◌, ◌++◌, arith, str_eq, eq_iff, if◌then◌else◌,
  ◌⊎◌, inl, inr, Bool-cases,
}
use finflow.Go.Environment.{Environment}
use finflow.Go.Strings.{trim_space}
use finflow.Postgres.{World}
use finflow.Payments.Model.{
  PaymentStatus, CreatePaymentRequest, UpdatePaymentStatusRequest, pending,
}
use finflow.Payments.Tables.{PaymentDb, PaymentRow, update_row, update_rows}
use finflow.Payments.Repository.{postgres_payments}
use finflow.Payments.Repository.NotFound.{AllForeign}
use finflow.Payments.Repository.Update.{get_by_id_db}
use finflow.Base.Int.{ℤ}
use finflow.Payments.Outbox.{postgres_outbox}
use finflow.Payments.Publisher.{PublisherState, publish_batch}
use finflow.Payments.Publisher.Unchanged.{SameEvents-IsConsistent, publish_batch-SameEvents}
use finflow.Payments.Service as Service
use finflow.Payments.Consistency.{IsConsistent, Inserted-IsConsistent, Changed-IsConsistent}
use finflow.Payments.Lifecycle.{IsFinal, create_inserts, update_status_changes}

-- A call of the service.
pub data Request : Type 0 where
  create : CreatePaymentRequest → String → Request
  get_by_id : String → Request
  update_status : String → UpdatePaymentStatusRequest → Request

module _ (env : Environment) where
  -- The tables that a call leaves behind.
  abbrev pub serve : Request → World PaymentDb → PaymentDb
  serve (Request.create request key) w =
      (Service.create env (postgres_payments env) request key w).1.db
  serve (Request.get_by_id id) w = (Service.get_by_id env (postgres_payments env) id w).1.db
  serve (Request.update_status id request) w =
      (Service.update_status env (postgres_payments env) id request w).1.db

  -- The tables that calls and batches of the publisher reach from empty ones, one after the other, each
  -- with its own clock, ids and failures of the driver and of Kafka.
  pub data Reachable : PaymentDb → Type 0 where
    empty : Reachable (record { payments = []; outbox = [] })
    after :
        (w : World PaymentDb) (r : Request)
        → Reachable w.db
        → AllForeign w.schedule
        → Reachable (serve r w)
    batch :
        (name : String) (batch_size : ℤ) (s : PublisherState PaymentDb)
        → Reachable s.world.db
        → Reachable (publish_batch (postgres_outbox env) name batch_size s).1.world.db

  get_by_id_reads :
      (id : String) (w : World PaymentDb)
      → (Service.get_by_id env (postgres_payments env) id w).1.db ≡ w.db
  unfolding Service.get_by_id
  get_by_id_reads id_text w = elim (Bool-cases (env.parses (trim_space env id_text))) [
    | inl parsed ↦ rw parsed (get_by_id_db env (trim_space env id_text) w)
    | inr refused ↦ rw refused
  ]

  final-pending : (status : PaymentStatus) → IsFinal status → str_eq status pending ≡ false
  final-pending status (inl e) = rw e
  final-pending status (inr e) = rw e

  serve-IsConsistent :
      (w : World PaymentDb) (r : Request)
      → AllForeign w.schedule
      → IsConsistent w.db
      → IsConsistent (serve r w)
  serve-IsConsistent w (Request.create request key) foreign h =
      elim (create_inserts env request key w foreign) [
        | inl same ↦ rw same h
        | inr (payment, waiting, inserted) ↦
            Inserted-IsConsistent payment w.db (serve (Request.create request key) w) waiting
              inserted h
      ]
  serve-IsConsistent w (Request.get_by_id id) foreign h = rw (get_by_id_reads id w) h
  serve-IsConsistent w (Request.update_status id request) foreign h =
      elim (update_status_changes env id request w) [
        | inl same ↦ rw same h
        | inr (id_text, status, is_final, changed) ↦
            Changed-IsConsistent id_text status w.db (serve (Request.update_status id request) w)
              (final-pending status is_final) changed h
      ]

  -- After any calls of Create, GetByID and UpdateStatus and any batches of the outbox publisher,
  -- from empty tables, with any failures of Kafka and any of the driver other than the package's
  -- own ErrPaymentNotFound, an id has at most one payment, one payment.created stands in the outbox
  -- for each payment and one payment.status_changed for each payment that is no longer pending, and
  -- neither for another id.
  pub Reachable-IsConsistent : (db : PaymentDb) → Reachable db → IsConsistent db
  Reachable-IsConsistent db empty = record {
    unique = λ id. omega arith;
    created = λ id. refl;
    changed = λ id. refl;
  }
  Reachable-IsConsistent db (after w r reached foreign) =
      serve-IsConsistent w r foreign (Reachable-IsConsistent w.db reached)
  Reachable-IsConsistent db (batch name batch_size s reached) =
      SameEvents-IsConsistent s.world.db _ (publish_batch-SameEvents env name batch_size s)
        (Reachable-IsConsistent s.world.db reached)

  -- A row is as it was, or was pending and is final now, with the same payment.
  abbrev pub Follows : PaymentRow → PaymentRow → Type 0
  Follows row row' =
      (row' ≡ row)
      ⊎ ((row.status ≡ pending)
          × IsFinal row'.status
          × ((now : ℕ) × (row' ≡ update_row row'.status now row)))

  -- Every row is still there, in its place, and follows the old one.
  abbrev pub Keeps : List PaymentRow → List PaymentRow → Type 0
  Keeps [] rows' = Unit
  Keeps (row ∷ rows) [] = ⊥
  Keeps (row ∷ rows) (row' ∷ rows') = Follows row row' × Keeps rows rows'

  Keeps-more : (rows more : List PaymentRow) → Keeps rows (rows ++ more)
  Keeps-more [] more = tt
  Keeps-more (row ∷ rows) more = (inl refl, Keeps-more rows more)

  Keeps-same : (rows rows' : List PaymentRow) → rows' ≡ rows → Keeps rows rows'
  Keeps-same [] rows' e = tt
  Keeps-same (row ∷ rows) rows' e = rw e (inl refl, Keeps-same rows rows refl)

  Keeps-updated :
      (id : String) (status : PaymentStatus) (now : ℕ) (rows : List PaymentRow)
      → IsFinal status
      → Keeps rows (update_rows id status pending now rows)
  unfolding update_rows
  Keeps-updated id status now [] is_final = tt
  Keeps-updated id status now (row ∷ rows) is_final =
      (first, Keeps-updated id status now rows is_final)
    where
      first :
          Follows row (
            if str_eq row.id id && str_eq row.status pending
            then update_row status now row
            else row)
      first = elim (Bool-cases (str_eq row.id id && str_eq row.status pending)) [
        | inl hit ↦ rw hit (inr (ground (arith, eq_iff row.status pending), is_final, (now, refl)))
        | inr miss ↦ rw miss (inl refl)
      ]

  -- No call of Create, GetByID or UpdateStatus, under any failures of the driver other than the
  -- package's own ErrPaymentNotFound, removes a payment, changes anything of it but its status and
  -- the time of its update, or changes a status other than pending; the new status is succeeded or
  -- failed.
  pub serve-Keeps :
      (w : World PaymentDb) (r : Request)
      → AllForeign w.schedule
      → Keeps w.db.payments (serve r w).payments
  serve-Keeps w (Request.create request key) foreign =
      elim (create_inserts env request key w foreign) [
        | inl same ↦ Keeps-same w.db.payments _ (ap (λ (d : PaymentDb). d.payments) same)
        | inr (payment, waiting, (row, event, c, status, new, e)) ↦
            rw e (Keeps-more w.db.payments (row ∷ []))
      ]
  serve-Keeps w (Request.get_by_id id) foreign =
      Keeps-same w.db.payments _ (ap (λ (d : PaymentDb). d.payments) (get_by_id_reads id w))
  serve-Keeps w (Request.update_status id request) foreign =
      elim (update_status_changes env id request w) [
        | inl same ↦ Keeps-same w.db.payments _ (ap (λ (d : PaymentDb). d.payments) same)
        | inr (id_text, status, is_final, (i, now, row, event, u, there, c, e)) ↦
            rw e (Keeps-updated i status now w.db.payments is_final)
      ]
