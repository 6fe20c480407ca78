-- ===== src/Payments/Repository/Writes.antt =====
-- What the transactions of payment_repository.go leave behind in every case.
use finflow.Base.{
  ℕ, ◌≡◌, refl, sym, ap, ◌∙◌, String, Bool, true, false, Option, none, some, [], ◌∷◌, ◌++◌, any,
  arith, str_eq, ◌⊎◌, inl, inr, Option-cases,
}
use finflow.Go.Environment.{Environment}
use finflow.Go.Errors.{wrap, Result, ok, err}
use finflow.Postgres.{World, Action, pure, lift, ◌>>=◌, statement, after_begin, new_uuid}
use finflow.Postgres.Atomic.{statement_ok, transaction_db, bind_ok}
use finflow.Payments.Model.{PaymentStatus, Payment}
use finflow.Payments.Event.{
  OutboxEvent, OutboxStatus, new_payment_created, new_payment_status_changed,
  payment_created_payload, payment_status_changed_payload, payment_created_event,
  payment_status_changed_event,
}
use finflow.Payments.Tables.{
  PaymentDb, PaymentRow, payment_of_row, scan_payment, insert_row_query, insert_outbox_query,
}
use finflow.Payments.Repository.{
  wrapped, annotate, query_payment, insert_outbox_event, publish_created, publish_status_changed,
  insert_body, insert_with_outbox,
}

pub wrapped_ok {ℓ} :
    {A : Type ℓ} (text : String) (r : Result A) {a : A} → wrapped text r ≡ ok a → r ≡ ok a
wrapped_ok text (ok b) h = h
wrapped_ok text (err e) h = cc

scan_payment_ok :
    (row : Option PaymentRow) {p : Payment}
    → scan_payment row ≡ ok p
    → (r : PaymentRow) × (row ≡ some r) × (p ≡ payment_of_row r)
unfolding scan_payment
scan_payment_ok none h = cc
scan_payment_ok (some r) h = (r, refl, cc)

pub query_payment_ok :
    (query : ℕ → PaymentDb → Result (Option PaymentRow × PaymentDb)) (w : World PaymentDb)
    {p : Payment}
    → (query_payment query w).0 ≡ ok p
    → (row : PaymentRow) × (query w.clock w.db ≡ ok (some row, (query_payment query w).1.db))
      × (p ≡ payment_of_row row)
unfolding query_payment
query_payment_ok query w h =
    let (found, answered, same) =
      bind_ok (statement (λ e. e) query) (λ row. lift {T = PaymentDb} (scan_payment row)) w h in
    let (row, there, e) = scan_payment_ok found (sym (ap (λ p. p.0) same) ∙ h) in
    (row, rw (← there, ap (λ p. p.1.db) same) (statement_ok (λ e. e) query w answered), e)

-- An event that tells of the creation of the row's payment.
pub record IsCreatedEvent (env : Environment) (row : PaymentRow) (event : OutboxEvent)
    : Type 0 where
  pub type_of_event : event.event_type ≡ payment_created_event
  pub aggregate : event.aggregate_id ≡ row.id
  pub payload : event.payload ≡ payment_created_payload env (payment_of_row row)
  pub waiting : event.status ≡ OutboxStatus.pending

-- An event that tells of the change of the row's status from a previous one.
pub record IsChangedEvent (env : Environment) (previous : PaymentStatus) (row : PaymentRow)
    (event : OutboxEvent) : Type 0 where
  pub type_of_event : event.event_type ≡ payment_status_changed_event
  pub aggregate : event.aggregate_id ≡ row.id
  pub payload : event.payload ≡ payment_status_changed_payload env previous (payment_of_row row)
  pub waiting : event.status ≡ OutboxStatus.pending

module _ (env : Environment) where
  insert_outbox_query_ok :
      (event : OutboxEvent) (now : ℕ) (db : PaymentDb) {u : Unit {0}} {db' : PaymentDb}
      → insert_outbox_query env event now db ≡ ok (u, db')
      → (id : String) × (db'
          ≡ record db { outbox = db.outbox ++ record event { id = id; created_at = now } ∷ [] })
  unfolding insert_outbox_query
  insert_outbox_query_ok event now db h = elim (Option-cases (env.read_uuid event.id)) [
    | inl refused ↦ absurd (ground arith)
    | inr (id, e) ↦ (id, ground arith)
  ]

  publish_created_ok :
      (row : PaymentRow) (w : World PaymentDb) {u : Unit {0}}
      → (publish_created env (payment_of_row row) w).0 ≡ ok u
      → (event : OutboxEvent) × IsCreatedEvent env row event
        × ((publish_created env (payment_of_row row) w).1.db
            ≡ record w.db { outbox = w.db.outbox ++ event ∷ [] })
  unfolding publish_created insert_outbox_event new_uuid new_payment_created
  publish_created_ok row w h =
      let w' = (new_uuid env w).1 in
      let event = new_payment_created env (new_uuid env w).0 (payment_of_row row) in
      let (id, e) =
        insert_outbox_query_ok event w'.clock w'.db
          (statement_ok (wrap "insert outbox event") (insert_outbox_query env event) w' h) in
      (
        record event { id = id; created_at = w.clock },
        record { type_of_event = refl; aggregate = refl; payload = refl; waiting = refl },
        e,
      )

  pub publish_status_changed_ok :
      (previous : PaymentStatus) (row : PaymentRow) (w : World PaymentDb) {u : Unit {0}}
      → (publish_status_changed env previous (payment_of_row row) w).0 ≡ ok u
      → (event : OutboxEvent) × IsChangedEvent env previous row event
        × ((publish_status_changed env previous (payment_of_row row) w).1.db
            ≡ record w.db { outbox = w.db.outbox ++ event ∷ [] })
  unfolding publish_status_changed insert_outbox_event new_uuid new_payment_status_changed
  publish_status_changed_ok previous row w h =
      let w' = (new_uuid env w).1 in
      let event = new_payment_status_changed env (new_uuid env w).0 previous (payment_of_row row) in
      let (id, e) =
        insert_outbox_query_ok event w'.clock w'.db
          (statement_ok (wrap "insert outbox event") (insert_outbox_query env event) w' h) in
      (
        record event { id = id; created_at = w.clock },
        record { type_of_event = refl; aggregate = refl; payload = refl; waiting = refl },
        e,
      )

  -- The tables with one more payment, which has an id of its own.
  abbrev pub Added : Payment → PaymentRow → PaymentDb → PaymentDb → Type 0
  Added payment row db db' =
      (row.status ≡ payment.status)
      × (any (λ r. str_eq r.id row.id) db.payments ≡ false)
      × (db' ≡ record db { payments = db.payments ++ row ∷ [] })

  pub insert_row_query_ok :
      (payment : Payment) (key hash : Option String) (now : ℕ) (db : PaymentDb) {row : PaymentRow}
      {db' : PaymentDb}
      → insert_row_query env payment key hash now db ≡ ok (some row, db')
      → Added payment row db db'
  unfolding insert_row_query
  insert_row_query_ok payment key hash now db h = elim (Option-cases (env.read_uuid payment.id)) [
    | inl refused ↦ absurd (ground arith)
    | inr (id, e) ↦ ground arith
  ]

  -- The tables with one more payment and the event of its creation.
  abbrev pub Inserted : Payment → PaymentDb → PaymentDb → Type 0
  Inserted payment db db' =
      (row : PaymentRow) × (event : OutboxEvent) × IsCreatedEvent env row event
      × (row.status ≡ payment.status)
      × (any (λ r. str_eq r.id row.id) db.payments ≡ false)
      × (db' ≡ record db { payments = db.payments ++ row ∷ []; outbox = db.outbox ++ event ∷ [] })

  -- The event of a new row, whatever the transaction returns after it.
  pub publish_then_ok :
      {A : Type 0} (row : PaymentRow) (p : Payment) (value : A) (w : World PaymentDb) {a : A}
      → p ≡ payment_of_row row
      → ((publish_created env p >>= λ sent. pure value) w).0 ≡ ok a
      → (event : OutboxEvent) × IsCreatedEvent env row event
        × (((publish_created env p >>= λ sent. pure value) w).1.db
            ≡ record w.db { outbox = w.db.outbox ++ event ∷ [] })
  publish_then_ok row p value w e h =
      let (sent, done, same) =
        bind_ok (publish_created env p) (λ sent. pure {T = PaymentDb} value) w h in
      let (event, created, wrote) = publish_created_ok row w (rw e at done) in
      (event, created, ap (λ q. q.1.db) same ∙ ap (λ q. (publish_created env q w).1.db) e ∙ wrote)

  pub joined :
      (payment : Payment) (row : PaymentRow) (event : OutboxEvent) (db db1 db2 : PaymentDb)
      → Added payment row db db1
      → IsCreatedEvent env row event
      → db2 ≡ record db1 { outbox = db1.outbox ++ event ∷ [] }
      → Inserted payment db db2
  joined payment row event db db1 db2 (status, new, added) created wrote = (
    row,
    event,
    created,
    status,
    new,
    wrote ∙ ap (λ (d : PaymentDb). record d { outbox = d.outbox ++ event ∷ [] }) added,
  )

  pub insert_body_ok :
      (payment : Payment) (w : World PaymentDb) {answer : Payment × Bool} {text : String}
      → (insert_body env payment w).0 ≡ ok (answer, text)
      → Inserted payment w.db (insert_body env payment w).1.db
  unfolding insert_body
  insert_body_ok payment w h =
      let insert =
        annotate "insert payment" (query_payment (insert_row_query env payment none none)) in
      let answered : Payment → (Payment × Bool) × String =
        λ p. ((p, true), "commit create transaction") in
      let next : Payment → Action PaymentDb ((Payment × Bool) × String) =
        λ p. publish_created env p >>= λ sent. pure {T = PaymentDb} (answered p) in
      let (p, inserted, same) = bind_ok insert next w h in
      let (row, wrote, e) = query_payment_ok (insert_row_query env payment none none) w (
        wrapped_ok "insert payment" (query_payment (insert_row_query env payment none none) w).0
          inserted) in
      let added = insert_row_query_ok payment none none w.clock w.db wrote in
      let (event, created, sent) =
        publish_then_ok row p (answered p) (insert w).1 e (sym (ap (λ q. q.0) same) ∙ h) in
      joined payment row event w.db (insert w).1.db _ added created (ap (λ q. q.1.db) same ∙ sent)

  -- `Create` without a key adds a payment and its event, or changes nothing.
  pub insert_with_outbox_db :
      (payment : Payment) (w : World PaymentDb)
      → let db' = (insert_with_outbox env payment w).1.db in
        (db' ≡ w.db) ⊎ Inserted payment w.db db'
  unfolding insert_with_outbox
  insert_with_outbox_db payment w =
      elim (transaction_db "begin create transaction" (insert_body env payment) w) [
        | inl same ↦ inl same
        | inr (answer, (text, returned, kept)) ↦
            inr (rw kept at (insert_body_ok payment (after_begin w) returned))
      ]
