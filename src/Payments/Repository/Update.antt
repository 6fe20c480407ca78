-- ===== src/Payments/Repository/Update.antt =====
-- `PostgresPaymentRepository.UpdateStatus` and `GetByID`: what they leave behind in every case.
use finflow.Base.{
  ℕ, ◌≡◌, sym, ap, ◌∙◌, String, ◌&&◌, Option, some, [], ◌∷◌, ◌++◌, find, arith, str_eq, ◌⊎◌, inl,
  inr, Option-cases,
}
use finflow.Go.Environment.{Environment}
use finflow.Go.Errors.{ok}
use finflow.Postgres.{World, Action, pure, lift, ◌>>=◌, statement, after_begin}
use finflow.Postgres.Atomic.{statement_db, transaction_db, bind_ok, bind_cases}
use finflow.Payments.Model.{PaymentStatus, Payment}
use finflow.Payments.Event.{OutboxEvent}
use finflow.Payments.Tables.{
  PaymentDb, PaymentRow, payment_of_row, scan_payment, select_by_id_query, update_row, update_rows,
  update_status_query,
}
use finflow.Payments.Repository.{
  annotate, query_payment, publish_status_changed, get_by_id, update_body, update_status,
}
use finflow.Payments.Repository.Writes.{
  IsChangedEvent, wrapped_ok, query_payment_ok, publish_status_changed_ok,
}

module _ (env : Environment) where
  -- A payment with the id and the previous status has the new status, and the event says so.
  abbrev pub Changed : String → PaymentStatus → PaymentStatus → PaymentDb → PaymentDb → Type 0
  Changed id_text previous status db db' =
      (id : String) × (now : ℕ) × (row : PaymentRow) × (event : OutboxEvent) × (env.read_uuid
          id_text
        ≡ some id)
      × (find (λ r. str_eq r.id id && str_eq r.status previous) db.payments ≡ some row)
      × IsChangedEvent env previous (update_row status now row) event
      × (db' ≡ record db {
        payments = update_rows id status previous now db.payments;
        outbox = db.outbox ++ event ∷ [];
      })

  abbrev pub UpdatedRow :
      String → PaymentStatus → PaymentStatus → ℕ → PaymentRow → PaymentDb → PaymentDb → Type 0
  UpdatedRow id_text previous status now updated db db' =
      (id : String) × (row : PaymentRow) × (env.read_uuid id_text ≡ some id)
      × (find (λ r. str_eq r.id id && str_eq r.status previous) db.payments ≡ some row)
      × (updated ≡ update_row status now row)
      × (db' ≡ record db { payments = update_rows id status previous now db.payments })

  pub update_status_query_ok :
      (id_text : String) (previous status : PaymentStatus) (now : ℕ) (db : PaymentDb)
      {updated : PaymentRow} {db' : PaymentDb}
      → update_status_query env id_text status previous now db ≡ ok (some updated, db')
      → UpdatedRow id_text previous status now updated db db'
  unfolding update_status_query
  update_status_query_ok id_text previous status now db {updated} {db'} h =
      elim (Option-cases (env.read_uuid id_text)) [
        | inl refused ↦ absurd (ground arith)
        | inr (id, e) ↦
            elim (Option-cases
              (find (λ r. str_eq r.id id && str_eq r.status previous) db.payments)) [
                | inl missing ↦ absurd (ground arith)
                | inr (row, there) ↦
                    let both = written id row e there in (id, row, e, there, both.0, both.1)
              ]
      ]
    where
      written :
          (id : String) (row : PaymentRow)
          → env.read_uuid id_text ≡ some id
          → find (λ r. str_eq r.id id && str_eq r.status previous) db.payments ≡ some row
          → (updated ≡ update_row status now row)
            × (db' ≡ record db { payments = update_rows id status previous now db.payments })
      written id row e there = ground arith

  publish_then_ok :
      {A : Type 0} (previous : PaymentStatus) (row : PaymentRow) (p : Payment) (value : A)
      (w : World PaymentDb) {a : A}
      → p ≡ payment_of_row row
      → ((publish_status_changed env previous p >>= λ sent. pure value) w).0 ≡ ok a
      → (event : OutboxEvent) × IsChangedEvent env previous row event
        × (((publish_status_changed env previous p >>= λ sent. pure value) w).1.db
            ≡ record w.db { outbox = w.db.outbox ++ event ∷ [] })
  publish_then_ok previous row p value w e h =
      let (sent, done, same) =
        bind_ok (publish_status_changed env previous p) (λ sent. pure {T = PaymentDb} value) w h in
      let (event, created, wrote) = publish_status_changed_ok env previous row w (rw e at done) in
      (
        event,
        created,
        ap (λ q. q.1.db) same ∙ ap (λ q. (publish_status_changed env previous q w).1.db) e ∙ wrote,
      )

  joined :
      (id_text : String) (previous status : PaymentStatus) (now : ℕ) (updated : PaymentRow)
      (event : OutboxEvent) (db db1 db2 : PaymentDb)
      → UpdatedRow id_text previous status now updated db db1
      → IsChangedEvent env previous updated event
      → db2 ≡ record db1 { outbox = db1.outbox ++ event ∷ [] }
      → Changed id_text previous status db db2
  joined id_text previous status now updated event db db1 db2 (id, row, e, there, same, wrote)
        changed sent =
      (
        id,
        now,
        row,
        event,
        e,
        there,
        rw same at changed,
        sent ∙ ap (λ (d : PaymentDb). record d { outbox = d.outbox ++ event ∷ [] }) wrote,
      )

  update_body_ok :
      (id_text : String) (previous status : PaymentStatus) (w : World PaymentDb) {answer : Payment}
      {text : String}
      → (update_body env id_text previous status w).0 ≡ ok (answer, text)
      → Changed id_text previous status w.db (update_body env id_text previous status w).1.db
  unfolding update_body
  update_body_ok id_text previous status w h =
      let query = query_payment (update_status_query env id_text status previous) in
      let update = annotate "update payment status" query in
      let answered : Payment → Payment × String = λ p. (p, "commit status update transaction") in
      let next : Payment → Action PaymentDb (Payment × String) =
        λ p. publish_status_changed env previous p >>= λ sent. pure {T = PaymentDb} (answered p) in
      let (p, done, same) = bind_ok update next w h in
      let (row, wrote, e) =
        query_payment_ok (update_status_query env id_text status previous) w
          (wrapped_ok "update payment status" (query w).0 done) in
      let (event, changed, sent) =
        publish_then_ok previous row p (answered p) (update w).1 e (sym (ap (λ q. q.0) same) ∙ h) in
      joined id_text previous status w.clock row event w.db (update w).1.db _
        (update_status_query_ok id_text previous status w.clock w.db wrote) changed
        (ap (λ q. q.1.db) same ∙ sent)

  -- `UpdateStatus` changes nothing, or changes the status together with the event of the change.
  pub update_status_db :
      (id_text : String) (previous status : PaymentStatus) (w : World PaymentDb)
      → let db' = (update_status env id_text previous status w).1.db in
        (db' ≡ w.db) ⊎ Changed id_text previous status w.db db'
  unfolding update_status
  update_status_db id_text previous status w =
      elim (transaction_db "begin status update transaction"
        (update_body env id_text previous status) w) [
          | inl same ↦ inl same
          | inr (answer, (text, returned, kept)) ↦
              inr (rw kept at (update_body_ok id_text previous status (after_begin w) returned))
        ]

  select_by_id_query_ok :
      (id_text : String) (now : ℕ) (db : PaymentDb) {row : Option PaymentRow} {db' : PaymentDb}
      → select_by_id_query env id_text now db ≡ ok (row, db')
      → db' ≡ db
  unfolding select_by_id_query
  select_by_id_query_ok id_text now db h = elim (Option-cases (env.read_uuid id_text)) [
    | inl refused ↦ absurd (ground arith)
    | inr (id, e) ↦ ground arith
  ]

  -- `GetByID` only reads.
  pub get_by_id_db :
      (id_text : String) (w : World PaymentDb) → (get_by_id env id_text w).1.db ≡ w.db
  unfolding get_by_id query_payment
  get_by_id_db id_text w =
      let select = statement (λ e. e) (select_by_id_query env id_text) in
      let unchanged : (select w).1.db ≡ w.db =
        elim (statement_db (λ e. e) (select_by_id_query env id_text) w) [
          | inl same ↦ same
          | inr (row, e) ↦ select_by_id_query_ok id_text w.clock w.db e
        ] in
      elim (bind_cases select (λ row. lift {T = PaymentDb} (scan_payment row)) w) [
        | inl (e, _, same) ↦ ap (λ q. q.1.db) same ∙ unchanged
        | inr (row, _, same) ↦ ap (λ q. q.1.db) same ∙ unchanged
      ]
