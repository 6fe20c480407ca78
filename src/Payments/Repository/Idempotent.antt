-- ===== src/Payments/Repository/Idempotent.antt =====
-- `Create` of payment_repository.go with an idempotency key: the transaction that inserts the payment
-- or finds the one that holds the key.
use finflow.Base.{
  ℕ, ◌≡◌, refl, sym, ap, ◌∙◌, String, Bool, true, false, not, some, any, find, arith, str_eq,
  eq_iff, if◌then◌else◌, ◌⊎◌, inl, inr, Bool-cases,
}
use finflow.Go.Environment.{Environment}
use finflow.Go.Errors.{Error, Sentinel, sentinel, is, Result, ok, err}
use finflow.Postgres.{World, Action, pure, fail, lift, statement}
use finflow.Postgres.Atomic.{statement_db, bind_ok, bind_cases}
use finflow.Payments.Model.{Payment}
use finflow.Payments.Tables.{
  PaymentDb, PaymentRow, payment_of_row, scan_payment, has_key, select_by_key_query,
}
use finflow.Payments.Repository.{
  annotate, query_payment, publish_created, replay_existing, after_insert,
}
use finflow.Payments.Repository.Writes.{
  Added, Inserted, wrapped_ok, query_payment_ok, publish_then_ok, joined,
}

module _ (env : Environment) where
  select_by_key_db :
      (key : String) (w : World PaymentDb) → (query_payment (select_by_key_query key) w).1.db ≡ w.db
  unfolding query_payment select_by_key_query
  select_by_key_db key w =
      let select = statement (λ e. e) (select_by_key_query key) in
      let unchanged : (select w).1.db ≡ w.db =
        elim (statement_db (λ e. e) (select_by_key_query key) w) [
          | inl same ↦ same
          | inr (row, e) ↦ ground arith
        ] in
      elim (bind_cases select (λ row. lift {T = PaymentDb} (scan_payment row)) w) [
        | inl (e, _, same) ↦ ap (λ q. q.1.db) same ∙ unchanged
        | inr (row, _, same) ↦ ap (λ q. q.1.db) same ∙ unchanged
      ]

  -- What follows once the payment with the key is read.
  abbrev compared : Payment → Payment → Action PaymentDb ((Payment × Bool) × String)
  compared payment existing =
      if not (str_eq existing.idempotency_hash payment.idempotency_hash)
      then fail (sentinel Sentinel.idempotency_conflict)
      else pure ((existing, false), "commit idempotent replay transaction")

  compared_db :
      (payment existing : Payment) (w : World PaymentDb) → (compared payment existing w).1.db ≡ w.db
  compared_db payment existing w =
      elim (Bool-cases (str_eq existing.idempotency_hash payment.idempotency_hash)) [
        | inl same ↦ rw same
        | inr differs ↦ rw differs
      ]

  compared_ok :
      (payment existing : Payment) (w : World PaymentDb) {answer : Payment × Bool} {text : String}
      → (compared payment existing w).0 ≡ ok (answer, text)
      → (existing.idempotency_hash ≡ payment.idempotency_hash) × (answer ≡ (existing, false))
  compared_ok payment existing w h =
      elim (Bool-cases (str_eq existing.idempotency_hash payment.idempotency_hash)) [
        | inl same ↦
            let h' = rw same at h in
            ((eq_iff existing.idempotency_hash payment.idempotency_hash).0 same, ground arith)
        | inr differs ↦ absurd (ground arith)
      ]

  replay_existing_db :
      (payment : Payment) (w : World PaymentDb) → (replay_existing env payment w).1.db ≡ w.db
  unfolding replay_existing
  replay_existing_db payment w =
      let find_it =
        annotate "find idempotent payment"
          (query_payment (select_by_key_query payment.idempotency_key)) in
      let unchanged = select_by_key_db payment.idempotency_key w in
      elim (bind_cases find_it (compared payment) w) [
        | inl (e, _, same) ↦ ap (λ q. q.1.db) same ∙ unchanged
        | inr (existing, _, same) ↦
            ap (λ q. q.1.db) same ∙ compared_db payment existing (find_it w).1 ∙ unchanged
      ]

  -- The payment that holds the key was made from the same request.
  abbrev pub Replayed : Payment → PaymentDb → Payment × Bool → Type 0
  Replayed payment db answer =
      (row : PaymentRow) × (find (has_key payment.idempotency_key) db.payments ≡ some row)
      × ((payment_of_row row).idempotency_hash ≡ payment.idempotency_hash)
      × (answer ≡ (payment_of_row row, false))

  select_by_key_ok :
      (key : String) (now : ℕ) (db : PaymentDb) {row : PaymentRow} {db' : PaymentDb}
      → select_by_key_query key now db ≡ ok (some row, db')
      → find (has_key key) db.payments ≡ some row
  unfolding select_by_key_query
  select_by_key_ok key now db h = ground arith

  replay_existing_ok :
      (payment : Payment) (w : World PaymentDb) {answer : Payment × Bool} {text : String}
      → (replay_existing env payment w).0 ≡ ok (answer, text)
      → Replayed payment w.db answer
  unfolding replay_existing
  replay_existing_ok payment w h =
      let select = query_payment (select_by_key_query payment.idempotency_key) in
      let find_it = annotate "find idempotent payment" select in
      let (existing, found, same) = bind_ok find_it (compared payment) w h in
      let (row, there, e) =
        query_payment_ok (select_by_key_query payment.idempotency_key) w
          (wrapped_ok "find idempotent payment" (select w).0 found) in
      let (hash, answer_eq) =
        compared_ok payment existing (find_it w).1 (sym (ap (λ q. q.0) same) ∙ h) in
      (
        row,
        select_by_key_ok payment.idempotency_key w.clock w.db there,
        sym (ap (λ (p : Payment). p.idempotency_hash) e) ∙ hash,
        answer_eq ∙ ap (λ (p : Payment). (p, false)) e,
      )

  -- `Create` with a key: the payment that held it, untouched tables; or a new payment and its event.
  abbrev pub CreatedOnce : Payment → PaymentDb → Payment × Bool → PaymentDb → Type 0
  CreatedOnce payment db answer db' =
      (Replayed payment db answer × (db' ≡ db))
      ⊎ ((answer.1 ≡ true)
          × (any (has_key payment.idempotency_key) db.payments ≡ false)
          × Inserted env payment db db')

  pub after_insert_ok :
      (payment : Payment) (r : Result Payment) (db : PaymentDb) (w : World PaymentDb)
      {answer : Payment × Bool} {text : String}
      → ((p : Payment)
          → r ≡ ok p
          → (row : PaymentRow) × (p ≡ payment_of_row row)
            × (any (has_key payment.idempotency_key) db.payments ≡ false)
            × Added env payment row db w.db)
      → ((e : Error) → r ≡ err e → is e Sentinel.payment_not_found ≡ true → w.db ≡ db)
      → (after_insert env payment r w).0 ≡ ok (answer, text)
      → CreatedOnce payment db answer (after_insert env payment r w).1.db
  unfolding after_insert
  after_insert_ok payment (ok p) db w added unchanged h =
      let value : (Payment × Bool) × String = ((p, true), "commit idempotent create transaction") in
      let (row, e, absent, new) = added p refl in
      let (event, created, wrote) = publish_then_ok env row p value w e h in
      let (sent, _, same) =
        bind_ok (publish_created env p) (λ sent. pure {T = PaymentDb} value) w h in
      inr (
        answer_true (sym (ap (λ q. q.0) same) ∙ h),
        absent,
        joined env payment row event db w.db _ new created wrote,
      )
    where
      answer_true :
          {answer : Payment × Bool} {text : String}
          → ◌≡◌ {A = Result ((Payment × Bool) × String)}
              (ok ((p, true), "commit idempotent create transaction"))
              (ok (answer, text))
          → answer.1 ≡ true
      answer_true h = ground arith
  after_insert_ok payment (err e) db w added unchanged h =
      elim (Bool-cases (is e Sentinel.payment_not_found)) [
        | inl missing ↦
            let before = unchanged e refl missing in
            rw missing (
              inl (
                rw before at (replay_existing_ok payment w (rw missing at h)),
                replay_existing_db payment w ∙ before,
              ))
        | inr other ↦ absurd (ground arith)
      ]
