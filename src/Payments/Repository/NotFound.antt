-- ===== src/Payments/Repository/NotFound.antt =====
-- `ErrPaymentNotFound` of payment_repository.go: when `scanPayment` returns it, and what the insertion
-- with a key has done then.
use finflow.Base.{
  ℕ, ◌≡◌, refl, String, Bool, true, false, not, Option, none, some, List, [], ◌∷◌, any, arith, ◌⊎◌,
  inl, inr, All, Option-cases, Bool-cases,
}
use finflow.Go.Environment.{Environment}
use finflow.Go.Errors.{Error, Sentinel, is, Result, ok, err, map_error}
use finflow.Postgres.{
  World, Outcome, success, failed, unacknowledged, Action, lift, continue, statement, after_begin,
  first_outcome, other_outcomes, served, delivered,
}
use finflow.Payments.Model.{Payment}
use finflow.Payments.Tables.{
  PaymentDb, PaymentRow, scan_payment, has_key, insert_row_query, insert_idempotent_query,
}
use finflow.Payments.Repository.{query_payment}
use finflow.Payments.Repository.Writes.{Added, insert_row_query_ok}

-- The driver's errors are its own: none is the package's `ErrPaymentNotFound`.
abbrev pub is_foreign : Outcome → Bool
is_foreign success = true
is_foreign (failed e) = not (is e Sentinel.payment_not_found)
is_foreign (unacknowledged e) = not (is e Sentinel.payment_not_found)

abbrev pub AllForeign : List Outcome → Type 0
AllForeign = All (λ o. is_foreign o ≡ true)

pub first-foreign : (os : List Outcome) → AllForeign os → is_foreign (first_outcome os) ≡ true
first-foreign [] h = refl
first-foreign (o ∷ os) h = h.0

pub other-foreign : (os : List Outcome) → AllForeign os → AllForeign (other_outcomes os)
other-foreign [] h = tt
other-foreign (o ∷ os) h = h.1

-- The scan of a row once the call has come back.
abbrev scanned : Result (Option PaymentRow) → Action PaymentDb Payment
scanned r w = continue (map_error (λ e. e) r) (λ row. lift {T = PaymentDb} (scan_payment row)) w

abbrev NotFound : Result (Option PaymentRow × PaymentDb) → PaymentDb → PaymentDb → Type 0
NotFound r db db' = (db' ≡ db) ⊎ (r ≡ ok (none, db'))

NotFound-of_server :
    (r : Result (Option PaymentRow × PaymentDb)) (w : World PaymentDb) {e : Error}
    → let call = scanned (served r w.db).0 (record w { db = (served r w.db).1 }) in
      call.0 ≡ err e → NotFound r w.db call.1.db
unfolding scan_payment
NotFound-of_server (ok (none, db')) w h = inr refl
NotFound-of_server (ok (some row, db')) w h = cc
NotFound-of_server (err e) w h = inl refl

NotFound-of_delivered :
    (o : Outcome) (query : ℕ → PaymentDb → Result (Option PaymentRow × PaymentDb))
    (w : World PaymentDb) {e : Error}
    → is_foreign o ≡ true
    → let call = scanned (delivered o query w).0 (delivered o query w).1 in
      call.0 ≡ err e
      → is e Sentinel.payment_not_found ≡ true
      → NotFound (query w.clock w.db) w.db call.1.db
NotFound-of_delivered success query w f h i = NotFound-of_server (query w.clock w.db) w h
NotFound-of_delivered (failed e) query w f h i = inl refl
NotFound-of_delivered (unacknowledged e) query w f h i = absurd (ground arith)

-- `ErrPaymentNotFound` means that the query gave no row, or did nothing.
pub query_payment-NotFound :
    (query : ℕ → PaymentDb → Result (Option PaymentRow × PaymentDb)) (w : World PaymentDb)
    {e : Error}
    → AllForeign w.schedule
    → (query_payment query w).0 ≡ err e
    → is e Sentinel.payment_not_found ≡ true
    → NotFound (query w.clock w.db) w.db (query_payment query w).1.db
unfolding query_payment statement
query_payment-NotFound query w foreign h i =
    NotFound-of_delivered (first_outcome w.schedule) query (after_begin w)
      (first-foreign w.schedule foreign) h i

module _ (env : Environment) where
  insert_row_query_some :
      (payment : Payment) (key hash : Option String) (now : ℕ) (db : PaymentDb) {db' : PaymentDb}
      → insert_row_query env payment key hash now db ≡ ok (none, db')
      → ⊥
  unfolding insert_row_query
  insert_row_query_some payment key hash now db h = elim (Option-cases (env.read_uuid payment.id)) [
    | inl refused ↦ ground arith
    | inr (id, e) ↦ ground arith
  ]

  pub insert_idempotent_none :
      (payment : Payment) (now : ℕ) (db db' : PaymentDb)
      → insert_idempotent_query env payment now db ≡ ok (none, db')
      → db' ≡ db
  unfolding insert_idempotent_query
  insert_idempotent_none payment now db db' h =
      elim (Bool-cases (any (has_key payment.idempotency_key) db.payments)) [
        | inl present ↦ elim (Option-cases (env.read_uuid payment.id)) [
          | inl refused ↦ absurd (ground arith)
          | inr (id, e) ↦ ground arith
        ]
        | inr absent ↦ absurd (
            insert_row_query_some payment (some payment.idempotency_key)
              (some payment.idempotency_hash) now db (rw absent at h))
      ]

  pub insert_idempotent_some :
      (payment : Payment) (now : ℕ) (db : PaymentDb) {row : PaymentRow} {db' : PaymentDb}
      → insert_idempotent_query env payment now db ≡ ok (some row, db')
      → (any (has_key payment.idempotency_key) db.payments ≡ false) × Added env payment row db db'
  unfolding insert_idempotent_query
  insert_idempotent_some payment now db h =
      elim (Bool-cases (any (has_key payment.idempotency_key) db.payments)) [
        | inl present ↦ elim (Option-cases (env.read_uuid payment.id)) [
          | inl refused ↦ absurd (ground arith)
          | inr (id, e) ↦ absurd (ground arith)
        ]
        | inr absent ↦ (
          absent,
          insert_row_query_ok env payment (some payment.idempotency_key)
              (some payment.idempotency_hash) now db (rw absent at h),
        )
      ]
