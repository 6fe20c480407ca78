-- ===== src/Payments/Tables.antt =====
-- The tables payments and outbox_events (migrations/000001, 000002 and 000004) and the statements of
-- services/payment-service/internal/repository/payment_repository.go.
use finflow.Base.{
  ℕ, String, Bool, false, not, ◌&&◌, ◌||◌, Option, none, some, List, [], ◌∷◌, ◌++◌, any, find,
  str_eq, if◌then◌else◌,
}
use finflow.Base.Int.{ℤ, is_non_positive}
use finflow.Go.Environment.{Environment}
use finflow.Go.Errors.{Sentinel, sentinel, message, Result, ok, err, ◌>>=◌, ◌>>◌, fail_if}
use finflow.Go.Strings.{is_empty}
use finflow.Payments.Model.{PaymentStatus, Payment, pending, succeeded, failed}
use finflow.Payments.Event.{OutboxEvent}

-- A row of payments, with its nullable columns.
pub record PaymentRow : Type 0 where
  pub id : String
  pub amount_cents : ℤ
  pub currency : String
  pub status : PaymentStatus
  pub description : Option String
  pub external_reference : Option String
  pub idempotency_key : Option String
  pub idempotency_hash : Option String
  pub created_at : ℕ
  pub updated_at : ℕ

pub record PaymentDb : Type 0 where
  pub payments : List PaymentRow
  pub outbox : List OutboxEvent

-- `nullableString`
unfoldable pub nullable_string : String → Option String
nullable_string value = if is_empty value then none else some value

-- `derefString`
unfoldable pub deref_string : Option String → String
deref_string none = ""
deref_string (some value) = value

abbrev pub payment_of_row : PaymentRow → Payment
payment_of_row row = record {
  id = row.id;
  amount_cents = row.amount_cents;
  currency = row.currency;
  status = row.status;
  description = deref_string row.description;
  external_reference = deref_string row.external_reference;
  idempotency_key = deref_string row.idempotency_key;
  idempotency_hash = deref_string row.idempotency_hash;
  created_at = row.created_at;
  updated_at = row.updated_at;
}

-- `scanPayment`, of the row that a query returned, if any.
unfoldable pub scan_payment : Option PaymentRow → Result Payment
unfolding deref_string
scan_payment none = err (sentinel Sentinel.payment_not_found)
scan_payment (some row) = ok (payment_of_row row)

abbrev pub uuid_column : Environment → String → Result String
uuid_column env text = elim (env.read_uuid text) [
  | some id ↦ ok id
  | none ↦ err (message "invalid input syntax for type uuid")
]

-- CHECK (status IN ('pending', 'succeeded', 'failed'))
abbrev pub check_status : PaymentStatus → Bool
check_status s = str_eq s pending || str_eq s succeeded || str_eq s failed

abbrev pub has_key : String → PaymentRow → Bool
has_key key row = elim row.idempotency_key [ some k ↦ str_eq k key | none ↦ false ]

abbrev pub new_row : String → Payment → Option String → Option String → ℕ → PaymentRow
new_row id payment key hash now = record {
  id = id;
  amount_cents = payment.amount_cents;
  currency = payment.currency;
  status = payment.status;
  description = nullable_string payment.description;
  external_reference = nullable_string payment.external_reference;
  idempotency_key = key;
  idempotency_hash = hash;
  created_at = now;
  updated_at = now;
}

-- INSERT INTO payments ... RETURNING, with the columns of the key and of the hash.
unfoldable pub insert_row_query :
    Environment
    → Payment
    → Option String
    → Option String
    → ℕ
    → PaymentDb
    → Result (Option PaymentRow × PaymentDb)
unfolding nullable_string
insert_row_query env payment key hash now db = do
  id ← uuid_column env payment.id
  fail_if (is_non_positive payment.amount_cents || not (check_status payment.status))
      (message "check constraint")
  fail_if (any (λ r. str_eq r.id id) db.payments) (message "duplicate key")
  let row = new_row id payment key hash now
  ok (some row, record db { payments = db.payments ++ row ∷ [] })

-- The same with ON CONFLICT (idempotency_key) DO NOTHING.
unfoldable pub insert_idempotent_query :
    Environment → Payment → ℕ → PaymentDb → Result (Option PaymentRow × PaymentDb)
unfolding insert_row_query
insert_idempotent_query env payment now db =
    if any (has_key payment.idempotency_key) db.payments
    then (do
      id ← uuid_column env payment.id
      fail_if (is_non_positive payment.amount_cents || not (check_status payment.status))
          (message "check constraint")
      ok (none, db))
    else insert_row_query env payment (some payment.idempotency_key) (some payment.idempotency_hash)
        now db

-- SELECT ... WHERE idempotency_key = $1
unfoldable pub select_by_key_query : String → ℕ → PaymentDb → Result (Option PaymentRow × PaymentDb)
select_by_key_query key now db = ok (find (has_key key) db.payments, db)

-- SELECT ... WHERE id = $1
unfoldable pub select_by_id_query :
    Environment → String → ℕ → PaymentDb → Result (Option PaymentRow × PaymentDb)
select_by_id_query env id_text now db = do
  id ← uuid_column env id_text
  ok (find (λ r. str_eq r.id id) db.payments, db)

abbrev pub update_row : PaymentStatus → ℕ → PaymentRow → PaymentRow
update_row status now row = record row { status = status; updated_at = now }

-- SET status = $2, updated_at = now() WHERE id = $1 AND status = $3
unfoldable pub update_rows :
    String → PaymentStatus → PaymentStatus → ℕ → List PaymentRow → List PaymentRow
update_rows id status previous now [] = []
update_rows id status previous now (row ∷ rows) =
    (if str_eq row.id id && str_eq row.status previous then update_row status now row else row)
    ∷ update_rows id status previous now rows

-- UPDATE payments ... RETURNING
unfoldable pub update_status_query :
    Environment
    → String
    → PaymentStatus
    → PaymentStatus
    → ℕ
    → PaymentDb
    → Result (Option PaymentRow × PaymentDb)
unfolding update_rows
update_status_query env id_text status previous now db = do
  id ← uuid_column env id_text
  elim (find (λ r. str_eq r.id id && str_eq r.status previous) db.payments) [
    | none ↦ ok (none, db)
    | some row ↦ do
      fail_if (not (check_status status)) (message "check constraint")
      ok (
        some (update_row status now row),
        record db { payments = update_rows id status previous now db.payments },
      )
  ]

-- INSERT INTO outbox_events
unfoldable pub insert_outbox_query :
    Environment → OutboxEvent → ℕ → PaymentDb → Result (Unit {0} × PaymentDb)
insert_outbox_query env event now db = do
  id ← uuid_column env event.id
  fail_if (any (λ e. str_eq e.id id) db.outbox) (message "duplicate key")
  ok (tt, record db { outbox = db.outbox ++ record event { id = id; created_at = now } ∷ [] })
