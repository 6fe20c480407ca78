-- ===== src/Tests/Inputs.antt =====
-- An environment, databases and messages to run the model on.
use Prim.Native.Char.{code}
use Prim.Native.String.{slice}
use finflow.Base.{suc, true, ◌&&◌, ◌==◌, leb, none, some, List, [], ◌∷◌}
use finflow.Base.Int.{pos}
use finflow.Go.Environment.{Environment}
use finflow.Go.Errors.{message}
use finflow.Go.Json.{Document, object, number, text}
use finflow.Postgres.{World, Outcome, success, unacknowledged}
use finflow.Ledger.Model.{PaymentMovementRequest}
use finflow.Ledger.Tables.{LedgerDb}
use finflow.Payments.Model.{Payment, CreatePaymentRequest, pending}
use finflow.Payments.Tables.{PaymentDb, PaymentRow}
use finflow.Consumer.Message.{Message}
use finflow.Consumer.Retry.{RetryPolicy}

-- ASCII, where every text is a UUID, and ids of one letter.
abbrev pub ascii : Environment
ascii = record {
  is_space = λ c. code c == 32;
  is_letter = λ c. leb 65 (code c) && leb (code c) 122;
  is_upper = λ c. leb 65 (code c) && leb (code c) 90;
  upper = λ c. c;
  lower = λ c. c;
  parses = λ s. true;
  read_uuid = λ s. some s;
  new_string = λ n. slice "abcdefghijklmnopqrstuvwxyz" n (suc n);
  sha256_hex = λ s. s;
  format_time = λ n. "2024-01-01T00:00:00Z";
  parse_url = λ s. some ("postgres", s);
  url_path = λ s. "";
  parse_duration = λ s. none;
  header_names = λ s. s ∷ [];
}

abbrev pub world {ℓ} : {T : Type ℓ} → T → List Outcome → World T
world db schedule = record { db = db; schedule = schedule; next_id = 0; clock = 7 }

abbrev pub empty_ledger : LedgerDb
empty_ledger = record { accounts = []; entries = []; consumed = [] }

abbrev pub movement : PaymentMovementRequest
movement = record { payment_id = "p1"; amount_cents = pos 1250; currency = "USD" }

-- The second statement's answer is lost.
abbrev pub lossy : List Outcome
lossy = success ∷ unacknowledged (message "connection reset") ∷ []

abbrev pub created_document : Document
created_document = object (
    ("schema_version", number (pos 1))
    ∷ ("payment_id", text "p1")
    ∷ ("amount_cents", number (pos 1250))
    ∷ ("currency", text "USD")
    ∷ [])

abbrev pub created_message : Message Document
created_message = record {
  topic = "payments";
  partition = 0;
  offset = 4;
  key = "p1";
  value = created_document;
  headers =
      record { key = "event_id"; value = "e1" }
      ∷ record { key = "event_type"; value = "payment.created" }
      ∷ [];
}

abbrev pub policy : RetryPolicy
policy = record { max_attempts = 3; initial_backoff = 100; max_backoff = 300 }

abbrev pub create_request : CreatePaymentRequest
create_request = record {
  amount_cents = pos 1250;
  currency = "USD";
  description = "order 7";
  external_reference = "";
}

abbrev pub keyed_payment : Payment
keyed_payment = record {
  id = "p1";
  amount_cents = pos 1250;
  currency = "USD";
  status = pending;
  description = "order 7";
  external_reference = "";
  idempotency_key = "k1";
  idempotency_hash = "h1";
  created_at = 0;
  updated_at = 0;
}

abbrev pub empty_payments : PaymentDb
empty_payments = record { payments = []; outbox = [] }

abbrev pub keyed_row : PaymentRow
keyed_row = record {
  id = "p0";
  amount_cents = pos 1250;
  currency = "USD";
  status = pending;
  description = some "order 7";
  external_reference = some "ref";
  idempotency_key = some "k1";
  idempotency_hash = some "h1";
  created_at = 3;
  updated_at = 3;
}

abbrev pub keyed_payments : PaymentDb
keyed_payments = record { payments = keyed_row ∷ []; outbox = [] }
