-- ===== src/Payments/Model.antt =====
-- services/payment-service/internal/model/payment.go. Times are `now()` of the database.
use finflow.Base.{ℕ, String}
use finflow.Base.Int.{ℤ}

-- `type PaymentStatus string` and its constants.
abbrev pub PaymentStatus : Type 0
PaymentStatus = String

abbrev pub pending : PaymentStatus
pending = "pending"

abbrev pub succeeded : PaymentStatus
succeeded = "succeeded"

abbrev pub failed : PaymentStatus
failed = "failed"

pub record Payment : Type 0 where
  pub id : String
  pub amount_cents : ℤ
  pub currency : String
  pub status : PaymentStatus
  pub description : String
  pub external_reference : String
  pub idempotency_key : String
  pub idempotency_hash : String
  pub created_at : ℕ
  pub updated_at : ℕ

pub record CreatePaymentRequest : Type 0 where
  pub amount_cents : ℤ
  pub currency : String
  pub description : String
  pub external_reference : String

pub record UpdatePaymentStatusRequest : Type 0 where
  pub status : PaymentStatus
