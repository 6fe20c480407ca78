-- ===== src/Ledger/Model.antt =====
-- services/ledger-service/internal/model/ledger.go. Times are `now()` of the database.
use finflow.Base.{ℕ, String, Bool, true, false, str_eq}
use finflow.Base.Int.{ℤ}

-- `type Direction string`
pub data Direction : Type 0 where
  debit credit : Direction
  other : String → Direction

abbrev pub same_direction : Direction → Direction → Bool
same_direction debit debit = true
same_direction credit credit = true
same_direction (other s) (other t) = str_eq s t
same_direction _ _ = false

pub record Account : Type 0 where
  pub id : String
  pub name : String
  pub currency : String
  pub normal_balance : Direction
  pub created_at : ℕ

pub record Entry : Type 0 where
  pub id : String
  pub transaction_id : String
  pub account_id : String
  pub direction : Direction
  pub amount_cents : ℤ
  pub currency : String
  pub reference_type : String
  pub reference_id : String
  pub created_at : ℕ

pub record Balance : Type 0 where
  pub account_id : String
  pub account_name : String
  pub currency : String
  pub amount_cents : ℤ
  pub as_of : ℕ

pub record PaymentMovementRequest : Type 0 where
  pub payment_id : String
  pub amount_cents : ℤ
  pub currency : String
