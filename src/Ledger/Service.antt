-- ===== src/Ledger/Service.antt =====
-- services/ledger-service/internal/service/ledger_service.go over any `LedgerRepository`.
pub mod Movement
pub mod Balanced
pub mod Once
use finflow.Base.{String, Bool, true, false, not, List, [], ◌∷◌, if◌then◌else◌}
use finflow.Base.Int.{ℤ, is_non_positive}
use finflow.Go.Environment.{Environment}
use finflow.Go.Errors.{Sentinel, sentinel, Result, ok, err, fail_if}
use finflow.Go.Errors
use finflow.Go.Strings.{is_empty, trim_space, to_upper}
use finflow.Postgres.{World, Action, pure, fail, lift, ◌>>=◌, new_uuid}
use finflow.Ledger.Model.{Direction, debit, credit, Account, Entry, Balance, PaymentMovementRequest}
use finflow.Ledger.Balance.{is_currency, validate_balanced}
use finflow.Ledger.Repository.{LedgerRepository}

abbrev pub cash_account_name : String
cash_account_name = "finflow_cash"

abbrev pub merchant_payable_account_name : String
merchant_payable_account_name = "merchant_payable"

unfoldable pub validate_payment_movement : Environment → PaymentMovementRequest → Result (Unit {0})
unfolding is_currency
validate_payment_movement env request =
    if is_empty request.payment_id
    then err (sentinel Sentinel.validation)
    else if is_non_positive request.amount_cents
    then err (sentinel Sentinel.validation)
    else if is_currency env request.currency
    then ok tt
    else err (sentinel Sentinel.validation)

-- The currency in upper case and the id, both without the spaces around them.
unfoldable pub normalize_movement : Environment → PaymentMovementRequest → PaymentMovementRequest
unfolding trim_space to_upper
normalize_movement env request = record request {
  currency = to_upper env (trim_space env request.currency);
  payment_id = trim_space env request.payment_id;
}

-- One side of a movement; the database sets the time.
abbrev pub movement_entry : String → String → String → Direction → PaymentMovementRequest → Entry
movement_entry id transaction_id account_id direction request = record {
  id = id;
  transaction_id = transaction_id;
  account_id = account_id;
  direction = direction;
  amount_cents = request.amount_cents;
  currency = request.currency;
  reference_type = "payment";
  reference_id = request.payment_id;
  created_at = 0;
}

module _ (env : Environment) {T : Type 0} (repository : LedgerRepository T) where
  fresh_id : Action T String
  fresh_id w = let (id, w') = new_uuid env w in (ok id, w')

  -- The two entries, once both accounts are there.
  unfoldable pub movement_entries :
      Account → Account → PaymentMovementRequest → Action T (List Entry)
  unfolding fresh_id new_uuid
  movement_entries cash payable request = do
    transaction_id ← fresh_id
    debit_id ← fresh_id
    credit_id ← fresh_id
    let entries =
        movement_entry debit_id transaction_id cash.id debit request
        ∷ movement_entry credit_id transaction_id payable.id credit request
        ∷ []
    checked ← lift (validate_balanced env entries)
    pure entries

  unfoldable pub build_payment_movement : PaymentMovementRequest → Action T (List Entry)
  build_payment_movement raw = do
    let request = normalize_movement env raw
    valid ← lift (validate_payment_movement env request)
    cash ← repository.ensure_account cash_account_name request.currency debit
    payable ← repository.ensure_account merchant_payable_account_name request.currency credit
    movement_entries cash payable request

  unfoldable pub record_payment_movement : PaymentMovementRequest → Action T (List Entry)
  record_payment_movement request = do
    entries ← build_payment_movement request
    repository.create_transaction entries

  unfoldable pub record_payment_movement_once :
      String → String → PaymentMovementRequest → Action T (List Entry × Bool)
  record_payment_movement_once event_text type_text request =
      let event_id = trim_space env event_text in
      let event_type = trim_space env type_text in
      if not (env.parses event_id)
      then fail (sentinel Sentinel.validation)
      else if is_empty event_type
      then fail (sentinel Sentinel.validation)
      else do
        entries ← build_payment_movement request
        repository.create_transaction_once event_id event_type (trim_space env request.payment_id)
            entries

  unfoldable pub list_balances : Action T (List Balance)
  list_balances = repository.list_balances

  unfoldable pub list_entries_by_payment_id : String → Action T (List Entry)
  list_entries_by_payment_id text =
      let payment_id = trim_space env text in
      if is_empty payment_id
      then fail (sentinel Sentinel.validation)
      else repository.list_entries_by_reference "payment" payment_id
