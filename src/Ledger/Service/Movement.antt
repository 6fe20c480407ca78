-- ===== src/Ledger/Service/Movement.antt =====
-- The two entries of a movement, and that the steps before the transaction write accounts alone.
use finflow.Base.{ℕ, ◌+◌, ◌≡◌, refl, sym, ap, ◌∙◌, String, List, [], ◌∷◌, arith, inl, inr}
use finflow.Base.Int.{ℤ}
use finflow.Go.Environment.{Environment}
use finflow.Go.Errors.{wrap, Result, ok, err}
use finflow.Postgres.{World, Action, lift, ◌>>=◌, new_uuid, continue}
use finflow.Postgres.Atomic.{statement_db, bind_ok}
use finflow.Ledger.Model.{Direction, debit, credit, Account, Entry, PaymentMovementRequest}
use finflow.Ledger.Tables.{LedgerDb, ensure_account_query}
use finflow.Ledger.Repository.{ensure_account, postgres_ledger}
use finflow.Ledger.Service.{
  cash_account_name, merchant_payable_account_name, validate_payment_movement, normalize_movement,
  movement_entry, movement_entries, build_payment_movement,
}

-- A debit and a credit of one transaction, for the same cents, currency and payment.
pub record IsMovement (payment_id : String) (entries : List Entry) : Type 0 where
  pub debit_id : String
  pub credit_id : String
  pub transaction_id : String
  pub debit_account : String
  pub credit_account : String
  pub amount : ℤ
  pub currency : String
  pub shape :
      entries
      ≡ movement_entry debit_id transaction_id debit_account debit
          (record { payment_id = payment_id; amount_cents = amount; currency = currency })
        ∷ movement_entry credit_id transaction_id credit_account credit
            (record { payment_id = payment_id; amount_cents = amount; currency = currency })
        ∷ []

-- Entries and consumed events stay as they are.
abbrev pub SameBooks : LedgerDb → LedgerDb → Type 0
SameBooks db db' = (db'.entries ≡ db.entries) × (db'.consumed ≡ db.consumed)

module _ (env : Environment) where
  ensure_account_query_books :
      (id name currency : String) (normal_balance : Direction) (now : ℕ) (db : LedgerDb)
      {a : Account} {db' : LedgerDb}
      → ensure_account_query env id name currency normal_balance now db ≡ ok (a, db')
      → SameBooks db db'
  unfolding ensure_account_query
  ensure_account_query_books id name currency normal_balance now db h = ground arith

  ensure_account_books :
      (name currency : String) (normal_balance : Direction) (w : World LedgerDb)
      → SameBooks w.db (ensure_account env name currency normal_balance w).1.db
  unfolding ensure_account new_uuid
  ensure_account_books name currency normal_balance w =
      elim (statement_db (wrap "ensure ledger account")
        (ensure_account_query env (env.new_string w.next_id) name currency normal_balance)
        (new_uuid env w).1) [
          | inl same ↦ (ap (λ d. d.entries) same, ap (λ d. d.consumed) same)
          | inr (a, ran) ↦
              ensure_account_query_books (env.new_string w.next_id) name currency normal_balance
                w.clock w.db ran
        ]

abbrev pub LeavesBooks : {A : Type 0} → Action LedgerDb A → Type 0
LeavesBooks m = (w : World LedgerDb) → SameBooks w.db (m w).1.db

module _ {A B : Type 0} where
  LeavesBooks-continue :
      (r : Result A) (f : A → Action LedgerDb B)
      → ((a : A) → LeavesBooks (f a))
      → LeavesBooks (continue r f)
  LeavesBooks-continue (ok a) f leaves w = leaves a w
  LeavesBooks-continue (err e) f leaves w = (refl, refl)

  pub LeavesBooks-bind :
      (m : Action LedgerDb A) (f : A → Action LedgerDb B)
      → LeavesBooks m
      → ((a : A) → LeavesBooks (f a))
      → LeavesBooks (m >>= f)
  LeavesBooks-bind m f first rest w =
      let (entries, consumed) = first w in
      let (entries', consumed') = LeavesBooks-continue (m w).0 f rest (m w).1 in
      (entries' ∙ entries, consumed' ∙ consumed)

module _ (env : Environment) where
  -- A successful validation gives the two entries; nothing is written.
  movement_entries_ok :
      (cash payable : Account) (request : PaymentMovementRequest) (w : World LedgerDb)
      {entries : List Entry}
      → (movement_entries env (postgres_ledger env) cash payable request w).0 ≡ ok entries
      → IsMovement request.payment_id entries
  unfolding movement_entries
  movement_entries_ok cash payable request w h = record {
    debit_id = env.new_string (w.next_id + 1);
    credit_id = env.new_string (w.next_id + 1 + 1);
    transaction_id = env.new_string w.next_id;
    debit_account = cash.id;
    credit_account = payable.id;
    amount = request.amount_cents;
    currency = request.currency;
    shape = ground arith;
  }

  LeavesBooks-movement_entries :
      (cash payable : Account) (request : PaymentMovementRequest)
      → LeavesBooks (movement_entries env (postgres_ledger env) cash payable request)
  unfolding movement_entries
  LeavesBooks-movement_entries cash payable request w = ground arith

  pub LeavesBooks-build :
      (request : PaymentMovementRequest)
      → LeavesBooks (build_payment_movement env (postgres_ledger env) request)
  unfolding build_payment_movement
  LeavesBooks-build raw =
      let request = normalize_movement env raw in
      LeavesBooks-bind (lift (validate_payment_movement env request)) _ (λ w. (refl, refl))
        (λ valid.
          LeavesBooks-bind (ensure_account env cash_account_name request.currency debit) _
            (ensure_account_books env cash_account_name request.currency debit)
            (λ cash.
              LeavesBooks-bind
                (ensure_account env merchant_payable_account_name request.currency credit) _
                (ensure_account_books env merchant_payable_account_name request.currency credit)
                (λ payable. LeavesBooks-movement_entries cash payable request)))

  ok_of_same_answer {ℓ} :
      {A : Type ℓ} {p q : Result A × World LedgerDb} {a : A} → p ≡ q → p.0 ≡ ok a → q.0 ≡ ok a
  ok_of_same_answer same h = sym (ap (λ p. p.0) same) ∙ h

  -- What the service hands to the repository is a movement of the payment.
  pub build_payment_movement_ok :
      (raw : PaymentMovementRequest) (w : World LedgerDb) {entries : List Entry}
      → (build_payment_movement env (postgres_ledger env) raw w).0 ≡ ok entries
      → IsMovement (normalize_movement env raw).payment_id entries
  unfolding build_payment_movement
  build_payment_movement_ok raw w h =
      let request = normalize_movement env raw in
      let (valid, validated, same) = bind_ok (lift (validate_payment_movement env request)) _ w h in
      let (cash, ensured, same') =
        bind_ok (ensure_account env cash_account_name request.currency debit) _ w
          (ok_of_same_answer same h) in
      let w' = (ensure_account env cash_account_name request.currency debit w).1 in
      let (payable, ensured', same'') =
        bind_ok (ensure_account env merchant_payable_account_name request.currency credit) _ w'
          (ok_of_same_answer same' (ok_of_same_answer same h)) in
      movement_entries_ok cash payable request
        (ensure_account env merchant_payable_account_name request.currency credit w').1
        (ok_of_same_answer same'' (ok_of_same_answer same' (ok_of_same_answer same h)))
