-- ===== src/Ledger/Repository.antt =====
-- services/ledger-service/internal/repository: the interface `LedgerRepository`, and its
-- implementation over PostgreSQL, with the transactions of `CreateTransaction` and
-- `CreateTransactionOnce`.
pub mod Writes
pub mod Once
use finflow.Base.{ℕ, String, Bool, true, false, ◌==◌, List, [], ◌∷◌, ◌++◌, if◌then◌else◌}
use finflow.Base.Int.{ℤ}
use finflow.Go.Environment.{Environment}
use finflow.Go.Errors.{Error, message, wrap, Result, ok, err}
use finflow.Postgres.{World, Action, pure, ◌>>=◌, new_uuid, statement, transaction}
use finflow.Ledger.Model.{Direction, Account, Entry, Balance}
use finflow.Ledger.Tables.{
  LedgerDb, ensure_account_query, insert_entry_query, consume_event_query, balance_rows,
  balance_before, order_by, entries_by_reference,
}

-- `type LedgerRepository interface`
pub record LedgerRepository (T : Type 0) : Type 0 where
  pub ensure_account : String → String → Direction → Action T Account
  pub create_transaction : List Entry → Action T (List Entry)
  pub create_transaction_once : String → String → String → List Entry → Action T (List Entry × Bool)
  pub list_balances : Action T (List Balance)
  pub list_entries_by_reference : String → String → Action T (List Entry)

module _ (env : Environment) where
  unfoldable pub ensure_account : String → String → Direction → Action LedgerDb Account
  ensure_account name currency normal_balance w =
      let (id, w') = new_uuid env w in
      statement (wrap "ensure ledger account")
        (ensure_account_query env id name currency normal_balance) w'

  unfoldable pub insert_entry : Entry → Action LedgerDb Entry
  insert_entry entry = statement (wrap "insert ledger entry") (insert_entry_query env entry)

  -- The loop of both transactions.
  unfoldable pub insert_entries : List Entry → List Entry → Action LedgerDb (List Entry)
  insert_entries [] created = pure created
  insert_entries (entry ∷ entries) created = do
    created_entry ← insert_entry entry
    insert_entries entries (created ++ created_entry ∷ [])

  unfoldable pub create_body : List Entry → Action LedgerDb (List Entry × String)
  create_body entries = do
    created ← insert_entries entries []
    pure (created, "commit ledger transaction")

  unfoldable pub create_transaction : List Entry → Action LedgerDb (List Entry)
  create_transaction entries = transaction "begin ledger transaction" (create_body entries)

  -- After the event: a duplicate (no row affected) writes nothing more.
  unfoldable pub insert_new : List Entry → ℕ → Action LedgerDb ((List Entry × Bool) × String)
  insert_new entries rows =
      if rows == 0 then pure (([], false), "commit duplicate ledger event transaction") else do
        created ← insert_entries entries []
        pure ((created, true), "commit idempotent ledger transaction")

  unfoldable pub once_body :
      String → String → String → List Entry → Action LedgerDb ((List Entry × Bool) × String)
  once_body event_id event_type aggregate_id entries = do
    rows ←
        statement (wrap "record consumed ledger event")
          (consume_event_query env event_id event_type aggregate_id)
    insert_new entries rows

  unfoldable pub create_transaction_once :
      String → String → String → List Entry → Action LedgerDb (List Entry × Bool)
  create_transaction_once event_id event_type aggregate_id entries =
      transaction "begin idempotent ledger transaction"
        (once_body event_id event_type aggregate_id entries)

  unfoldable pub list_balances : Action LedgerDb (List Balance)
  list_balances =
      statement (wrap "list ledger balances")
        (λ now db. ok (order_by balance_before (balance_rows db.accounts db.entries now), db))

  unfoldable pub list_entries_by_reference : String → String → Action LedgerDb (List Entry)
  list_entries_by_reference reference_type reference_id =
      statement (wrap "list ledger entries by reference")
        (λ now db. ok (entries_by_reference reference_type reference_id db.entries, db))

  -- `NewPostgresLedgerRepository`
  abbrev pub postgres_ledger : LedgerRepository LedgerDb
  postgres_ledger = record {
    ensure_account = ensure_account;
    create_transaction = create_transaction;
    create_transaction_once = create_transaction_once;
    list_balances = list_balances;
    list_entries_by_reference = list_entries_by_reference;
  }
