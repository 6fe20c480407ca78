-- ===== src/Ledger/Tables.antt =====
-- The ledger's tables (migrations/000003 and 000005) and the statements that
-- services/ledger-service/internal/repository/postgres_ledger_repository.go runs on them: each takes
-- the time of its transaction and the tables to an error, or to its result and the new tables.
use finflow.Base.{
  ℕ, String, Bool, true, false, not, ◌&&◌, ◌||◌, none, some, List, [], ◌∷◌, ◌++◌, any, find, select,
  str_eq, ltb, if◌then◌else◌,
}
use finflow.Base.Int.{ℤ, pos, ◌+ℤ◌, ◌-ℤ◌, is_non_positive}
use finflow.Go.Environment.{Environment}
use finflow.Go.Errors.{message, Result, ok, err, ◌>>=◌, ◌>>◌, fail_if}
use finflow.Ledger.Model.{Direction, debit, credit, other, same_direction, Account, Entry, Balance}
use Prim.Native.Nat.{Ordering}
use Prim.Native.String.{compare}

pub record ConsumedEvent : Type 0 where
  pub event_id : String
  pub event_type : String
  pub aggregate_id : String
  pub consumed_at : ℕ

pub record LedgerDb : Type 0 where
  pub accounts : List Account
  pub entries : List Entry
  pub consumed : List ConsumedEvent

-- A text bound to a column of type UUID.
abbrev pub uuid_column : Environment → String → Result String
uuid_column env text = elim (env.read_uuid text) [
  | some id ↦ ok id
  | none ↦ err (message "invalid input syntax for type uuid")
]

-- CHECK (direction IN ('debit', 'credit'))
abbrev pub check_direction : Direction → Bool
check_direction debit = true
check_direction credit = true
check_direction (other s) = false

-- INSERT INTO ledger_accounts ... ON CONFLICT (name, currency) DO UPDATE SET name = EXCLUDED.name:
-- the update writes the name that the row has.
unfoldable pub ensure_account_query :
    Environment → String → String → String → Direction → ℕ → LedgerDb → Result (Account × LedgerDb)
ensure_account_query env id_text name currency normal_balance now db = do
  id ← uuid_column env id_text
  fail_if (not (check_direction normal_balance)) (message "check constraint")
  elim (find (λ a. str_eq a.name name && str_eq a.currency currency) db.accounts) [
    | some a ↦ ok (a, db)
    | none ↦ do
      fail_if (any (λ a. str_eq a.id id) db.accounts) (message "duplicate key")
      let row : Account = record {
        id = id;
        name = name;
        currency = currency;
        normal_balance = normal_balance;
        created_at = now;
      }
      ok (row, record db { accounts = db.accounts ++ row ∷ [] })
  ]

-- INSERT INTO ledger_entries ... RETURNING: the account must exist, the direction and the amount
-- pass the CHECK constraints, and the id is new.
unfoldable pub insert_entry_query : Environment → Entry → ℕ → LedgerDb → Result (Entry × LedgerDb)
insert_entry_query env entry now db = do
  id ← uuid_column env entry.id
  transaction_id ← uuid_column env entry.transaction_id
  account_id ← uuid_column env entry.account_id
  fail_if (not (check_direction entry.direction) || is_non_positive entry.amount_cents)
      (message "check constraint")
  fail_if (any (λ e. str_eq e.id id) db.entries) (message "duplicate key")
  fail_if (not (any (λ a. str_eq a.id account_id) db.accounts)) (message "foreign key")
  let row : Entry = record entry {
    id = id;
    transaction_id = transaction_id;
    account_id = account_id;
    created_at = now;
  }
  ok (row, record db { entries = db.entries ++ row ∷ [] })

-- INSERT INTO consumed_ledger_events ... ON CONFLICT (event_id) DO NOTHING, and `RowsAffected`.
unfoldable pub consume_event_query :
    Environment → String → String → String → ℕ → LedgerDb → Result (ℕ × LedgerDb)
consume_event_query env event_text event_type aggregate_id now db = do
  event_id ← uuid_column env event_text
  let row : ConsumedEvent = record {
    event_id = event_id;
    event_type = event_type;
    aggregate_id = aggregate_id;
    consumed_at = now;
  }
  if any (λ e. str_eq e.event_id event_id) db.consumed
      then ok (0, db)
      else ok (1, record db { consumed = db.consumed ++ row ∷ [] })

-- CASE WHEN e.direction = a.normal_balance THEN e.amount_cents ELSE -e.amount_cents END, summed.
unfoldable pub account_sum : Account → List Entry → ℤ
account_sum a [] = pos 0
account_sum a (e ∷ entries) =
    if not (str_eq e.account_id a.id)
    then account_sum a entries
    else if same_direction e.direction a.normal_balance
    then account_sum a entries +ℤ e.amount_cents
    else account_sum a entries -ℤ e.amount_cents

abbrev pub text_before : String → String → Bool
text_before s t = elim (compare s t) [ Ordering.lt ↦ true | _ ↦ false ]

-- ORDER BY, as an insertion into the ordered rows.
unfoldable pub insert_ordered : {A : Type 0} → (A → A → Bool) → A → List A → List A
insert_ordered before x [] = x ∷ []
insert_ordered before x (y ∷ ys) = if before x y then x ∷ y ∷ ys else y ∷ insert_ordered before x ys

unfoldable pub order_by : {A : Type 0} → (A → A → Bool) → List A → List A
unfolding insert_ordered
order_by before [] = []
order_by before (x ∷ xs) = insert_ordered before x (order_by before xs)

abbrev pub balance_before : Balance → Balance → Bool
balance_before a b =
    text_before a.account_name b.account_name
    || str_eq a.account_name b.account_name && text_before a.currency b.currency

unfoldable pub balance_rows : List Account → List Entry → ℕ → List Balance
unfolding account_sum
balance_rows [] entries now = []
balance_rows (a ∷ accounts) entries now =
    record {
      account_id = a.id;
      account_name = a.name;
      currency = a.currency;
      amount_cents = account_sum a entries;
      as_of = now;
    }
    ∷ balance_rows accounts entries now

abbrev pub entry_before : Entry → Entry → Bool
entry_before d e =
    ltb d.created_at e.created_at || not (ltb e.created_at d.created_at) && text_before d.id e.id

-- SELECT ... WHERE reference_type = $1 AND reference_id = $2 ORDER BY created_at, id
unfoldable pub entries_by_reference : String → String → List Entry → List Entry
unfolding order_by
entries_by_reference reference_type reference_id entries = order_by entry_before (
    select (λ e. str_eq e.reference_type reference_type && str_eq e.reference_id reference_id)
      entries)
