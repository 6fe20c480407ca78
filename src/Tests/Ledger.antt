-- ===== src/Tests/Ledger.antt =====
-- The ledger service's theorems on the concrete inputs.
use finflow.Base.{◌≡◌, ◌⊎◌, ◌↔◌, ◌≤◌, refl, arith, String, true, some, List, [], ◌∷◌, length}
use finflow.Go.Errors.{ok}
use finflow.Go.Strings.{trim_space, every, map_chars, to_upper, trim_left, trim_right}
use finflow.Base.Int.{add_int64, sub_int64}
use finflow.Postgres.{statement, transaction, new_uuid}
use finflow.Postgres.{World}
use finflow.Ledger.Model.{Direction, Entry, debit, credit}
use finflow.Ledger.Tables.{LedgerDb, ensure_account_query, consume_event_query, insert_entry_query}
use finflow.Ledger.Balance.{
  validate_balanced, all_zero, is_currency, is_known_direction, move_total, sum_entries,
  update_total,
}
use finflow.Ledger.Balance.Exact.{
  sum_of, IsBalancedMod, AllEntries, validate_balanced_iff, validate_balanced_exact,
}
use finflow.Ledger.Repository.{
  postgres_ledger, create_transaction_once, ensure_account, once_body, insert_new, insert_entries,
  insert_entry,
}
use finflow.Ledger.Repository.Once.{Once, create_transaction_once_ok}
use finflow.Ledger.Service.{
  movement_entry, record_payment_movement, record_payment_movement_once, build_payment_movement,
  validate_payment_movement, normalize_movement, movement_entries,
}
use finflow.Ledger.Service.Movement.{SameBooks}
use finflow.Ledger.Service.Balanced.{IsDoubleEntry, record_payment_movement-IsDoubleEntry}
use finflow.Ledger.Service.Once.{
  once, deliver, BookedOnce, record_payment_movement_once-IsDoubleEntry, deliver_db,
  delivered_exactly_once,
}
use finflow.Tests.Inputs.{ascii, world, empty_ledger, movement, lossy}

abbrev two_sides : List Entry
two_sides =
    movement_entry "d" "t" "cash" debit movement
    ∷ movement_entry "c" "t" "payable" credit movement
    ∷ []

validate_balanced_iff_example :
    (validate_balanced ascii two_sides ≡ ok tt)
    ↔ ((2 ≤ length two_sides) × AllEntries ascii two_sides × IsBalancedMod two_sides)
validate_balanced_iff_example = validate_balanced_iff ascii two_sides

validate_balanced_exact_example : sum_of debit "USD" two_sides ≡ sum_of credit "USD" two_sides
unfolding validate_balanced is_currency
validate_balanced_exact_example =
    validate_balanced_exact ascii two_sides "USD" (omega arith) (omega arith) refl

record_payment_movement-IsDoubleEntry_example :
    IsDoubleEntry
      (record_payment_movement ascii
        (postgres_ledger ascii)
        movement
        (world empty_ledger lossy)).1.db.entries
record_payment_movement-IsDoubleEntry_example =
    record_payment_movement-IsDoubleEntry ascii movement (world empty_ledger lossy) (λ t c. refl)

record_payment_movement_once-IsDoubleEntry_example :
    IsDoubleEntry
      (once ascii "e1" "payment.created" movement (world empty_ledger lossy)).1.db.entries
record_payment_movement_once-IsDoubleEntry_example =
    record_payment_movement_once-IsDoubleEntry ascii "e1" "payment.created" movement
      (world empty_ledger lossy) (λ t c. refl)

deliver_db_example :
    SameBooks empty_ledger
      (deliver ascii "e1" (("payment.created", movement) ∷ []) (world empty_ledger lossy)).db
    ⊎ BookedOnce ascii "e1" empty_ledger
        (deliver ascii "e1" (("payment.created", movement) ∷ []) (world empty_ledger lossy)).db
deliver_db_example =
    deliver_db ascii "e1" (("payment.created", movement) ∷ []) (world empty_ledger lossy)

delivered_exactly_once_example :
    BookedOnce ascii "e1" empty_ledger
      (deliver ascii "e1"
        (("payment.created", movement) ∷ ("payment.created", movement) ∷ [])
        (world empty_ledger lossy)).db
unfolding trim_space record_payment_movement_once build_payment_movement validate_payment_movement
    normalize_movement ensure_account statement new_uuid ensure_account_query movement_entries
    validate_balanced create_transaction_once transaction once_body consume_event_query insert_new
    insert_entries add_int64 sub_int64 every map_chars to_upper trim_left trim_right all_zero
    is_currency is_known_direction move_total sum_entries update_total insert_entry
    insert_entry_query
delivered_exactly_once_example =
    delivered_exactly_once ascii "e1" "payment.created" movement
      (("payment.created", movement) ∷ []) (world empty_ledger lossy) "e1" refl refl refl

-- Both accounts are there.
abbrev opened : World LedgerDb
opened =
    world
      (record {
        accounts =
            record {
              id = "cash";
              name = "finflow_cash";
              currency = "USD";
              normal_balance = debit;
              created_at = 1;
            }
            ∷ record {
              id = "payable";
              name = "merchant_payable";
              currency = "USD";
              normal_balance = credit;
              created_at = 1;
            }
            ∷ [];
        entries = [];
        consumed = [];
      })
      []

abbrev stored : Direction → String → String → Entry
stored direction id account_id = record (movement_entry id "t" account_id direction movement) {
  created_at = 7;
}

create_transaction_once_ok_example :
    (id : String) × (ascii.read_uuid "e1" ≡ some id)
    × Once ascii id two_sides
        (stored debit "d" "cash" ∷ stored credit "c" "payable" ∷ [], true)
        opened.db
        (create_transaction_once ascii "e1" "payment.created" "p1" two_sides opened).1.db
unfolding create_transaction_once transaction once_body statement consume_event_query insert_new
    insert_entries insert_entry insert_entry_query
create_transaction_once_ok_example =
    create_transaction_once_ok ascii "e1" "payment.created" "p1" two_sides opened refl
