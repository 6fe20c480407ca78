-- ===== src/Ledger/Repository/Writes.antt =====
-- What each statement of the ledger's repository writes when it succeeds, and what the transactions
-- leave behind in every case.
use finflow.Base.{
  ℕ, ◌≡◌, sym, ap, ◌∙◌, String, true, some, List, [], ◌∷◌, ◌++◌, arith, ◌⊎◌, inl, inr,
}
use mathlib.Core.List.{append-nil, append_assoc}
use finflow.Base.Int.{pos, pos_part}
use finflow.Go.Environment.{Environment}
use finflow.Go.Errors.{wrap, Result, ok}
use finflow.Postgres.{World, pure, after_begin}
use finflow.Postgres.Atomic.{statement_ok, transaction_db, bind_ok}
use finflow.Ledger.Model.{Entry}
use finflow.Ledger.Tables.{LedgerDb, check_direction, insert_entry_query}
use finflow.Ledger.Repository.{insert_entry, insert_entries, create_body, create_transaction}

-- A row of ledger_entries that stands for an entry that was passed in.
pub record IsStored (env : Environment) (entry row : Entry) : Type 0 where
  pub transaction : env.read_uuid entry.transaction_id ≡ some row.transaction_id
  pub account : env.read_uuid entry.account_id ≡ some row.account_id
  pub direction : row.direction ≡ entry.direction
  pub amount : row.amount_cents ≡ entry.amount_cents
  pub currency : row.currency ≡ entry.currency
  pub reference_type : row.reference_type ≡ entry.reference_type
  pub reference_id : row.reference_id ≡ entry.reference_id
  pub positive : row.amount_cents ≡ pos (pos_part row.amount_cents)
  pub known : check_direction row.direction ≡ true

abbrev pub AllStored : Environment → List Entry → List Entry → Type 0
AllStored env [] [] = Unit
AllStored env (entry ∷ entries) (row ∷ rows) = IsStored env entry row × AllStored env entries rows
AllStored env [] (row ∷ rows) = ⊥
AllStored env (entry ∷ entries) [] = ⊥

fst_of_ok {ℓ} :
    {A B : Type ℓ} {a a' : A} {b b' : B}
    → ◌≡◌ {A = Result (A × B)} (ok (a, b)) (ok (a', b'))
    → a ≡ a'
fst_of_ok h = cc

module _ (env : Environment) where
  insert_entry_query_ok :
      (entry : Entry) (now : ℕ) (db : LedgerDb) {row : Entry} {db' : LedgerDb}
      → insert_entry_query env entry now db ≡ ok (row, db')
      → IsStored env entry row × (db' ≡ record db { entries = db.entries ++ row ∷ [] })
  unfolding insert_entry_query
  insert_entry_query_ok entry now db h = ground arith

  insert_entry_ok :
      (entry : Entry) (w : World LedgerDb) {row : Entry}
      → (insert_entry env entry w).0 ≡ ok row
      → IsStored env entry row
        × ((insert_entry env entry w).1.db ≡ record w.db { entries = w.db.entries ++ row ∷ [] })
  unfolding insert_entry
  insert_entry_ok entry w h =
      insert_entry_query_ok entry w.clock w.db
        (statement_ok (wrap "insert ledger entry") (insert_entry_query env entry) w h)

  -- The loop inserts a row for each entry, in order, and returns the rows.
  pub insert_entries_ok :
      (entries created : List Entry) (w : World LedgerDb) {result : List Entry}
      → (insert_entries env entries created w).0 ≡ ok result
      → (rows : List Entry) × (result ≡ created ++ rows)
        × AllStored env entries rows
        × ((insert_entries env entries created w).1.db
            ≡ record w.db { entries = w.db.entries ++ rows })
  unfolding insert_entries
  insert_entries_ok [] created w {result} h = ([], rw append-nil (ground arith), tt, rw append-nil)
  insert_entries_ok (entry ∷ entries) created w h =
      let (row, inserted, same) =
        bind_ok (insert_entry env entry) (λ c. insert_entries env entries (created ++ c ∷ [])) w
          h in
      let (stored, wrote) = insert_entry_ok entry w inserted in
      let (rows, result_eq, all, db_eq) =
        insert_entries_ok entries (created ++ row ∷ []) (insert_entry env entry w).1
          (sym (ap (λ p. p.0) same) ∙ h) in
      (
        row ∷ rows,
        result_eq ∙ append_assoc created (row ∷ []) rows,
        (stored, all),
        ap (λ p. p.1.db) same ∙ db_eq ∙ added (insert_entry env entry w).1.db row rows wrote,
      )
    where
      added :
          (db : LedgerDb) (row : Entry) (rows : List Entry)
          → db ≡ record w.db { entries = w.db.entries ++ row ∷ [] }
          → record db { entries = db.entries ++ rows }
            ≡ record w.db { entries = w.db.entries ++ row ∷ rows }
      added db row rows wrote =
          rw wrote
            (ap (λ es. record w.db { entries = es }) (append_assoc w.db.entries (row ∷ []) rows))

  -- The tables after a committed movement.
  abbrev pub Extended : List Entry → List Entry → LedgerDb → LedgerDb → Type 0
  Extended entries rows db db' =
      AllStored env entries rows × (db' ≡ record db { entries = db.entries ++ rows })

  create_body_ok :
      (entries : List Entry) (w : World LedgerDb) {created : List Entry} {text : String}
      → (create_body env entries w).0 ≡ ok (created, text)
      → Extended entries created w.db (create_body env entries w).1.db
  unfolding create_body
  create_body_ok entries w h =
      let (result, inserted, same) =
        bind_ok (insert_entries env entries [])
          (λ rows.
            pure {T = LedgerDb} {A = List Entry × String} (rows, "commit ledger transaction"))
          w h in
      let (rows, result_eq, all, db_eq) = insert_entries_ok entries [] w inserted in
      let e : rows ≡ _ = sym result_eq ∙ fst_of_ok (sym (ap (λ p. p.0) same) ∙ h) in
      rw (← e) (all, ap (λ p. p.1.db) same ∙ db_eq)

  -- `CreateTransaction` adds a row for each entry, or changes nothing.
  pub create_transaction_db :
      (entries : List Entry) (w : World LedgerDb)
      → let db' = (create_transaction env entries w).1.db in
        (db' ≡ w.db) ⊎ ((rows : List Entry) × Extended entries rows w.db db')
  unfolding create_transaction
  create_transaction_db entries w =
      elim (transaction_db "begin ledger transaction" (create_body env entries) w) [
        | inl same ↦ inl same
        | inr (rows, (text, returned, kept)) ↦
            inr (rows, rw kept at (create_body_ok entries (after_begin w) returned))
      ]
