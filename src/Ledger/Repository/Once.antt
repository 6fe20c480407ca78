-- ===== src/Ledger/Repository/Once.antt =====
-- `CreateTransactionOnce` of postgres_ledger_repository.go: the event that is consumed once, and what the
-- transaction leaves behind.
use finflow.Base.{
  ℕ, ◌≡◌, refl, sym, ap, ◌∙◌, String, Bool, true, false, some, List, [], ◌∷◌, ◌++◌, any, arith,
  str_eq, eq_refl, any-append, Option-cases, ◌⊎◌, inl, inr,
}
use finflow.Go.Environment.{Environment}
use finflow.Go.Errors.{wrap, Result, ok}
use finflow.Postgres.{World, pure, statement, after_begin}
use finflow.Postgres.Atomic.{statement_ok, transaction_ok, transaction_db, bind_ok}
use finflow.Ledger.Model.{Entry}
use finflow.Ledger.Tables.{LedgerDb, ConsumedEvent, consume_event_query}
use finflow.Ledger.Repository.{insert_entries, insert_new, once_body, create_transaction_once}
use finflow.Ledger.Repository.Writes.{AllStored, Extended, insert_entries_ok}

abbrev pub has_event : String → List ConsumedEvent → Bool
has_event id events = any (λ e. str_eq e.event_id id) events

once_answer :
    {created created' : List Entry} {processed processed' : Bool} {text text' : String}
    → ◌≡◌ {A = Result ((List Entry × Bool) × String)}
        (ok ((created, processed), text))
        (ok ((created', processed'), text'))
    → (processed ≡ processed') × (created ≡ created')
once_answer h = ground arith

module _ (env : Environment) where
  -- What consuming an event does: a duplicate is counted as no row and changes nothing.
  abbrev pub Consumed : String → ℕ → LedgerDb → LedgerDb → Type 0
  Consumed id n db db' =
      ((n ≡ 0) × (has_event id db.consumed ≡ true) × (db' ≡ db))
      ⊎ ((n ≡ 1)
          × (has_event id db.consumed ≡ false)
          × (has_event id db'.consumed ≡ true)
          × (db'.entries ≡ db.entries)
          × (db'.accounts ≡ db.accounts))

  consume_event_ok :
      (event_id event_type aggregate_id : String) (now : ℕ) (db : LedgerDb) {n : ℕ} {db' : LedgerDb}
      → consume_event_query env event_id event_type aggregate_id now db ≡ ok (n, db')
      → (id : String) × (env.read_uuid event_id ≡ some id) × Consumed id n db db'
  unfolding consume_event_query
  consume_event_ok event_id event_type aggregate_id now db h =
      elim (Option-cases (env.read_uuid event_id)) [
        | inl refused ↦ absurd (ground arith)
        | inr (id, e) ↦ (
          id,
          e,
          ground (
            arith,
            eq_refl id,
            any-append {0} (λ (x : ConsumedEvent). str_eq x.event_id id) db.consumed
                (record {
                  event_id = id;
                  event_type = event_type;
                  aggregate_id = aggregate_id;
                  consumed_at = now;
                }
                  ∷ []),
          ),
        )
      ]

  -- A movement that is recorded once: its rows, and its event among the consumed ones.
  abbrev pub RecordedOnce : String → List Entry → List Entry → LedgerDb → LedgerDb → Type 0
  RecordedOnce id entries rows db db' =
      AllStored env entries rows
      × (has_event id db.consumed ≡ false)
      × (has_event id db'.consumed ≡ true)
      × (db'.entries ≡ db.entries ++ rows)
      × (db'.accounts ≡ db.accounts)

  -- What `CreateTransactionOnce` answers, and what it did.
  abbrev pub Once : String → List Entry → List Entry × Bool → LedgerDb → LedgerDb → Type 0
  Once id entries (rows, processed) db db' =
      ((processed ≡ false) × (rows ≡ []) × (has_event id db.consumed ≡ true) × (db' ≡ db))
      ⊎ ((processed ≡ true) × RecordedOnce id entries rows db db')

  insert_new_zero :
      (entries : List Entry) (w : World LedgerDb)
      → insert_new env entries 0 w
        ≡ (ok (([], false), "commit duplicate ledger event transaction"), w)
  unfolding insert_new
  insert_new_zero entries w = refl

  insert_new_one :
      (entries : List Entry) (w : World LedgerDb) {created : List Entry} {processed : Bool}
      {text : String}
      → (insert_new env entries 1 w).0 ≡ ok ((created, processed), text)
      → (processed ≡ true) × Extended env entries created w.db (insert_new env entries 1 w).1.db
  unfolding insert_new
  insert_new_one entries w {created} {processed} {text} h =
      let (result, inserted, same) =
        bind_ok (insert_entries env entries [])
          (λ rows.
            pure {T = LedgerDb} {A = (List Entry × Bool) × String}
              ((rows, true), "commit idempotent ledger transaction"))
          w h in
      let (rows, result_eq, all, db_eq) = insert_entries_ok env entries [] w inserted in
      let (done, e) = once_answer (sym (ap (λ p. p.0) same) ∙ h) in
      (sym done, rw (← (sym result_eq ∙ e)) (all, ap (λ p. p.1.db) same ∙ db_eq))

  insert_new_ok :
      (id : String) (entries : List Entry) (n : ℕ) (db : LedgerDb) (w : World LedgerDb)
      {created : List Entry} {processed : Bool} {text : String}
      → Consumed id n db w.db
      → (insert_new env entries n w).0 ≡ ok ((created, processed), text)
      → Once id entries (created, processed) db (insert_new env entries n w).1.db
  insert_new_ok id entries n db w (inl (zero_rows, has, same)) h =
      let (done, e) = once_answer (rw (zero_rows, insert_new_zero entries w) at h) in
      rw (zero_rows, insert_new_zero entries w) (inl (sym done, sym e, has, same))
  insert_new_ok id entries n db w {created} (inr (one_row, new, has, same_entries, same_accounts))
        h =
      let (done, (all, db_eq)) = insert_new_one entries w (rw one_row at h) in
      rw one_row (
        inr (
          done,
          (
            all,
            new,
            ap (λ d. has_event id d.consumed) db_eq ∙ has,
            ap (λ d. d.entries) db_eq ∙ ap (λ es. es ++ created) same_entries,
            ap (λ d. d.accounts) db_eq ∙ same_accounts,
          ),
        ))

  once_body_ok :
      (event_id event_type aggregate_id : String) (entries : List Entry) (w : World LedgerDb)
      {answer : List Entry × Bool} {text : String}
      → (once_body env event_id event_type aggregate_id entries w).0 ≡ ok (answer, text)
      → (id : String) × (env.read_uuid event_id ≡ some id)
        × Once id entries answer w.db
            (once_body env event_id event_type aggregate_id entries w).1.db
  unfolding once_body
  once_body_ok event_id event_type aggregate_id entries w h =
      let consume =
        statement (wrap "record consumed ledger event")
          (consume_event_query env event_id event_type aggregate_id) in
      let (n, consumed, same) = bind_ok consume (insert_new env entries) w h in
      let (id, e, c) = consume_event_ok event_id event_type aggregate_id w.clock w.db (
        statement_ok (wrap "record consumed ledger event")
          (consume_event_query env event_id event_type aggregate_id) w consumed) in
      (
        id,
        e,
        rw (ap (λ p. p.1.db) same)
            (insert_new_ok id entries n w.db (consume w).1 c (sym (ap (λ p. p.0) same) ∙ h)),
      )

  -- `CreateTransactionOnce` changes nothing, or it records the event and a row for each entry.
  pub create_transaction_once_db :
      (event_id event_type aggregate_id : String) (entries : List Entry) (w : World LedgerDb)
      → let db' = (create_transaction_once env event_id event_type aggregate_id entries w).1.db in
        (db' ≡ w.db)
        ⊎ ((id : String) × (env.read_uuid event_id ≡ some id)
            × (rows : List Entry) × RecordedOnce id entries rows w.db db')
  unfolding create_transaction_once
  create_transaction_once_db event_id event_type aggregate_id entries w =
      elim (transaction_db "begin idempotent ledger transaction"
        (once_body env event_id event_type aggregate_id entries) w) [
          | inl same ↦ inl same
          | inr (answer, (text, returned, kept)) ↦
              let (id, e, once) =
                once_body_ok event_id event_type aggregate_id entries (after_begin w) returned in
              rw (← kept) (elim once [
                | inl (_, _, _, same) ↦ inl same
                | inr (_, recorded) ↦ inr (id, e, answer.0, recorded)
              ])
        ]

  -- An answer of CreateTransactionOnce tells what was done: not processed, without rows, where the
  -- event was consumed before, and the tables are unchanged; or processed, and the event and a row
  -- for each entry were added.
  pub create_transaction_once_ok :
      (event_id event_type aggregate_id : String) (entries : List Entry) (w : World LedgerDb)
      {answer : List Entry × Bool}
      → (create_transaction_once env event_id event_type aggregate_id entries w).0 ≡ ok answer
      → (id : String) × (env.read_uuid event_id ≡ some id)
        × Once id entries answer w.db
            (create_transaction_once env event_id event_type aggregate_id entries w).1.db
  unfolding create_transaction_once
  create_transaction_once_ok event_id event_type aggregate_id entries w h =
      let (text, returned, kept) =
        transaction_ok "begin idempotent ledger transaction"
          (once_body env event_id event_type aggregate_id entries) w h in
      let (id, e, once) =
        once_body_ok event_id event_type aggregate_id entries (after_begin w) returned in
      (id, e, rw (← kept) once)
