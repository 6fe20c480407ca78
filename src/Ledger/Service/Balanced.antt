-- ===== src/Ledger/Service/Balanced.antt =====
-- Double entry: in each transaction and currency the cents debited are the cents credited, and no run
-- of the service changes that.
use finflow.Base.{
  ℕ, ◌+◌, ◌≡◌, refl, ap, ◌∙◌, String, ◌&&◌, List, [], ◌∷◌, ◌++◌, arith, str_eq, if◌then◌else◌, ◌⊎◌,
  inl, inr,
}
use finflow.Base.Int.{pos_part}
use finflow.Go.Environment.{Environment}
use finflow.Postgres.{World}
use finflow.Postgres.Atomic.{bind_cases}
use finflow.Ledger.Model.{Direction, debit, credit, same_direction, Entry, PaymentMovementRequest}
use finflow.Ledger.Tables.{LedgerDb}
use finflow.Ledger.Repository.{postgres_ledger, create_transaction}
use finflow.Ledger.Repository.Writes.{IsStored, AllStored, create_transaction_db}
use finflow.Ledger.Service.{normalize_movement, build_payment_movement, record_payment_movement}
use finflow.Ledger.Service.Movement.{
  IsMovement, SameBooks, LeavesBooks-build, build_payment_movement_ok,
}

-- The cents that a transaction posts in one direction and currency.
abbrev pub posted : Direction → String → String → List Entry → ℕ
posted d transaction_id c [] = 0
posted d transaction_id c (e ∷ entries) =
    (if same_direction e.direction d
        && str_eq e.transaction_id transaction_id
        && str_eq e.currency c
      then pos_part e.amount_cents
      else 0)
    + posted d transaction_id c entries

abbrev pub IsDoubleEntry : List Entry → Type 0
IsDoubleEntry entries =
    (transaction_id c : String)
    → posted debit transaction_id c entries ≡ posted credit transaction_id c entries

posted-append :
    (d : Direction) (t c : String) (xs ys : List Entry)
    → posted d t c (xs ++ ys) ≡ posted d t c xs + posted d t c ys
posted-append d t c [] ys = omega arith
posted-append d t c (x ∷ xs) ys = omega (arith, posted-append d t c xs ys)

pub IsDoubleEntry-append :
    (xs ys : List Entry) → IsDoubleEntry xs → IsDoubleEntry ys → IsDoubleEntry (xs ++ ys)
IsDoubleEntry-append xs ys hx hy t c =
    omega (arith, hx t c, hy t c, posted-append debit t c xs ys, posted-append credit t c xs ys)

module _ (env : Environment) where
  two_rows :
      (debit_entry credit_entry : Entry) (rows : List Entry)
      → AllStored env (debit_entry ∷ credit_entry ∷ []) rows
      → (d : Entry) × (c : Entry) × (rows ≡ d ∷ c ∷ [])
        × IsStored env debit_entry d
        × IsStored env credit_entry c
  two_rows e f [] h = absurd h
  two_rows e f (d ∷ []) h = absurd h.1
  two_rows e f (d ∷ c ∷ []) h = (d, c, refl, h.0, h.1.0)
  two_rows e f (d ∷ c ∷ x ∷ rows) h = absurd h.1.1

  -- The rows of a movement are a double entry.
  pub movement-IsDoubleEntry :
      (payment_id : String) (entries rows : List Entry)
      → IsMovement payment_id entries
      → AllStored env entries rows
      → IsDoubleEntry rows
  movement-IsDoubleEntry payment_id entries rows m stored t c =
      let (d, k, e, sd, sk) = two_rows _ _ rows (rw m.shape at stored) in rw e (ground arith)

  -- What one call did to the books: nothing, or the rows of one movement.
  abbrev pub Booked : String → LedgerDb → LedgerDb → Type 0
  Booked payment_id db db' =
      (entries : List Entry) × (rows : List Entry) × IsMovement payment_id entries
      × AllStored env entries rows
      × (db'.entries ≡ db.entries ++ rows)

  movement_db :
      (request : PaymentMovementRequest) (w : World LedgerDb)
      → let db' = (record_payment_movement env (postgres_ledger env) request w).1.db in
        SameBooks w.db db' ⊎ Booked (normalize_movement env request).payment_id w.db db'
  unfolding record_payment_movement
  movement_db request w =
      let build = build_payment_movement env (postgres_ledger env) request in
      let books = LeavesBooks-build env request w in
      elim (bind_cases build (create_transaction env) w) [
        | inl (e, _, same) ↦ inl (rw same books)
        | inr (entries, built, same) ↦
            rw same (elim (create_transaction_db env entries (build w).1) [
              | inl unchanged ↦ inl (
                ap (λ d. d.entries) unchanged ∙ books.0,
                ap (λ d. d.consumed) unchanged ∙ books.1,
              )
              | inr (rows, (stored, wrote)) ↦ inr (
                entries,
                rows,
                build_payment_movement_ok env request w built,
                stored,
                ap (λ d. d.entries) wrote ∙ ap (λ es. es ++ rows) books.0,
              )
            ])
      ]

  -- However RecordPaymentMovement ends, if each transaction of the ledger debited in each currency
  -- what it credited, it still does.
  pub record_payment_movement-IsDoubleEntry :
      (request : PaymentMovementRequest) (w : World LedgerDb)
      → IsDoubleEntry w.db.entries
      → IsDoubleEntry (record_payment_movement env (postgres_ledger env) request w).1.db.entries
  record_payment_movement-IsDoubleEntry request w h = elim (movement_db request w) [
    | inl (same, _) ↦ rw same h
    | inr (entries, rows, m, stored, wrote) ↦
        rw wrote (
          IsDoubleEntry-append w.db.entries rows h (movement-IsDoubleEntry _ entries rows m stored))
  ]
