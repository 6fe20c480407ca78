-- ===== src/Ledger/Service/Once.antt =====
-- `RecordPaymentMovementOnce` under failures, lost answers and repeated delivery.
use finflow.Base.{
  ◌≡◌, refl, sym, ap, ◌∙◌, String, Bool, true, false, some, List, [], ◌∷◌, ◌++◌, ◌⊎◌, inl, inr,
  Bool-cases,
}
use finflow.Go.Environment.{Environment}
use finflow.Go.Errors.{Sentinel, Error, sentinel, ok, err}
use finflow.Go.Strings.{trim_space, is_empty}
use finflow.Postgres.{World, Action, ◌>>=◌}
use finflow.Postgres.Atomic.{bind_ok, bind_cases}
use finflow.Ledger.Model.{Entry, PaymentMovementRequest}
use finflow.Ledger.Tables.{LedgerDb}
use finflow.Ledger.Repository.{postgres_ledger, create_transaction_once}
use finflow.Ledger.Repository.Once.{
  has_event, create_transaction_once_db, create_transaction_once_ok,
}
use finflow.Ledger.Service.{
  normalize_movement, build_payment_movement, record_payment_movement_once,
}
use finflow.Ledger.Service.Movement.{SameBooks, LeavesBooks-build, build_payment_movement_ok}
use finflow.Ledger.Service.Balanced.{
  Booked, IsDoubleEntry, IsDoubleEntry-append, movement-IsDoubleEntry,
}

err≢ok {ℓ} : {A : Type ℓ} {e : Error} {a : A} → err e ≡ ok a → ⊥
err≢ok h = cc

some_injective {ℓ} : {A : Type ℓ} {a b : A} → some a ≡ some b → a ≡ b
some_injective h = cc

false≢true : false ≡ true → ⊥
false≢true h = cc

module _ (env : Environment) where
  -- The service over PostgreSQL.
  abbrev pub once : String → String → PaymentMovementRequest → Action LedgerDb (List Entry × Bool)
  once = record_payment_movement_once env (postgres_ledger env)

  -- The call that follows the validation of the event's id and type.
  abbrev record_valid :
      String → String → PaymentMovementRequest → Action LedgerDb (List Entry × Bool)
  record_valid event_text type_text request =
      build_payment_movement env (postgres_ledger env) request >>= λ entries.
      create_transaction_once env (trim_space env event_text) (trim_space env type_text)
        (trim_space env request.payment_id) entries

  -- An invalid id or an empty type ends the call at once.
  valid_cases :
      (event_text type_text : String) (request : PaymentMovementRequest) (w : World LedgerDb)
      → let call = once event_text type_text request in
        ((e : Error) × (call w ≡ (err e, w)))
        ⊎ (call w ≡ record_valid event_text type_text request w)
  unfolding record_payment_movement_once
  valid_cases event_text type_text request w =
      elim (Bool-cases (env.parses (trim_space env event_text))) [
        | inl parsed ↦ elim (Bool-cases (is_empty (trim_space env type_text))) [
          | inl empty ↦ inl (sentinel Sentinel.validation, rw (parsed, empty))
          | inr full ↦ inr (rw (parsed, full))
        ]
        | inr refused ↦ inl (sentinel Sentinel.validation, rw refused)
      ]

  -- The event was new, is consumed now, and one movement is booked.
  abbrev pub BookedOnce : String → LedgerDb → LedgerDb → Type 0
  BookedOnce event_text db db' =
      (id : String) × (env.read_uuid (trim_space env event_text) ≡ some id)
      × (has_event id db.consumed ≡ false)
      × (has_event id db'.consumed ≡ true)
      × (payment_id : String) × Booked env payment_id db db'

  once_db :
      (event_text type_text : String) (request : PaymentMovementRequest) (w : World LedgerDb)
      → let db' = (once event_text type_text request w).1.db in
        SameBooks w.db db' ⊎ BookedOnce event_text w.db db'
  once_db event_text type_text request w =
      let build = build_payment_movement env (postgres_ledger env) request in
      let books = LeavesBooks-build env request w in
      elim (valid_cases event_text type_text request w) [
        | inl (e, same) ↦ inl (rw same (refl, refl))
        | inr same ↦
            rw same
              (elim (bind_cases build
                (λ entries.
                  create_transaction_once env (trim_space env event_text) (trim_space env type_text)
                    (trim_space env request.payment_id) entries)
                w) [
                  | inl (e, _, failed) ↦ inl (rw failed books)
                  | inr (entries, built, passed) ↦
                      rw passed
                        (elim (create_transaction_once_db env (trim_space env event_text)
                          (trim_space env type_text) (trim_space env request.payment_id) entries
                          (build w).1) [
                            | inl unchanged ↦ inl (
                              ap (λ d. d.entries) unchanged ∙ books.0,
                              ap (λ d. d.consumed) unchanged ∙ books.1,
                            )
                            | inr (id, read, rows, (stored, new, now, wrote, _)) ↦ inr (
                              id,
                              read,
                              sym (ap (λ c. has_event id c) books.1) ∙ new,
                              now,
                              (normalize_movement env request).payment_id,
                              (
                                entries,
                                rows,
                                build_payment_movement_ok env request w built,
                                stored,
                                wrote ∙ ap (λ es. es ++ rows) books.0,
                              ),
                            )
                          ])
                ])
      ]

  -- However RecordPaymentMovementOnce ends, if each transaction of the ledger debited in each
  -- currency what it credited, it still does.
  pub record_payment_movement_once-IsDoubleEntry :
      (event_text type_text : String) (request : PaymentMovementRequest) (w : World LedgerDb)
      → IsDoubleEntry w.db.entries
      → IsDoubleEntry (once event_text type_text request w).1.db.entries
  record_payment_movement_once-IsDoubleEntry event_text type_text request w h =
      elim (once_db event_text type_text request w) [
        | inl (same, _) ↦ rw same h
        | inr (_, _, _, _, _, (entries, rows, m, stored, wrote)) ↦ rw wrote (
            IsDoubleEntry-append w.db.entries rows h
              (movement-IsDoubleEntry env _ entries rows m stored))
      ]

  -- A call that returned no error has left its event among the consumed ones.
  acknowledged :
      (event_text type_text : String) (request : PaymentMovementRequest) (w : World LedgerDb)
      {answer : List Entry × Bool} (id : String)
      → env.read_uuid (trim_space env event_text) ≡ some id
      → (once event_text type_text request w).0 ≡ ok answer
      → has_event id (once event_text type_text request w).1.db.consumed ≡ true
  acknowledged event_text type_text request w id read h =
      elim (valid_cases event_text type_text request w) [
        | inl (e, same) ↦ absurd (err≢ok (sym (ap (λ p. p.0) same) ∙ h))
        | inr same ↦
            let build = build_payment_movement env (postgres_ledger env) request in
            let (entries, built, passed) =
              bind_ok build
                (λ entries.
                  create_transaction_once env (trim_space env event_text) (trim_space env type_text)
                    (trim_space env request.payment_id) entries)
                w (sym (ap (λ p. p.0) same) ∙ h) in
            let (id', read', answered) =
              create_transaction_once_ok env (trim_space env event_text) (trim_space env type_text)
                (trim_space env request.payment_id) entries (build w).1
                (sym (ap (λ p. p.0) passed) ∙ (sym (ap (λ p. p.0) same) ∙ h)) in
            rw (same, passed, some_injective (sym read ∙ read'))
              (elim answered [
                | inl (_, _, has, unchanged) ↦ ap (λ d. has_event id' d.consumed) unchanged ∙ has
                | inr (_, recorded) ↦ recorded.2
              ])
      ]

  -- Attempts for one event, each with its own type and request, over one schedule of failures.
  abbrev pub deliver :
      String → List (String × PaymentMovementRequest) → World LedgerDb → World LedgerDb
  deliver event_text [] w = w
  deliver event_text ((type_text, request) ∷ attempts) w =
      deliver event_text attempts (once event_text type_text request w).1

  -- A consumed event is never booked again.
  deliver_consumed :
      (event_text : String) (attempts : List (String × PaymentMovementRequest)) (w : World LedgerDb)
      (id : String)
      → env.read_uuid (trim_space env event_text) ≡ some id
      → has_event id w.db.consumed ≡ true
      → SameBooks w.db (deliver event_text attempts w).db
  deliver_consumed event_text [] w id read h = (refl, refl)
  deliver_consumed event_text ((type_text, request) ∷ attempts) w id read h =
      elim (once_db event_text type_text request w) [
        | inl (entries, consumed) ↦
            let rest =
              deliver_consumed event_text attempts (once event_text type_text request w).1 id read
                (ap (λ c. has_event id c) consumed ∙ h) in
            (rest.0 ∙ entries, rest.1 ∙ consumed)
        | inr booked ↦
            absurd (false≢true (sym booked.2 ∙ rw (some_injective (sym read ∙ booked.1)) at h))
      ]

  -- Attempts leave the books alone, or one of them books the event and the others nothing.
  pub deliver_db :
      (event_text : String) (attempts : List (String × PaymentMovementRequest)) (w : World LedgerDb)
      → SameBooks w.db (deliver event_text attempts w).db
        ⊎ BookedOnce event_text w.db (deliver event_text attempts w).db
  deliver_db event_text [] w = inl (refl, refl)
  deliver_db event_text ((type_text, request) ∷ attempts) w =
      first (once_db event_text type_text request w)
        (deliver_db event_text attempts (once event_text type_text request w).1)
    where
      w' : World LedgerDb
      w' = (once event_text type_text request w).1

      final : LedgerDb
      final = (deliver event_text attempts w').db

      first :
          SameBooks w.db w'.db ⊎ BookedOnce event_text w.db w'.db
          → SameBooks w'.db final ⊎ BookedOnce event_text w'.db final
          → SameBooks w.db final ⊎ BookedOnce event_text w.db final
      first (inl (entries, consumed)) (inl (entries', consumed')) =
          inl (entries' ∙ entries, consumed' ∙ consumed)
      first (inl (entries, consumed))
            (inr (id, read, new, now, payment, (es, rows, m, stored, wrote))) =
          inr (
            id,
            read,
            ap (λ c. has_event id c) (sym consumed) ∙ new,
            now,
            payment,
            (es, rows, m, stored, wrote ∙ ap (λ e. e ++ rows) entries),
          )
      first (inr (id, read, new, now, payment, (es, rows, m, stored, wrote))) rest =
          let (same, same') = deliver_consumed event_text attempts w' id read now in
          inr (
            id,
            read,
            new,
            ap (λ c. has_event id c) same' ∙ now,
            payment,
            (es, rows, m, stored, same ∙ wrote),
          )

  deliver-append :
      (event_text : String) (xs ys : List (String × PaymentMovementRequest)) (w : World LedgerDb)
      → deliver event_text (xs ++ ys) w ≡ deliver event_text ys (deliver event_text xs w)
  deliver-append event_text [] ys w = refl
  deliver-append event_text ((type_text, request) ∷ xs) ys w =
      deliver-append event_text xs ys (once event_text type_text request w).1

  -- Of an event that is not consumed yet, any attempts of RecordPaymentMovementOnce under its id,
  -- of which the last returns no error, book exactly one movement, however many of the others
  -- failed or were committed unseen.
  pub delivered_exactly_once :
      (event_text type_text : String) (request : PaymentMovementRequest)
      (attempts : List (String × PaymentMovementRequest)) (w : World LedgerDb)
      {answer : List Entry × Bool} (id : String)
      → env.read_uuid (trim_space env event_text) ≡ some id
      → has_event id w.db.consumed ≡ false
      → (once event_text type_text request (deliver event_text attempts w)).0 ≡ ok answer
      → BookedOnce event_text w.db (deliver event_text (attempts ++ (type_text, request) ∷ []) w).db
  delivered_exactly_once event_text type_text request attempts w id read new h =
      elim (deliver_db event_text (attempts ++ (type_text, request) ∷ []) w) [
        | inl (_, unchanged) ↦ absurd (
            false≢true (
              sym new
              ∙ ap (λ c. has_event id c)
                  (sym unchanged
                    ∙ ap (λ (v : World LedgerDb). v.db.consumed)
                        (deliver-append event_text attempts ((type_text, request) ∷ []) w))
              ∙ acknowledged event_text type_text request (deliver event_text attempts w) id read
                  h))
        | inr booked ↦ booked
      ]
