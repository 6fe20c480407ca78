-- ===== src/Consumer/Retry/Booking.antt =====
-- The consumer over the ledger: what the retries of one payment.created message leave in the books.
use finflow.Base.{
  ℕ, ◌<◌, ◌≡◌, refl, sym, ap, ◌∙◌, String, Bool, false, Option, none, some, List, [], ◌∷◌, ◌++◌,
  ◌⊎◌, inl, inr,
}
use finflow.Go.Environment.{Environment}
use finflow.Go.Errors.{Error, Result, ok, err}
use finflow.Go.Json.{Document}
use finflow.Go.Strings.{is_empty, trim_space}
use finflow.Postgres.{World, Action, pure, ◌>>=◌}
use finflow.Postgres.Atomic.{bind_cases}
use finflow.Ledger.Model.{Entry, PaymentMovementRequest}
use finflow.Ledger.Tables.{LedgerDb}
use finflow.Ledger.Repository.{postgres_ledger}
use finflow.Ledger.Repository.Once.{has_event}
use finflow.Ledger.Service.{record_payment_movement_once}
use finflow.Ledger.Service.Movement.{SameBooks}
use finflow.Ledger.Service.Once.{once, deliver, BookedOnce, deliver_db, delivered_exactly_once}
use finflow.Consumer.Message.{Message, header_value}
use finflow.Consumer.Payload.{PaymentCreatedPayload, decode_payment_created}
use finflow.Consumer.Handle.{
  Ledger, payment_created_event, movement_request, handle_payment_created, handle_message,
}
use finflow.Consumer.Retry.{RetryPolicy, handle_with_retry}
use finflow.Consumer.Retry.Trace.{
  Run, handled, exhausted, interrupted, again, handle_with_retry_runs,
}

err≢ok {ℓ} : {A : Type ℓ} {e : Error} {a : A} → err e ≡ ok a → ⊥
err≢ok h = cc

some≢none {ℓ} : {A : Type ℓ} {a : A} → some a ≡ none → ⊥
some≢none h = cc

module _ (env : Environment) where
  -- `NewPaymentConsumer` is given the ledger service.
  abbrev pub ledger_service : Ledger LedgerDb
  ledger_service = record {
    record_payment_movement_once = record_payment_movement_once env (postgres_ledger env);
  }

  -- A message that carries an event id, is a payment.created event and decodes.
  pub record IsPaymentCreated (m : Message Document) : Type 0 where
    pub payload : PaymentCreatedPayload
    pub has_id : is_empty (header_value m.headers "event_id") ≡ false
    pub created : header_value m.headers "event_type" ≡ payment_created_event
    pub decodes : decode_payment_created m.value ≡ ok payload

  -- Handling such a message is one call of the service, whose answer is dropped.
  abbrev service_call :
      (m : Message Document) → IsPaymentCreated m → Action LedgerDb (List Entry × Bool)
  service_call m p =
      once env (header_value m.headers "event_id") payment_created_event
        (movement_request p.payload)

  handle_message_eq :
      (m : Message Document) (p : IsPaymentCreated m) (w : World LedgerDb)
      → handle_message ledger_service m w
        ≡ (service_call m p >>= λ answer. pure {T = LedgerDb} {A = Unit {0}} tt) w
  unfolding handle_message handle_payment_created
  handle_message_eq m p w = rw (p.has_id, p.created, p.decodes)

  handle_message_called :
      (m : Message Document) (p : IsPaymentCreated m) (w w' : World LedgerDb)
      (r : Result (Unit {0}))
      → handle_message ledger_service m w ≡ (r, w')
      → ((service_call m p w).1 ≡ w')
        × (r ≡ ok tt → (answer : List Entry × Bool) × ((service_call m p w).0 ≡ ok answer))
  handle_message_called m p w w' r h =
      elim (bind_cases (service_call m p) (λ answer. pure {T = LedgerDb} {A = Unit {0}} tt) w) [
        | inl (e, failed, same) ↦
            let ends = sym same ∙ (sym (handle_message_eq m p w) ∙ h) in
            (ap (λ q. q.1) ends, λ good. absurd (err≢ok (ap (λ q. q.0) ends ∙ good)))
        | inr (answer, got, same) ↦
            let ends = sym same ∙ (sym (handle_message_eq m p w) ∙ h) in
            (ap (λ q. q.1) ends, λ good. (answer, got))
      ]

  -- The attempt that every call for the message is.
  abbrev attempt_for : (m : Message Document) → IsPaymentCreated m → String × PaymentMovementRequest
  attempt_for m p = (payment_created_event, movement_request p.payload)

  -- A run of the retries is a list of attempts, of which the last is acknowledged if the run succeeds.
  Run-delivers :
      (m : Message Document) (p : IsPaymentCreated m) (policy : RetryPolicy) {attempt last : ℕ}
      {waits : List (Option Error)} {w w' : World LedgerDb} {o : Option Error}
      → Run (handle_message ledger_service m) policy attempt waits w last o w'
      → (attempts : List (String × PaymentMovementRequest)) × (deliver env
            (header_value m.headers "event_id")
            (attempts ++ attempt_for m p ∷ [])
            w
          ≡ w')
        × (o ≡ none
            → (answer : List Entry × Bool) × ((service_call m p
                  (deliver env (header_value m.headers "event_id") attempts w)).0
                ≡ ok answer))
  Run-delivers m p policy (handled {w} {w'} called) =
      let (same, answered) = handle_message_called m p w w' (ok tt) called in
      ([], same, λ _. answered refl)
  Run-delivers m p policy (exhausted {w} {w'} {e} called _) =
      let (same, answered) = handle_message_called m p w w' (err e) called in
      ([], same, λ h. absurd (some≢none h))
  Run-delivers m p policy (interrupted {w} {w'} {e} called _ _ _) =
      let (same, answered) = handle_message_called m p w w' (err e) called in
      ([], same, λ h. absurd (some≢none h))
  Run-delivers m p policy (again {w} {w'} {e} called _ _ _ rest) =
      let (same, _) = handle_message_called m p w w' (err e) called in
      let (attempts, end, answered) = Run-delivers m p policy rest in
      (
        attempt_for m p ∷ attempts,
        ap (deliver env (header_value m.headers "event_id") (attempts ++ attempt_for m p ∷ [])) same
            ∙ end,
        λ h. rw same (answered h),
      )

  -- A payment.created message of an event that is not consumed yet: whatever fails between, the
  -- calls of handleWithRetry (of at least one attempt) leave the entries and the consumed events
  -- alone or book exactly one movement of a debit and a credit; if handleWithRetry ends without an
  -- error they have booked it.
  pub retries_book_once :
      (m : Message Document) (p : IsPaymentCreated m) (policy : RetryPolicy)
      (waits : List (Option Error)) (w : World LedgerDb) (id : String)
      → 0 < policy.max_attempts
      → env.read_uuid (trim_space env (header_value m.headers "event_id")) ≡ some id
      → has_event id w.db.consumed ≡ false
      → let (r, w') = handle_with_retry (handle_message ledger_service m) policy waits w in
        (SameBooks w.db w'.db ⊎ BookedOnce env (header_value m.headers "event_id") w.db w'.db)
        × (r.error ≡ none → BookedOnce env (header_value m.headers "event_id") w.db w'.db)
  retries_book_once m p policy waits w id some_attempt read new =
      let (attempts, end, answered) =
        Run-delivers m p policy
          (handle_with_retry_runs (handle_message ledger_service m) policy waits w some_attempt) in
      let event_id = header_value m.headers "event_id" in
      rw (← end) (
        deliver_db env event_id (attempts ++ attempt_for m p ∷ []) w,
        λ h.
            let (answer, acknowledged) = answered h in
            delivered_exactly_once env event_id payment_created_event (movement_request p.payload)
              attempts w id read new acknowledged,
      )
