-- ===== src/Payments/Lifecycle.antt =====
-- The payment service over PostgreSQL: what one request can do to the tables, and what holds after any
-- sequence of requests.
use finflow.Base.{
  ◌≡◌, refl, ap, ◌∙◌, String, Bool, true, arith, str_eq, eq_iff, ◌⊎◌, inl, inr, Bool-cases,
}
use finflow.Go.Environment.{Environment}
use finflow.Go.Errors.{Error, Sentinel, Result, ok, err}
use finflow.Go.Strings.{trim_space, to_lower}
use finflow.Postgres.{World, Action, pure, ◌>>=◌, new_uuid}
use finflow.Postgres.Atomic.{bind_cases}
use finflow.Payments.Model.{
  PaymentStatus, Payment, CreatePaymentRequest, UpdatePaymentStatusRequest, pending, succeeded,
  failed,
}
use finflow.Payments.Tables.{PaymentDb}
use finflow.Payments.Repository.{PaymentRepository, postgres_payments}
use finflow.Payments.Repository as Repository
use finflow.Payments.Repository.Writes.{Inserted}
use finflow.Payments.Repository.NotFound.{AllForeign}
use finflow.Payments.Repository.Create.{create_db}
use finflow.Payments.Repository.Update.{Changed, update_status_db, get_by_id_db}
use finflow.Payments.Service.{
  CreatePaymentResult, validate_create_payment, is_known_status, can_transition, normalize_create,
  new_payment, mapped, create_valid, create, change_status, update_status,
}

-- The two final statuses.
abbrev pub IsFinal : PaymentStatus → Type 0
IsFinal status = (status ≡ succeeded) ⊎ (status ≡ failed)

-- The service's transitions.
pub can_transition_iff :
    (source target : PaymentStatus)
    → can_transition source target ≡ true
    → (source ≡ pending) × IsFinal target
unfolding can_transition
can_transition_iff source target h =
    ground (arith, eq_iff source pending, eq_iff target succeeded, eq_iff target failed)

bind_pure_db :
    {A B : Type 0} (m : Action PaymentDb A) (f : A → B) (w : World PaymentDb)
    → ((m >>= λ a. pure {T = PaymentDb} (f a)) w).1.db ≡ (m w).1.db
bind_pure_db m f w = elim (bind_cases m (λ a. pure {T = PaymentDb} (f a)) w) [
  | inl (e, _, same) ↦ ap (λ q. q.1.db) same
  | inr (a, _, same) ↦ ap (λ q. q.1.db) same
]

module _ (env : Environment) where
  -- `Create` changes nothing, or adds a pending payment together with its event, where the driver's
  -- errors are its own.
  pub create_inserts :
      (request : CreatePaymentRequest) (key : String) (w : World PaymentDb)
      → AllForeign w.schedule
      → let db' = (create env (postgres_payments env) request key w).1.db in
        (db' ≡ w.db)
        ⊎ ((payment : Payment) × (payment.status ≡ pending) × Inserted env payment w.db db')
  unfolding create new_uuid
  create_inserts raw key_text w foreign =
      let request = normalize_create env raw in
      let key = trim_space env key_text in
      elim (validation_cases (validate_create_payment env request key)) [
        | inl (e, refused) ↦ inl (rw refused)
        | inr accepted ↦ rw accepted (
            let payment = new_payment env (env.new_string w.next_id) request key in
            let answered : Payment × Bool → CreatePaymentResult =
              λ p. record { payment = p.0; created = p.1 } in
            rw (bind_pure_db (create_valid env (postgres_payments env) request key) answered w)
              (elim (create_db env payment (new_uuid env w).1 foreign) [
                | inl same ↦ inl same
                | inr inserted ↦ inr (payment, refl, inserted)
              ]))
      ]
    where
      validation_cases : (r : Result (Unit {0})) → ((e : Error) × (r ≡ err e)) ⊎ (r ≡ ok tt)
      validation_cases (ok tt) = inr refl
      validation_cases (err e) = inl (e, refl)

  change_status_changes :
      (id : String) (status : PaymentStatus) (current : Payment) (w : World PaymentDb)
      → let db' = (change_status env (postgres_payments env) id status current w).1.db in
        (db' ≡ w.db)
        ⊎ ((id_text : String) × (target : PaymentStatus) × IsFinal target
            × Changed env id_text pending target w.db db')
  unfolding change_status
  change_status_changes id status current w = elim (Bool-cases (str_eq current.status status)) [
    | inl same ↦ inl (rw same)
    | inr differs ↦ elim (Bool-cases (can_transition current.status status)) [
      | inr forbidden ↦ inl (rw (differs, forbidden))
      | inl allowed ↦
          rw (differs, allowed)
            (let (is_pending, is_final) = can_transition_iff current.status status allowed in
              rw is_pending (elim (update_status_db env id pending status w) [
                | inl same ↦ inl same
                | inr changed ↦ inr (id, status, is_final, changed)
              ]))
    ]
  ]

  -- UpdateStatus of the service changes nothing, or makes one pending payment succeeded or failed
  -- together with the event of the change.
  pub update_status_changes :
      (id : String) (request : UpdatePaymentStatusRequest) (w : World PaymentDb)
      → let db' = (update_status env (postgres_payments env) id request w).1.db in
        (db' ≡ w.db)
        ⊎ ((id_text : String) × (status : PaymentStatus) × IsFinal status
            × Changed env id_text pending status w.db db')
  unfolding update_status
  update_status_changes id_text request w =
      let id = trim_space env id_text in
      let status = to_lower env (trim_space env request.status) in
      elim (Bool-cases (env.parses id)) [
        | inr refused ↦ inl (rw refused)
        | inl parsed ↦ elim (Bool-cases (is_known_status status)) [
          | inr unknown ↦ inl (rw (parsed, unknown))
          | inl known ↦
              rw (parsed, known)
                (let read =
                    mapped env (postgres_payments env) Sentinel.payment_not_found
                      (Repository.get_by_id env id) in
                  let change = change_status env (postgres_payments env) id status in
                  let unread = get_by_id_db env id w in
                  elim (bind_cases read change w) [
                    | inl (e, _, same) ↦ inl (ap (λ q. q.1.db) same ∙ unread)
                    | inr (current, _, same) ↦
                        rw (ap (λ q. q.1.db) same)
                          (rw unread at (change_status_changes id status current (read w).1))
                  ])
        ]
      ]
