-- ===== src/Payments/Answer.antt =====
-- What `UpdateStatus` of the payment service answers: payment_service.go over payment_repository.go.
use finflow.Base.{◌≡◌, sym, ap, ◌∙◌, String, str_eq, eq_iff, inl, inr, Bool-cases, arith}
use finflow.Go.Environment.{Environment}
use finflow.Go.Errors.{Error, Sentinel, Result, ok, err}
use finflow.Go.Strings.{trim_space, to_lower}
use finflow.Postgres.{World, Action, pure, ◌>>=◌}
use finflow.Postgres.Atomic.{transaction_ok, bind_ok}
use finflow.Payments.Model.{PaymentStatus, Payment, UpdatePaymentStatusRequest}
use finflow.Payments.Tables.{PaymentDb, PaymentRow, update_status_query}
use finflow.Payments.Repository.{
  annotate, query_payment, publish_status_changed, update_body, postgres_payments,
}
use finflow.Payments.Repository as Repository
use finflow.Payments.Repository.Writes.{wrapped_ok, query_payment_ok}
use finflow.Payments.Repository.Update.{update_status_query_ok}
use finflow.Payments.Service.{
  unwrapped, mapped, is_known_status, can_transition, change_status, update_status,
}

pub unwrapped_ok {ℓ} :
    {A : Type ℓ} (t : Sentinel) (r : Result A) {a : A} → unwrapped t r ≡ ok a → r ≡ ok a
unwrapped_ok t (ok b) h = h
unwrapped_ok t (err e) h = ground arith

same_payment :
    {p q : Payment} {s t : String}
    → ◌≡◌ {A = Result (Payment × String)} (ok (p, s)) (ok (q, t))
    → p ≡ q
same_payment h = cc

module _ (env : Environment) where
  update_body_status :
      (id : String) (previous status : PaymentStatus) (w : World PaymentDb) {answer : Payment}
      {text : String}
      → (update_body env id previous status w).0 ≡ ok (answer, text)
      → answer.status ≡ status
  unfolding update_body
  update_body_status id previous status w {answer} h =
      let query = query_payment (update_status_query env id status previous) in
      let update = annotate "update payment status" query in
      let answered : Payment → Payment × String = λ p. (p, "commit status update transaction") in
      let next : Payment → Action PaymentDb (Payment × String) =
        λ p. publish_status_changed env previous p >>= λ sent. pure {T = PaymentDb} (answered p) in
      let (p, done, same) = bind_ok update next w h in
      let (row, wrote, e) =
        query_payment_ok (update_status_query env id status previous) w
          (wrapped_ok "update payment status" (query w).0 done) in
      let (_, _, _, _, updated, _) =
        update_status_query_ok env id previous status w.clock w.db wrote in
      let returned = sym (ap (λ q. q.0) same) ∙ h in
      let (sent, _, sent_same) =
        bind_ok (publish_status_changed env previous p) (λ sent. pure {T = PaymentDb} (answered p))
          (update w).1 returned in
      let e' : p ≡ answer = same_payment (sym (ap (λ q. q.0) sent_same) ∙ returned) in
      sym (ap (λ (q : Payment). q.status) e')
      ∙ ap (λ (q : Payment). q.status) e
      ∙ ap (λ (r : PaymentRow). r.status) updated

  repository_status :
      (id : String) (previous status : PaymentStatus) (w : World PaymentDb) {answer : Payment}
      → (Repository.update_status env id previous status w).0 ≡ ok answer
      → answer.status ≡ status
  unfolding Repository.update_status
  repository_status id previous status w h =
      let (text, returned, kept) =
        transaction_ok "begin status update transaction" (update_body env id previous status) w h in
      update_body_status id previous status _ returned

  change_status_status :
      (id : String) (status : PaymentStatus) (current : Payment) (w : World PaymentDb)
      {answer : Payment}
      → (change_status env (postgres_payments env) id status current w).0 ≡ ok answer
      → answer.status ≡ status
  unfolding change_status
  change_status_status id status current w {answer} h =
      elim (Bool-cases (str_eq current.status status)) [
        | inl same ↦
            let h' = rw same at h in
            (ap (λ (p : Payment). p.status) (unchanged h')) ∙ (eq_iff current.status status).0 same
        | inr differs ↦ elim (Bool-cases (can_transition current.status status)) [
          | inr forbidden ↦ absurd (refused (rw (differs, forbidden) at h))
          | inl allowed ↦ repository_status id current.status status w (
              unwrapped_ok Sentinel.payment_not_found
                (Repository.update_status env id current.status status w).0
                (rw (differs, allowed) at h))
        ]
      ]
    where
      unchanged : ◌≡◌ {A = Result Payment} (ok current) (ok answer) → answer ≡ current
      unchanged h = cc

      refused : {e : Error} → ◌≡◌ {A = Result Payment} (err e) (ok answer) → ⊥
      refused h = cc

  -- A payment that UpdateStatus of the service answers with has the status that was asked for,
  -- without the spaces around it and in lower case.
  pub update_status_status :
      (id : String) (request : UpdatePaymentStatusRequest) (w : World PaymentDb) {answer : Payment}
      → (update_status env (postgres_payments env) id request w).0 ≡ ok answer
      → answer.status ≡ to_lower env (trim_space env request.status)
  unfolding update_status
  update_status_status id_text request w {answer} h =
      let id = trim_space env id_text in
      let status = to_lower env (trim_space env request.status) in
      elim (Bool-cases (env.parses id)) [
        | inr bad ↦ absurd (refused (rw bad at h))
        | inl parsed ↦ elim (Bool-cases (is_known_status status)) [
          | inr unknown ↦ absurd (refused (rw (parsed, unknown) at h))
          | inl known ↦
              let read =
                mapped env (postgres_payments env) Sentinel.payment_not_found
                  (Repository.get_by_id env id) in
              let (current, _, same) =
                bind_ok read (change_status env (postgres_payments env) id status) w
                  (rw (parsed, known) at h) in
              change_status_status id status current (read w).1
                (sym (ap (λ q. q.0) same) ∙ rw (parsed, known) at h)
        ]
      ]
    where
      refused : {e : Error} → ◌≡◌ {A = Result Payment} (err e) (ok answer) → ⊥
      refused h = cc
