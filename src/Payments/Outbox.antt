-- ===== src/Payments/Outbox.antt =====
-- services/payment-service/internal/repository/outbox_repository.go: the interface `OutboxRepository`, and
-- the claiming and marking of outbox events over PostgreSQL.
use finflow.Base.{
  ℕ, ◌+◌, String, Bool, true, false, none, some, List, map, any, select, take, update_where, ltb,
  str_eq, if◌then◌else◌,
}
use finflow.Base.Int.{ℤ, pos_part, is_non_positive}
use finflow.Go.Environment.{Environment}
use finflow.Go.Errors.{Error, wrap, Result, ok, err}
use finflow.Go.Errors
use finflow.Postgres.{Action, pure, ◌>>=◌, statement, transaction}
use finflow.Ledger.Tables.{order_by}
use finflow.Payments.Event.{OutboxStatus, OutboxEvent}
use finflow.Payments.Tables.{PaymentDb, uuid_column}

-- `type OutboxRepository interface`
pub record OutboxRepository (T : Type 0) : Type 0 where
  pub claim_pending : ℤ → Action T (List OutboxEvent)
  pub mark_published : String → ℕ → Action T (Unit {0})
  pub mark_failed : String → String → Action T (Unit {0})

-- status IN ('pending', 'failed')
abbrev pub is_claimable : OutboxStatus → Bool
is_claimable OutboxStatus.pending = true
is_claimable OutboxStatus.failed = true
is_claimable OutboxStatus.publishing = false
is_claimable OutboxStatus.published = false

abbrev pub claimed_event : OutboxEvent → OutboxEvent
claimed_event e = record e {
  status = OutboxStatus.publishing;
  attempts = e.attempts + 1;
  last_error = none;
}

-- The ids of the first events by creation.
unfoldable pub claimed_ids : ℕ → List OutboxEvent → List String
unfolding order_by
claimed_ids limit events =
    map (λ (e : OutboxEvent). e.id)
      (take limit (
        order_by (λ (a b : OutboxEvent). ltb a.created_at b.created_at)
          (select (λ (e : OutboxEvent). is_claimable e.status) events)))

-- UPDATE outbox_events ... WHERE id IN (SELECT id FROM claimed) RETURNING
unfoldable pub claim_query : ℕ → ℕ → PaymentDb → Result (List OutboxEvent × PaymentDb)
unfolding claimed_ids
claim_query limit now db =
    let ids = claimed_ids limit db.outbox in
    let is_claimed = λ (e : OutboxEvent). any (λ i. str_eq e.id i) ids in
    ok (
      map claimed_event (select is_claimed db.outbox),
      record db { outbox = update_where is_claimed claimed_event db.outbox },
    )

abbrev pub published_event : ℕ → OutboxEvent → OutboxEvent
published_event at e = record e {
  status = OutboxStatus.published;
  published_at = some at;
  last_error = none;
}

abbrev pub failed_event : String → OutboxEvent → OutboxEvent
failed_event reason e = record e { status = OutboxStatus.failed; last_error = some reason }

-- UPDATE outbox_events SET ... WHERE id = $1
unfoldable pub mark_query :
    Environment
    → String
    → (OutboxEvent → OutboxEvent)
    → ℕ
    → PaymentDb
    → Result (Unit {0} × PaymentDb)
mark_query env id_text change now db = Errors.◌>>=◌ (uuid_column env id_text) (λ id. ok (
  tt,
  record db { outbox = update_where (λ (e : OutboxEvent). str_eq e.id id) change db.outbox },
))

module _ (env : Environment) where
  unfoldable pub claim_body : ℤ → Action PaymentDb (List OutboxEvent × String)
  claim_body limit = do
    events ←
        statement (wrap "claim outbox events")
          (claim_query (if is_non_positive limit then 25 else pos_part limit))
    pure (events, "commit claim outbox events transaction")

  unfoldable pub claim_pending : ℤ → Action PaymentDb (List OutboxEvent)
  claim_pending limit = transaction "begin claim outbox events transaction" (claim_body limit)

  unfoldable pub mark_published : String → ℕ → Action PaymentDb (Unit {0})
  mark_published id published_at =
      statement (wrap "mark outbox event published")
        (mark_query env id (published_event published_at))

  unfoldable pub mark_failed : String → String → Action PaymentDb (Unit {0})
  mark_failed id reason =
      statement (wrap "mark outbox event failed") (mark_query env id (failed_event reason))

  abbrev pub postgres_outbox : OutboxRepository PaymentDb
  postgres_outbox = record {
    claim_pending = claim_pending;
    mark_published = mark_published;
    mark_failed = mark_failed;
  }
