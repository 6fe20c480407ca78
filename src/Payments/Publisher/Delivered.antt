-- ===== src/Payments/Publisher/Delivered.antt =====
-- What a batch of the outbox publisher leaves behind: nothing is marked as published that was not sent.
use finflow.Base.{
  ℕ, ◌≡◌, ap, ◌∙◌, String, Bool, true, some, List, [], ◌∷◌, ◌++◌, any, any-append, update_where,
  All, All-weaken, update_where-All, arith, str_eq, eq_refl, eq_iff, inl, inr,
}
use finflow.Go.Environment.{Environment}
use finflow.Go.Errors.{Error, error_text, wrap, ok}
use finflow.Go.Json.{Document}
use finflow.Postgres.{
  World, Outcome, success, failed, unacknowledged, first_outcome, other_outcomes, statement,
}
use finflow.Postgres.Atomic.{statement_db}
use finflow.Consumer.Message.{Message, header_value}
use finflow.Payments.Event.{OutboxEvent, OutboxStatus}
use finflow.Payments.Tables.{PaymentDb}
use finflow.Payments.Outbox.{
  claimed_event, published_event, failed_event, mark_query, mark_published, mark_failed,
  postgres_outbox,
}
use finflow.Payments.Publisher.{PublisherState, event_message, sent, mark, publish_events}

-- The topic has a message that carries the event's id.
abbrev pub is_sent : String → List (Message Document) → Bool
is_sent id topic = any (λ m. str_eq (header_value m.headers "event_id") id) topic

abbrev pub IsCanonical : Environment → OutboxEvent → Type 0
IsCanonical env e = env.read_uuid e.id ≡ some e.id

-- The event's id is one that PostgreSQL writes, and a published event was sent.
abbrev pub IsDelivered : Environment → List (Message Document) → OutboxEvent → Type 0
IsDelivered env topic e =
    (env.read_uuid e.id ≡ some e.id)
    × (e.status ≡ OutboxStatus.published → is_sent e.id topic ≡ true)

abbrev pub AllDelivered : Environment → List (Message Document) → PaymentDb → Type 0
AllDelivered env topic db = All (IsDelivered env topic) db.outbox

module _ (env : Environment) where
  sent_more :
      (topic : List (Message Document)) (m : Message Document) (db : PaymentDb)
      → AllDelivered env topic db
      → AllDelivered env (topic ++ m ∷ []) db
  sent_more topic m db h =
      All-weaken (IsDelivered env topic) (IsDelivered env (topic ++ m ∷ [])) db.outbox
        (λ e d. (
          d.0,
          λ published. rw (
            any-append (λ (x : Message Document). str_eq (header_value x.headers "event_id") e.id)
                topic (m ∷ []),
            d.1 published,
          ),
        ))
        h

  pub claimed-AllDelivered :
      (topic : List (Message Document)) (p : OutboxEvent → Bool) (events : List OutboxEvent)
      → All (IsDelivered env topic) events
      → All (IsDelivered env topic) (update_where p claimed_event events)
  claimed-AllDelivered topic p events h =
      update_where-All (IsDelivered env topic) p claimed_event events
        (λ e hit d. (d.0, λ published. cc)) h

  mark_query_ok :
      (id : String) (change : OutboxEvent → OutboxEvent) (now : ℕ) (db : PaymentDb) {u : Unit {0}}
      {db' : PaymentDb}
      → env.read_uuid id ≡ some id
      → mark_query env id change now db ≡ ok (u, db')
      → db'.outbox ≡ update_where (λ (e : OutboxEvent). str_eq e.id id) change db.outbox
  unfolding mark_query
  mark_query_ok id change now db canonical h = ground arith

  -- A statement that marks the event of an id, whatever becomes of it.
  mark-AllDelivered :
      (topic : List (Message Document)) (f : Error → Error) (id : String)
      (change : OutboxEvent → OutboxEvent) (w : World PaymentDb)
      → env.read_uuid id ≡ some id
      → ((e : OutboxEvent) → e.id ≡ id → IsDelivered env topic e → IsDelivered env topic (change e))
      → AllDelivered env topic w.db
      → AllDelivered env topic (statement f (mark_query env id change) w).1.db
  mark-AllDelivered topic f id change w canonical keeps all =
      elim (statement_db f (mark_query env id change) w) [
        | inl same ↦ rw same all
        | inr (u, ran) ↦ rw (mark_query_ok id change w.clock w.db canonical ran) (
            update_where-All (IsDelivered env topic) (λ (e : OutboxEvent). str_eq e.id id) change
              w.db.outbox (λ e hit d. keeps e ((eq_iff e.id id).0 hit) d) all)
      ]

  abbrev pub Delivered : PublisherState PaymentDb → Type 0
  Delivered s = AllDelivered env s.topic s.world.db

  sent_event :
      (name : String) (e : OutboxEvent) (topic : List (Message Document))
      → is_sent e.id (topic ++ event_message name e ∷ []) ≡ true
  unfolding event_message header_value
  sent_event name e topic =
      rw
        (
          any-append (λ (x : Message Document). str_eq (header_value x.headers "event_id") e.id)
              topic (event_message name e ∷ []),
          eq_refl e.id,
        )
        (ground arith)

  mark_failed-Delivered :
      (e : OutboxEvent) (cause : Error) (s : PublisherState PaymentDb)
      → IsCanonical env e
      → Delivered s
      → Delivered (record s { world = (mark_failed env e.id (error_text cause) s.world).1 })
  unfolding mark_failed
  mark_failed-Delivered e cause s canonical h =
      mark-AllDelivered s.topic (wrap "mark outbox event failed") e.id
        (failed_event (error_text cause)) s.world canonical (λ x same d. (d.0, λ published. cc)) h

  -- One event: its write and its mark.
  publish_event-Delivered :
      (name : String) (o : Outcome) (e : OutboxEvent) (s : PublisherState PaymentDb)
      → IsCanonical env e
      → Delivered s
      → let (r, s') = sent (postgres_outbox env) name o (event_message name e) s in
        Delivered (mark (postgres_outbox env) name e r s')
  unfolding mark_published
  publish_event-Delivered name success e s canonical h =
      let topic = s.topic ++ event_message name e ∷ [] in
      mark-AllDelivered topic (wrap "mark outbox event published") e.id
        (published_event s.world.clock) s.world canonical
        (λ x same d. (d.0, λ published. ap (λ i. is_sent i topic) same ∙ sent_event name e s.topic))
        (sent_more s.topic (event_message name e) s.world.db h)
  publish_event-Delivered name (failed cause) e s canonical h =
      mark_failed-Delivered e cause s canonical h
  publish_event-Delivered name (unacknowledged cause) e s canonical h =
      mark_failed-Delivered e cause (record s { topic = s.topic ++ event_message name e ∷ [] })
        canonical (sent_more s.topic (event_message name e) s.world.db h)

  pub publish_events-Delivered :
      (name : String) (events : List OutboxEvent) (s : PublisherState PaymentDb)
      → All (IsCanonical env) events
      → Delivered s
      → Delivered (publish_events (postgres_outbox env) name events s)
  unfolding publish_events
  publish_events-Delivered name [] s canonical h = h
  publish_events-Delivered name (e ∷ events) s canonical h =
      publish_events-Delivered name events _ canonical.1 (
        publish_event-Delivered name (first_outcome s.kafka) e
          (record s { kafka = other_outcomes s.kafka }) canonical.0 h)
