-- ===== src/Payments/Publisher/Batch.antt =====
-- `PublishBatch` of outbox_publisher.go over PostgreSQL, from the claim to the marks.
use finflow.Base.{
  ℕ, ◌≡◌, refl, sym, ap, ◌∙◌, String, Bool, Option, none, some, List, [], ◌∷◌, map, any, select,
  update_where, All, All-weaken, select-All, str_eq, if◌then◌else◌, inl, inr, arith,
}
use finflow.Base.Int.{ℤ, is_non_positive, pos_part}
use finflow.Go.Environment.{Environment}
use finflow.Go.Errors.{Error, wrap, Result, ok, err}
use finflow.Go.Json.{Document}
use finflow.Postgres.{World, statement, after_begin, pure}
use finflow.Postgres.Atomic.{statement_ok, transaction_db, transaction_ok, bind_ok}
use finflow.Consumer.Message.{Message}
use finflow.Payments.Event.{OutboxEvent}
use finflow.Payments.Tables.{PaymentDb}
use finflow.Payments.Outbox.{
  claimed_event, claimed_ids, claim_query, claim_body, claim_pending, postgres_outbox,
}
use finflow.Payments.Publisher.{PublisherState, after_claim, publish_batch, run}
use finflow.Payments.Publisher.Delivered.{
  IsDelivered, AllDelivered, IsCanonical, Delivered, claimed-AllDelivered, publish_events-Delivered,
}

module _ (env : Environment) where
  -- The events that a claim returns, and the table after it.
  abbrev Claimed : List OutboxEvent → PaymentDb → PaymentDb → Type 0
  Claimed events db db' =
      (p : OutboxEvent → Bool) × (events ≡ map claimed_event (select p db.outbox))
      × (db'.outbox ≡ update_where p claimed_event db.outbox)

  claim_query_ok :
      (limit now : ℕ) (db : PaymentDb) {events : List OutboxEvent} {db' : PaymentDb}
      → claim_query limit now db ≡ ok (events, db')
      → Claimed events db db'
  unfolding claim_query
  claim_query_ok limit now db {events} {db'} h =
      let p : OutboxEvent → Bool = λ e. any (λ i. str_eq e.id i) (claimed_ids limit db.outbox) in
      let both : (events ≡ map claimed_event (select p db.outbox))
          × (db'.outbox ≡ update_where p claimed_event db.outbox) =
        ground arith in
      (p, both.0, both.1)

  claim_body_ok :
      (limit : ℤ) (w : World PaymentDb) {events : List OutboxEvent} {text : String}
      → (claim_body env limit w).0 ≡ ok (events, text)
      → Claimed events w.db (claim_body env limit w).1.db
  unfolding claim_body
  claim_body_ok limit w {events} {text} h =
      let query = claim_query (if is_non_positive limit then 25 else pos_part limit) in
      let (found, done, same) =
        bind_ok (statement (wrap "claim outbox events") query)
          (λ es.
            pure {T = PaymentDb} {A = List OutboxEvent × String}
              (es, "commit claim outbox events transaction"))
          w h in
      let e : found ≡ events = first_of (sym (ap (λ q. q.0) same) ∙ h) in
      let claimed =
        claim_query_ok _ w.clock w.db (statement_ok (wrap "claim outbox events") query w done) in
      rw (← e, ap (λ q. q.1.db) same) claimed
    where
      first_of :
          {a b : List OutboxEvent} {s t : String}
          → ◌≡◌ {A = Result (List OutboxEvent × String)} (ok (a, s)) (ok (b, t))
          → a ≡ b
      first_of h = cc

  IsCanonical-of_claimed :
      (topic : List (Message Document)) (p : OutboxEvent → Bool) (rows : List OutboxEvent)
      → All (IsDelivered env topic) rows
      → All (IsCanonical env) (map claimed_event (select p rows))
  IsCanonical-of_claimed topic p rows h = mapped (select p rows) (
      All-weaken (IsDelivered env topic) (IsCanonical env) (select p rows) (λ e d. d.0)
        (select-All (IsDelivered env topic) p rows h))
    where
      mapped :
          (es : List OutboxEvent)
          → All (IsCanonical env) es
          → All (IsCanonical env) (map claimed_event es)
      mapped [] h = tt
      mapped (e ∷ es) h = (h.0, mapped es h.1)

  claim_pending-AllDelivered :
      (topic : List (Message Document)) (limit : ℤ) (w : World PaymentDb)
      → AllDelivered env topic w.db
      → AllDelivered env topic (claim_pending env limit w).1.db
  unfolding claim_pending
  claim_pending-AllDelivered topic limit w h =
      elim (transaction_db "begin claim outbox events transaction" (claim_body env limit) w) [
        | inl same ↦ rw same h
        | inr (events, (text, returned, kept)) ↦
            let (p, _, wrote) = claim_body_ok limit (after_begin w) returned in
            rw (← kept, wrote) (claimed-AllDelivered env topic p w.db.outbox h)
      ]

  claim_pending-IsCanonical :
      (topic : List (Message Document)) (limit : ℤ) (w : World PaymentDb)
      {events : List OutboxEvent}
      → AllDelivered env topic w.db
      → (claim_pending env limit w).0 ≡ ok events
      → All (IsCanonical env) events
  unfolding claim_pending
  claim_pending-IsCanonical topic limit w h returned =
      let (text, answered, kept) =
        transaction_ok "begin claim outbox events transaction" (claim_body env limit) w returned in
      let (p, same, _) = claim_body_ok limit (after_begin w) answered in
      rw same (IsCanonical-of_claimed topic p w.db.outbox h)

  after_claim-Delivered :
      (name : String) (r : Result (List OutboxEvent)) (s : PublisherState PaymentDb)
      → ((events : List OutboxEvent) → r ≡ ok events → All (IsCanonical env) events)
      → Delivered env s
      → Delivered env (after_claim (postgres_outbox env) name r s).1
  after_claim-Delivered name (ok events) s canonical h =
      publish_events-Delivered env name events s (canonical events refl) h
  after_claim-Delivered name (err e) s canonical h = h

  -- However Kafka and the database fail, a batch marks nothing as published that is not in the topic.
  pub publish_batch-Delivered :
      (name : String) (batch_size : ℤ) (s : PublisherState PaymentDb)
      → Delivered env s
      → Delivered env (publish_batch (postgres_outbox env) name batch_size s).1
  unfolding publish_batch
  publish_batch-Delivered name batch_size s h =
      after_claim-Delivered name (claim_pending env batch_size s.world).0
        (record s { world = (claim_pending env batch_size s.world).1 })
        (λ events returned. claim_pending-IsCanonical s.topic batch_size s.world h returned)
        (claim_pending-AllDelivered s.topic batch_size s.world h)

  -- If the outbox has ids that PostgreSQL reads back as themselves and the topic has a message for
  -- each event that is marked as published, then so it is after the publisher has run over any
  -- ticks, however Kafka and the database fail.
  pub run-Delivered :
      (name : String) (batch_size : ℤ) (ticks : List (Option Error)) (s : PublisherState PaymentDb)
      → Delivered env s
      → Delivered env (run (postgres_outbox env) name batch_size ticks s).1
  unfolding run
  run-Delivered name batch_size [] s h = h
  run-Delivered name batch_size (none ∷ ticks) s h =
      run-Delivered name batch_size ticks _ (publish_batch-Delivered name batch_size s h)
  run-Delivered name batch_size (some cause ∷ ticks) s h =
      publish_batch-Delivered name batch_size s h
