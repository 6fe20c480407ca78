-- ===== src/Payments/Publisher/Unchanged.antt =====
-- What the outbox publisher leaves alone: the payments, and the type and the payment of each event.
use finflow.Base.{
  ℕ, ◌≡◌, refl, ap, ◌∙◌, String, Bool, List, [], ◌∷◌, any, count_if, update_where, arith, str_eq,
  if◌then◌else◌, inl, inr, Bool-cases, Option-cases,
}
use finflow.Base.Int.{ℤ, is_non_positive, pos_part}
use finflow.Go.Environment.{Environment}
use finflow.Go.Errors.{Error, error_text, wrap, Result, ok, err}
use finflow.Postgres.{
  World, Outcome, success, failed, unacknowledged, first_outcome, other_outcomes, statement,
  after_begin, pure,
}
use finflow.Postgres.Atomic.{statement_db, transaction_db, bind_cases}
use finflow.Payments.Event.{OutboxEvent}
use finflow.Payments.Tables.{PaymentDb}
use finflow.Payments.Outbox.{
  claimed_event, claimed_ids, claim_query, published_event, failed_event, mark_query, claim_body,
  claim_pending, mark_published, mark_failed, postgres_outbox,
}
use finflow.Payments.Publisher.{
  PublisherState, event_message, sent, mark, publish_events, after_claim, publish_batch,
}
use finflow.Payments.Consistency.{IsConsistent, tells}

-- The payments are the same, and as many events of each type tell of each payment.
abbrev pub SameEvents : PaymentDb → PaymentDb → Type 0
SameEvents db db' =
    (db'.payments ≡ db.payments)
    × ((event_type id : String)
        → count_if (tells event_type id) db'.outbox ≡ count_if (tells event_type id) db.outbox)

same_refl : (db : PaymentDb) → SameEvents db db
same_refl db = (refl, λ event_type id. refl)

same_trans : (a b c : PaymentDb) → SameEvents a b → SameEvents b c → SameEvents a c
same_trans a b c ab bc = (bc.0 ∙ ab.0, λ event_type id. bc.1 event_type id ∙ ab.1 event_type id)

same_eq : (db db' : PaymentDb) → db' ≡ db → SameEvents db db'
same_eq db db' e = rw e (same_refl db)

pub SameEvents-IsConsistent :
    (db db' : PaymentDb) → SameEvents db db' → IsConsistent db → IsConsistent db'
SameEvents-IsConsistent db db' (payments, events) h = record {
  unique = λ id. rw payments (h.unique id);
  created = λ id. rw (payments, events _ id) (h.created id);
  changed = λ id. rw (payments, events _ id) (h.changed id);
}

count_if-update_where :
    (q p : OutboxEvent → Bool) (f : OutboxEvent → OutboxEvent) (events : List OutboxEvent)
    → ((e : OutboxEvent) → q (f e) ≡ q e)
    → count_if q (update_where p f events) ≡ count_if q events
count_if-update_where q p f [] keeps = refl
count_if-update_where q p f (e ∷ events) keeps = elim (Bool-cases (p e)) [
  | inl hit ↦ rw (hit, keeps e, count_if-update_where q p f events keeps)
  | inr miss ↦ rw (miss, count_if-update_where q p f events keeps)
]

same_updated :
    (p : OutboxEvent → Bool) (f : OutboxEvent → OutboxEvent) (db db' : PaymentDb)
    → ((event_type id : String) (e : OutboxEvent)
        → tells event_type id (f e) ≡ tells event_type id e)
    → db' ≡ record db { outbox = update_where p f db.outbox }
    → SameEvents db db'
same_updated p f db db' keeps e = rw e (
  refl,
  λ event_type id. count_if-update_where (tells event_type id) p f db.outbox (keeps event_type id),
)

module _ (env : Environment) where
  mark_query_db :
      (id_text : String) (change : OutboxEvent → OutboxEvent) (now : ℕ) (db : PaymentDb)
      {u : Unit {0}} {db' : PaymentDb}
      → mark_query env id_text change now db ≡ ok (u, db')
      → (id : String) × (db' ≡ record db {
        outbox = update_where (λ (e : OutboxEvent). str_eq e.id id) change db.outbox;
      })
  unfolding mark_query
  mark_query_db id_text change now db h = elim (Option-cases (env.read_uuid id_text)) [
    | inl refused ↦ absurd (ground arith)
    | inr (id, e) ↦ (id, ground arith)
  ]

  same_marked :
      (f : Error → Error) (id : String) (change : OutboxEvent → OutboxEvent) (w : World PaymentDb)
      → ((event_type i : String) (e : OutboxEvent)
          → tells event_type i (change e) ≡ tells event_type i e)
      → SameEvents w.db (statement f (mark_query env id change) w).1.db
  same_marked f id change w keeps = elim (statement_db f (mark_query env id change) w) [
    | inl same ↦ same_eq w.db _ same
    | inr (u, ran) ↦
        let (i, e) = mark_query_db id change w.clock w.db ran in
        same_updated (λ (x : OutboxEvent). str_eq x.id i) change w.db _ keeps e
  ]

  same_claim_query :
      (limit now : ℕ) (db : PaymentDb) {events : List OutboxEvent} {db' : PaymentDb}
      → claim_query limit now db ≡ ok (events, db')
      → SameEvents db db'
  unfolding claim_query
  same_claim_query limit now db {events} {db'} h =
      let p : OutboxEvent → Bool = λ e. any (λ i. str_eq e.id i) (claimed_ids limit db.outbox) in
      same_updated p claimed_event db db' (λ event_type id e. refl) (ground arith)

  same_claim_body :
      (limit : ℤ) (w : World PaymentDb) → SameEvents w.db (claim_body env limit w).1.db
  unfolding claim_body
  same_claim_body limit w =
      let query = claim_query (if is_non_positive limit then 25 else pos_part limit) in
      let claim = statement (wrap "claim outbox events") query in
      let same : SameEvents w.db (claim w).1.db =
        elim (statement_db (wrap "claim outbox events") query w) [
          | inl unchanged ↦ same_eq w.db (claim w).1.db unchanged
          | inr (events, ran) ↦
              same_claim_query (if is_non_positive limit then 25 else pos_part limit) w.clock w.db
                ran
        ] in
      elim (bind_cases claim
        (λ es.
          pure {T = PaymentDb} {A = List OutboxEvent × String}
            (es, "commit claim outbox events transaction"))
        w) [
          | inl (e, _, ends) ↦ rw (ap (λ q. q.1.db) ends) same
          | inr (es, _, ends) ↦ rw (ap (λ q. q.1.db) ends) same
        ]

  same_claim_pending :
      (limit : ℤ) (w : World PaymentDb) → SameEvents w.db (claim_pending env limit w).1.db
  unfolding claim_pending
  same_claim_pending limit w =
      elim (transaction_db "begin claim outbox events transaction" (claim_body env limit) w) [
        | inl same ↦ same_eq w.db _ same
        | inr (events, (text, returned, kept)) ↦ rw (← kept) (same_claim_body limit (after_begin w))
      ]

  same_publish_event :
      (name : String) (o : Outcome) (e : OutboxEvent) (s : PublisherState PaymentDb)
      → let (r, s') = sent (postgres_outbox env) name o (event_message name e) s in
        SameEvents s.world.db (mark (postgres_outbox env) name e r s').world.db
  unfolding mark_published mark_failed
  same_publish_event name success e s =
      same_marked (wrap "mark outbox event published") e.id (published_event s.world.clock) s.world
        (λ t i x. refl)
  same_publish_event name (failed cause) e s =
      same_marked (wrap "mark outbox event failed") e.id (failed_event (error_text cause)) s.world
        (λ t i x. refl)
  same_publish_event name (unacknowledged cause) e s =
      same_marked (wrap "mark outbox event failed") e.id (failed_event (error_text cause)) s.world
        (λ t i x. refl)

  same_publish_events :
      (name : String) (events : List OutboxEvent) (s : PublisherState PaymentDb)
      → SameEvents s.world.db (publish_events (postgres_outbox env) name events s).world.db
  unfolding publish_events
  same_publish_events name [] s = same_refl s.world.db
  same_publish_events name (e ∷ events) s =
      same_trans s.world.db _ _
        (same_publish_event name (first_outcome s.kafka) e
          (record s { kafka = other_outcomes s.kafka }))
        (same_publish_events name events _)

  same_after_claim :
      (name : String) (r : Result (List OutboxEvent)) (s : PublisherState PaymentDb)
      → SameEvents s.world.db (after_claim (postgres_outbox env) name r s).1.world.db
  same_after_claim name (ok events) s = same_publish_events name events s
  same_after_claim name (err e) s = same_refl s.world.db

  -- A batch changes no payment, and neither loses an event nor changes what it tells of.
  pub publish_batch-SameEvents :
      (name : String) (batch_size : ℤ) (s : PublisherState PaymentDb)
      → SameEvents s.world.db (publish_batch (postgres_outbox env) name batch_size s).1.world.db
  unfolding publish_batch
  publish_batch-SameEvents name batch_size s =
      same_trans s.world.db (claim_pending env batch_size s.world).1.db _
        (same_claim_pending batch_size s.world)
        (same_after_claim name (claim_pending env batch_size s.world).0
          (record s { world = (claim_pending env batch_size s.world).1 }))
