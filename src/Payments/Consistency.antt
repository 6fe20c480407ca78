-- ===== src/Payments/Consistency.antt =====
-- The transactional outbox of the payment service as an invariant of its two tables.
use finflow.Base.{
  ℕ, ◌+◌, ◌≤◌, ◌≡◌, refl, ◌∙◌, String, Bool, false, not, ◌&&◌, some, List, [], ◌∷◌, ◌++◌, any, find,
  count_if, count_if-append, arith, str_eq, eq_iff, if◌then◌else◌, Bool-cases, find-holds, inl, inr,
}
use finflow.Go.Environment.{Environment}
use finflow.Payments.Model.{PaymentStatus, Payment, pending}
use finflow.Payments.Event.{OutboxEvent, payment_created_event, payment_status_changed_event}
use finflow.Payments.Tables.{PaymentDb, PaymentRow, update_row, update_rows}
use finflow.Payments.Repository.Writes.{Inserted, IsCreatedEvent, IsChangedEvent}
use finflow.Payments.Repository.Update.{Changed}

abbrev has_id : String → PaymentRow → Bool
has_id id row = str_eq row.id id

abbrev is_decided : String → PaymentRow → Bool
is_decided id row = str_eq row.id id && not (str_eq row.status pending)

abbrev pub tells : String → String → OutboxEvent → Bool
tells event_type id event = str_eq event.aggregate_id id && str_eq event.event_type event_type

-- An id has at most one payment; there is one payment.created for each payment, and one
-- payment.status_changed for each payment that is no longer pending, and neither for another id.
pub record IsConsistent (db : PaymentDb) : Type 0 where
  pub unique : (id : String) → count_if (has_id id) db.payments ≤ 1
  pub created :
      (id : String)
      → count_if (tells payment_created_event id) db.outbox ≡ count_if (has_id id) db.payments
  pub changed :
      (id : String)
      → count_if (tells payment_status_changed_event id) db.outbox
        ≡ count_if (is_decided id) db.payments

none_counted :
    (id : String) (rows : List PaymentRow)
    → any (λ r. str_eq r.id id) rows ≡ false
    → count_if (has_id id) rows ≡ 0
none_counted id [] h = refl
none_counted id (r ∷ rows) h = ground (arith, none_counted id rows)

one_created :
    {env : Environment} (row : PaymentRow) (event : OutboxEvent) (id : String)
    → IsCreatedEvent env row event
    → row.status ≡ pending
    → (count_if (tells payment_created_event id) (event ∷ []) ≡ count_if (has_id id) (row ∷ []))
      × (count_if (tells payment_status_changed_event id) (event ∷ []) ≡ 0)
      × (count_if (is_decided id) (row ∷ []) ≡ 0)
one_created row event id c s = rw (c.type_of_event, c.aggregate, s) (ground arith)

one_changed :
    {env : Environment} (previous : PaymentStatus) (row : PaymentRow) (event : OutboxEvent)
    (id : String)
    → IsChangedEvent env previous row event
    → (count_if (tells payment_created_event id) (event ∷ []) ≡ 0)
      × (count_if (tells payment_status_changed_event id) (event ∷ [])
          ≡ count_if (has_id id) (row ∷ []))
one_changed previous row event id c = rw (c.type_of_event, c.aggregate) (ground arith)

-- Creating a pending payment with its event keeps the tables consistent.
pub Inserted-IsConsistent :
    {env : Environment} (payment : Payment) (db db' : PaymentDb)
    → payment.status ≡ pending
    → Inserted env payment db db'
    → IsConsistent db
    → IsConsistent db'
Inserted-IsConsistent payment db db' s (row, event, c, status, new, e) h = rw e (record {
  unique = unique_after;
  created = λ id. omega (
    arith,
    count_if-append (tells payment_created_event id) db.outbox (event ∷ []),
    count_if-append (has_id id) db.payments (row ∷ []),
    h.created id,
    (one_created row event id c (status ∙ s)).0,
  );
  changed = λ id. omega (
    arith,
    count_if-append (tells payment_status_changed_event id) db.outbox (event ∷ []),
    count_if-append (is_decided id) db.payments (row ∷ []),
    h.changed id,
    (one_created row event id c (status ∙ s)).1,
    (one_created row event id c (status ∙ s)).2,
  );
})
  where
    unique_after : (id : String) → count_if (has_id id) (db.payments ++ row ∷ []) ≤ 1
    unique_after id = elim (Bool-cases (str_eq row.id id)) [
      | inl same ↦
          let fresh = rw ((eq_iff row.id id).0 same) at (none_counted row.id db.payments new) in
          ground (arith, count_if-append (has_id id) db.payments (row ∷ []))
      | inr other ↦ ground (arith, count_if-append (has_id id) db.payments (row ∷ []), h.unique id)
    ]

has_id-update_rows :
    (id status previous : String) (now : ℕ) (rows : List PaymentRow) (x : String)
    → count_if (has_id x) (update_rows id status previous now rows) ≡ count_if (has_id x) rows
unfolding update_rows
has_id-update_rows id status previous now [] x = refl
has_id-update_rows id status previous now (r ∷ rows) x =
    ground (arith, has_id-update_rows id status previous now rows x)

abbrev waits : String → PaymentRow → Bool
waits id row = str_eq row.id id && str_eq row.status pending

count-waits :
    (id : String) (rows : List PaymentRow) → count_if (waits id) rows ≤ count_if (has_id id) rows
count-waits id [] = omega arith
count-waits id (r ∷ rows) = ground (arith, count-waits id rows)

waits-find :
    (id : String) (rows : List PaymentRow) (row : PaymentRow)
    → find (waits id) rows ≡ some row
    → 1 ≤ count_if (waits id) rows
waits-find id [] row h = ground arith
waits-find id (r ∷ rows) row h = ground (arith, waits-find id rows row)

-- Each waiting payment with the id is decided by the update, and no other.
is_decided-update_rows :
    (id status : String) (now : ℕ) (rows : List PaymentRow) (x : String)
    → str_eq status pending ≡ false
    → count_if (is_decided x) (update_rows id status pending now rows)
      ≡ count_if (is_decided x) rows + (if str_eq id x then count_if (waits id) rows else 0)
unfolding update_rows
is_decided-update_rows id status now [] x h = ground arith
is_decided-update_rows id status now (r ∷ rows) x h = ground (
  arith,
  eq_iff r.id id,
  eq_iff r.id x,
  eq_iff id x,
  is_decided-update_rows id status now rows x h,
)

-- Deciding a pending payment with the event of the change keeps the tables consistent.
pub Changed-IsConsistent :
    {env : Environment} (id_text status : String) (db db' : PaymentDb)
    → str_eq status pending ≡ false
    → Changed env id_text pending status db db'
    → IsConsistent db
    → IsConsistent db'
Changed-IsConsistent id_text status db db' s (id, now, row, event, e, there, c, same) h =
    rw same (record {
      unique = λ x. rw (has_id-update_rows id status pending now db.payments x) (h.unique x);
      created = λ x. omega (
        arith,
        count_if-append (tells payment_created_event x) db.outbox (event ∷ []),
        has_id-update_rows id status pending now db.payments x,
        h.created x,
        (one_changed pending (update_row status now row) event x c).0,
      );
      changed = changed_after;
    })
  where
    changed_after :
        (x : String)
        → count_if (tells payment_status_changed_event x) (db.outbox ++ event ∷ [])
          ≡ count_if (is_decided x) (update_rows id status pending now db.payments)
    changed_after x =
        let told = (one_changed pending (update_row status now row) event x c).1 in
        let found = find-holds (waits id) db.payments row there in
        let least = waits-find id db.payments row there in
        let most = count-waits id db.payments in
        let only = h.unique id in
        ground (
          arith,
          eq_iff row.id id,
          eq_iff row.id x,
          eq_iff id x,
          count_if-append (tells payment_status_changed_event x) db.outbox (event ∷ []),
          is_decided-update_rows id status now db.payments x s,
          h.changed x,
        )
