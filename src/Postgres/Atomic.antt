-- ===== src/Postgres/Atomic.antt =====
-- What a statement and a transaction can have done to the tables, whatever the schedule.
use finflow.Base.{ℕ, ◌≡◌, refl, sym, ap, ◌∙◌, String, ◌⊎◌, inl, inr, arith}
use finflow.Go.Errors.{Error, Result, ok, err, ok_of_map_error}
use finflow.Postgres.{
  World, Outcome, success, failed, unacknowledged, Action, first_outcome, after_begin, served,
  delivered, statement, commit, close_transaction, begun, transaction, continue, ◌>>=◌,
}

module _ {ℓ} {T A : Type ℓ} where
  -- The tables are as before, or as the server left them after running the statement.
  abbrev pub Ran : (ℕ → T → Result (A × T)) → World T → T → Type ℓ
  Ran run w db' = (a : A) × (run w.clock w.db ≡ ok (a, db'))

  Ran-of_server :
      (r : Result (A × T)) (db : T)
      → (served r db).1 ≡ db ⊎ ((a : A) × (r ≡ ok (a, (served r db).1)))
  Ran-of_server (ok (a, db')) db = inr (a, refl)
  Ran-of_server (err e) db = inl refl

  Ran-of_delivered :
      (o : Outcome) (run : ℕ → T → Result (A × T)) (w : World T)
      → ((delivered o run w).1.db ≡ w.db) ⊎ Ran run w (delivered o run w).1.db
  Ran-of_delivered success run w = Ran-of_server (run w.clock w.db) w.db
  Ran-of_delivered (failed e) run w = inl refl
  Ran-of_delivered (unacknowledged e) run w = Ran-of_server (run w.clock w.db) w.db

  pub statement_db :
      (f : Error → Error) (run : ℕ → T → Result (A × T)) (w : World T)
      → ((statement f run w).1.db ≡ w.db) ⊎ Ran run w (statement f run w).1.db
  unfolding statement
  statement_db f run w = Ran-of_delivered (first_outcome w.schedule) run (after_begin w)

  ok_of_server :
      (r : Result (A × T)) (db : T) {a : A} → (served r db).0 ≡ ok a → r ≡ ok (a, (served r db).1)
  ok_of_server (ok (a, db')) db h = cc
  ok_of_server (err e) db h = cc

  ok_of_delivered :
      (o : Outcome) (run : ℕ → T → Result (A × T)) (w : World T) {a : A}
      → (delivered o run w).0 ≡ ok a
      → run w.clock w.db ≡ ok (a, (delivered o run w).1.db)
  ok_of_delivered success run w h = ok_of_server (run w.clock w.db) w.db h
  ok_of_delivered (failed e) run w h = cc
  ok_of_delivered (unacknowledged e) run w h = cc

  -- A statement that returned a value has run.
  pub statement_ok :
      (f : Error → Error) (run : ℕ → T → Result (A × T)) (w : World T) {a : A}
      → (statement f run w).0 ≡ ok a
      → run w.clock w.db ≡ ok (a, (statement f run w).1.db)
  unfolding statement
  statement_ok f run w h =
      ok_of_delivered (first_outcome w.schedule) run (after_begin w) (ok_of_map_error f _ h)

  -- A statement that the server never refuses.
  pub statement_answer :
      (f : Error → Error) (value : T → A) (next : T → T) (w : World T) {a : A}
      → (statement f (λ now db. ok (value db, next db)) w).0 ≡ ok a
      → (a ≡ value w.db) × ((statement f (λ now db. ok (value db, next db)) w).1.db ≡ next w.db)
  statement_answer f value next w h =
      let ran = statement_ok f (λ now db. ok (value db, next db)) w h in ground arith

  pub clock-statement :
      (f : Error → Error) (run : ℕ → T → Result (A × T)) (w : World T)
      → (statement f run w).1.clock ≡ w.clock
  unfolding statement
  clock-statement f run w = ground arith

  -- The body returned a value, and its tables are the final ones.
  abbrev pub Committed : Action T (A × String) → World T → A → T → Type ℓ
  Committed body w a db' =
      (text : String) × ((body (after_begin w)).0 ≡ ok (a, text))
      × ((body (after_begin w)).1.db ≡ db')

  committed_of_commit :
      (o : Outcome) (text : String) (before : T) (a : A) (w : World T)
      → ((commit text before a o w).1.db ≡ before) ⊎ ((commit text before a o w).1.db ≡ w.db)
  committed_of_commit success text before a w = inr refl
  committed_of_commit (failed e) text before a w = inl refl
  committed_of_commit (unacknowledged e) text before a w = inr refl

  committed_of_close :
      (before : T) (r : Result (A × String)) (w : World T)
      → ((close_transaction before r w).1.db ≡ before)
        ⊎ ((a : A) × (text : String) × (r ≡ ok (a, text))
            × (w.db ≡ (close_transaction before r w).1.db))
  committed_of_close before (err e) w = inl refl
  committed_of_close before (ok (a, text)) w =
      elim (committed_of_commit (first_outcome w.schedule) text before a (after_begin w)) [
        | inl same ↦ inl same
        | inr kept ↦ inr (a, text, refl, sym kept)
      ]

  committed_of_begun :
      (text : String) (o : Outcome) (body : Action T (A × String)) (w : World T)
      → ((begun text o body w).1.db ≡ w.db)
        ⊎ ((a : A) × (t : String) × ((body w).0 ≡ ok (a, t))
            × ((body w).1.db ≡ (begun text o body w).1.db))
  committed_of_begun text success body w = committed_of_close w.db (body w).0 (body w).1
  committed_of_begun text (failed e) body w = inl refl
  committed_of_begun text (unacknowledged e) body w = inl refl

  -- A transaction changes nothing, or its body has returned a value and its writes stand.
  pub transaction_db :
      (text : String) (body : Action T (A × String)) (w : World T)
      → ((transaction text body w).1.db ≡ w.db)
        ⊎ ((a : A) × Committed body w a (transaction text body w).1.db)
  unfolding transaction
  transaction_db text body w =
      elim (committed_of_begun text (first_outcome w.schedule) body (after_begin w)) [
        | inl same ↦ inl same
        | inr (a, t, returned, kept) ↦ inr (a, (t, returned, kept))
      ]

  ok_of_commit :
      (o : Outcome) (text : String) (before : T) (b : A) (w : World T) {a : A}
      → (commit text before b o w).0 ≡ ok a
      → (b ≡ a) × (w.db ≡ (commit text before b o w).1.db)
  ok_of_commit success text before b w h = ground arith
  ok_of_commit (failed e) text before b w h = cc
  ok_of_commit (unacknowledged e) text before b w h = cc

  ok_of_close :
      (before : T) (r : Result (A × String)) (w : World T) {a : A}
      → (close_transaction before r w).0 ≡ ok a
      → (text : String) × (r ≡ ok (a, text)) × (w.db ≡ (close_transaction before r w).1.db)
  ok_of_close before (err e) w h = cc
  ok_of_close before (ok (b, text)) w h =
      let (same, kept) = ok_of_commit (first_outcome w.schedule) text before b (after_begin w) h in
      (text, ap (λ c. ok (c, text)) same, kept)

  ok_of_begun :
      (text : String) (o : Outcome) (body : Action T (A × String)) (w : World T) {a : A}
      → (begun text o body w).0 ≡ ok a
      → (t : String) × ((body w).0 ≡ ok (a, t)) × ((body w).1.db ≡ (begun text o body w).1.db)
  ok_of_begun text success body w h = ok_of_close w.db (body w).0 (body w).1 h
  ok_of_begun text (failed e) body w h = cc
  ok_of_begun text (unacknowledged e) body w h = cc

  -- A transaction that returned a value is committed.
  pub transaction_ok :
      (text : String) (body : Action T (A × String)) (w : World T) {a : A}
      → (transaction text body w).0 ≡ ok a
      → Committed body w a (transaction text body w).1.db
  unfolding transaction
  transaction_ok text body w h = ok_of_begun text (first_outcome w.schedule) body (after_begin w) h

-- A chain that returned a value has a first step that returned one.
module _ {ℓ} {T A B : Type ℓ} where
  continue_ok :
      (r : Result A) (f : A → Action T B) (w : World T) {b : B}
      → (continue r f w).0 ≡ ok b
      → (a : A) × (r ≡ ok a) × (continue r f w ≡ f a w)
  continue_ok (ok a) f w h = (a, refl, refl)
  continue_ok (err e) f w h = cc

  pub bind_ok :
      (m : Action T A) (f : A → Action T B) (w : World T) {b : B}
      → ((m >>= f) w).0 ≡ ok b
      → (a : A) × ((m w).0 ≡ ok a) × ((m >>= f) w ≡ f a (m w).1)
  bind_ok m f w h = continue_ok (m w).0 f (m w).1 h

  -- The same, with what the rest of the chain returned.
  pub bind_then :
      (m : Action T A) (f : A → Action T B) (w : World T) {b : B}
      → ((m >>= f) w).0 ≡ ok b
      → (a : A) × ((m w).0 ≡ ok a) × ((m >>= f) w ≡ f a (m w).1) × ((f a (m w).1).0 ≡ ok b)
  bind_then m f w h =
      let (a, first, same) = bind_ok m f w h in (a, first, same, sym (ap (λ q. q.0) same) ∙ h)

  -- A chain ends where its first step failed, or goes on with the value of that step.
  continue_cases :
      (r : Result A) (f : A → Action T B) (w : World T)
      → ((e : Error) × (r ≡ err e) × (continue r f w ≡ (err e, w)))
        ⊎ ((a : A) × (r ≡ ok a) × (continue r f w ≡ f a w))
  continue_cases (ok a) f w = inr (a, refl, refl)
  continue_cases (err e) f w = inl (e, refl, refl)

  pub bind_cases :
      (m : Action T A) (f : A → Action T B) (w : World T)
      → ((e : Error) × ((m w).0 ≡ err e) × ((m >>= f) w ≡ (err e, (m w).1)))
        ⊎ ((a : A) × ((m w).0 ≡ ok a) × ((m >>= f) w ≡ f a (m w).1))
  bind_cases m f w = continue_cases (m w).0 f (m w).1
