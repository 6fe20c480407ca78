-- ===== src/Postgres.antt =====
-- The services' use of `pgx`: a statement outside a transaction, a transaction with its deferred
-- rollback, and what PostgreSQL answers. A schedule gives the outcome of each call, so that every
-- run with failures is one of the model's runs.

pub mod Atomic
pub mod Known
use finflow.Base.{ℕ, ◌+◌, String, List, [], ◌∷◌}
use finflow.Go.Environment.{Environment}
use finflow.Go.Errors.{Error, wrap, Result, ok, err, map_error}

-- What the network does to a call: the server's answer arrives; the call fails before the server
-- acts; or the server acts and the answer is lost.
pub data Outcome : Type 0 where
  success : Outcome
  failed : Error → Outcome
  unacknowledged : Error → Outcome

-- `db` holds the tables, `next_id` counts the calls of `uuid.NewString()`, `clock` is `now()`.
pub record World {ℓ} (T : Type ℓ) : Type ℓ where
  pub db : T
  pub schedule : List Outcome
  pub next_id : ℕ
  pub clock : ℕ

abbrev pub Action {ℓ κ} : Type ℓ → Type κ → Type (ℓ ⊔ κ)
Action T A = World T → Result A × World T

module _ {ℓ} {T A : Type ℓ} where
  abbrev pub pure : A → Action T A
  pure a w = (ok a, w)

  abbrev pub fail : Error → Action T A
  fail e w = (err e, w)

  abbrev pub lift : Result A → Action T A
  lift r w = (r, w)

module _ {ℓ} {T A B : Type ℓ} where
  abbrev pub continue : Result A → (A → Action T B) → Action T B
  continue (ok a) f w = f a w
  continue (err e) f w = (err e, w)

  infixl 5 ◌>>=◌
  abbrev pub ◌>>=◌ : Action T A → (A → Action T B) → Action T B
  ◌>>=◌ m f w = let (r, w') = m w in continue r f w'

-- The first outcome of the schedule; after its end every call succeeds.
abbrev pub first_outcome : List Outcome → Outcome
first_outcome [] = success
first_outcome (o ∷ os) = o

abbrev pub other_outcomes : List Outcome → List Outcome
other_outcomes [] = []
other_outcomes (o ∷ os) = os

-- The world after one more call to the server, when the body of a transaction starts.
abbrev pub after_begin {ℓ} : {T : Type ℓ} → World T → World T
after_begin w = record w { schedule = other_outcomes w.schedule }

-- `uuid.NewString()`
unfoldable pub new_uuid {ℓ} : {T : Type ℓ} → Environment → World T → String × World T
new_uuid env w = (env.new_string w.next_id, record w { next_id = w.next_id + 1 })

module _ {ℓ} {T A : Type ℓ} where
  -- What the server does with a statement: a refused one changes nothing.
  abbrev pub served : Result (A × T) → T → Result A × T
  served (ok (a, db')) db = (ok a, db')
  served (err e) db = (err e, db)

  abbrev pub delivered : Outcome → (ℕ → T → Result (A × T)) → Action T A
  delivered success run w =
      let (r, db') = served (run w.clock w.db) w.db in (r, record w { db = db' })
  delivered (failed e) run w = (err e, w)
  delivered (unacknowledged e) run w =
      let (r, db') = served (run w.clock w.db) w.db in (err e, record w { db = db' })

  -- One statement, whose error is wrapped by `text`: `QueryRow`, `Query` or `Exec`.
  unfoldable pub statement : (Error → Error) → (ℕ → T → Result (A × T)) → Action T A
  statement f run w =
      let (r, w') =
        delivered (first_outcome w.schedule) run
          (record w { schedule = other_outcomes w.schedule }) in
      (map_error f r, w')

  -- `tx.Commit`: at an error the transaction is rolled back, or it is committed unseen.
  abbrev pub commit : String → T → A → Outcome → Action T A
  commit text before a success w = (ok a, w)
  commit text before a (failed e) w = (err (wrap text e), record w { db = before })
  commit text before a (unacknowledged e) w = (err (wrap text e), w)

  -- The way out of a transaction's body: the deferred rollback after an error.
  abbrev pub close_transaction : T → Result (A × String) → Action T A
  close_transaction before (err e) w = (err e, record w { db = before })
  close_transaction before (ok (a, text)) w =
      commit text before a (first_outcome w.schedule)
        (record w { schedule = other_outcomes w.schedule })

  abbrev pub begun : String → Outcome → Action T (A × String) → Action T A
  begun text success body w = let (r, w') = body w in close_transaction w.db r w'
  begun text (failed e) body w = (err (wrap text e), w)
  begun text (unacknowledged e) body w = (err (wrap text e), w)

  -- `BeginTx`, `defer tx.Rollback`, the body, and `Commit` where the body ends without an error.
  -- The body returns its value with the text that wraps an error of its `Commit`.
  unfoldable pub transaction : String → Action T (A × String) → Action T A
  transaction text body w = begun text (first_outcome w.schedule) body (after_begin w)
