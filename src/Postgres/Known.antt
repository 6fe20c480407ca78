-- ===== src/Postgres/Known.antt =====
-- Errors that a service knows, by `errors.Is`: where the driver's own errors are none of them, an
-- action that ends in one has changed nothing.
use finflow.Base.{ℕ, ◌≡◌, refl, String, Bool, true, false, List, [], ◌∷◌, All, inl, inr, arith}
use finflow.Go.Errors.{Error, wrap, Result, ok, err}
use finflow.Postgres.{
  World, Outcome, success, failed, unacknowledged, Action, first_outcome, other_outcomes,
  after_begin, delivered, statement, commit, close_transaction, begun, transaction, ◌>>=◌,
}
use finflow.Postgres.Atomic.{bind_cases}

module _ (known : Error → Bool) where
  abbrev pub IsDriverOutcome : Outcome → Type 0
  IsDriverOutcome success = Unit
  IsDriverOutcome (failed e) = known e ≡ false
  IsDriverOutcome (unacknowledged e) = known e ≡ false

  -- No error of the driver is known.
  abbrev pub AllDriver : List Outcome → Type 0
  AllDriver = All IsDriverOutcome

  first-driver : (os : List Outcome) → AllDriver os → IsDriverOutcome (first_outcome os)
  first-driver [] h = tt
  first-driver (o ∷ os) h = h.0

  pub other-driver : (os : List Outcome) → AllDriver os → AllDriver (other_outcomes os)
  other-driver [] h = tt
  other-driver (o ∷ os) h = h.1

  -- An action leaves the rest of such a schedule.
  abbrev pub Leaves : {T A : Type 0} → Action T A → Type 0
  Leaves {T} action = (w : World T) → AllDriver w.schedule → AllDriver (action w).1.schedule

  module _ {T A : Type 0} where
    delivered_schedule :
        (o : Outcome) (run : ℕ → T → Result (A × T)) (w : World T)
        → (delivered o run w).1.schedule ≡ w.schedule
    delivered_schedule success run w = refl
    delivered_schedule (failed e) run w = refl
    delivered_schedule (unacknowledged e) run w = refl

    pub statement-Leaves :
        (f : Error → Error) (run : ℕ → T → Result (A × T)) → Leaves (statement f run)
    unfolding statement
    statement-Leaves f run w h =
        rw (delivered_schedule (first_outcome w.schedule) run (after_begin w))
          (other-driver w.schedule h)

  pub bind-Leaves :
      {T A B : Type 0} (m : Action T A) (f : A → Action T B)
      → Leaves m
      → ((a : A) → Leaves (f a))
      → Leaves (m >>= f)
  bind-Leaves m f first next w h = elim (bind_cases m f w) [
    | inl (e, _, same) ↦ rw same (first w h)
    | inr (a, _, same) ↦ rw same (next a (m w).1 (first w h))
  ]

  -- `fmt.Errorf` with `%w` keeps what is known.
  abbrev pub SeesThrough : Type 0
  SeesThrough = (text : String) (e : Error) → known (wrap text e) ≡ known e

  module _ {T A : Type 0} (sees : SeesThrough) where
    known_commit :
        (o : Outcome) (text : String) (before : T) (a : A) (w : World T) {e : Error}
        → IsDriverOutcome o
        → (commit text before a o w).0 ≡ err e
        → known e ≡ true
        → (commit text before a o w).1.db ≡ before
    known_commit success text before a w d h k = absurd cc
    known_commit (failed e) text before a w d h k = refl
    known_commit (unacknowledged e) text before a w d h k = absurd (ground (arith, sees text e))

    known_close :
        (before : T) (r : Result (A × String)) (w : World T) {e : Error}
        → AllDriver w.schedule
        → (close_transaction before r w).0 ≡ err e
        → known e ≡ true
        → (close_transaction before r w).1.db ≡ before
    known_close before (err e) w d h k = refl
    known_close before (ok (a, text)) w d h k =
        known_commit (first_outcome w.schedule) text before a (after_begin w)
          (first-driver w.schedule d) h k

    known_begun :
        (text : String) (o : Outcome) (body : Action T (A × String)) (w : World T) {e : Error}
        → AllDriver (body w).1.schedule
        → (begun text o body w).0 ≡ err e
        → known e ≡ true
        → (begun text o body w).1.db ≡ w.db
    known_begun text success body w d h k = known_close w.db (body w).0 (body w).1 d h k
    known_begun text (failed e) body w d h k = refl
    known_begun text (unacknowledged e) body w d h k = refl

    -- A transaction that ends in a known error is rolled back.
    pub known_transaction :
        (text : String) (body : Action T (A × String)) (w : World T) {e : Error}
        → Leaves body
        → AllDriver w.schedule
        → (transaction text body w).0 ≡ err e
        → known e ≡ true
        → (transaction text body w).1.db ≡ w.db
    unfolding transaction
    known_transaction text body w leaves d h k =
        known_begun text (first_outcome w.schedule) body (after_begin w)
          (leaves (after_begin w) (other-driver w.schedule d)) h k
