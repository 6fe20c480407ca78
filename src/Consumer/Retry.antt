-- ===== src/Consumer/Retry.antt =====
-- `handleWithRetry` of consumer/payment_consumer.go: at most `max_attempts` calls, with a doubled and
-- capped wait between two. What ends a wait is read from a list: the timer, or the context's error.
pub mod Trace
pub mod Waits
pub mod Booking
use finflow.Base.{
  ℕ, zero, suc, ◌+◌, ◌-◌, ◌*◌, ◌%◌, ◌^◌, Bool, ◌&&◌, ◌||◌, Option, none, some, List, [], ◌∷◌, ltb,
  ◌==◌, if◌then◌else◌,
}
use finflow.Base.Int.{int64_mod}
use finflow.Go.Errors.{Error, message, is_permanent, Result, ok, err}
use finflow.Go.Json.{Document}
use finflow.Postgres.{World, Action}
use finflow.Consumer.Message.{Message}

-- The settings of a `PaymentConsumer`; durations are counted in nanoseconds.
pub record RetryPolicy : Type 0 where
  pub max_attempts : ℕ
  pub initial_backoff : ℕ
  pub max_backoff : ℕ

-- `backoff *= 2; if backoff > max { backoff = max }` on `int64`: a product from 2 ^ 63 is negative.
unfoldable pub next_backoff : ℕ → ℕ → ℕ
next_backoff max_backoff backoff =
    let doubled = backoff * 2 % int64_mod in
    if ltb max_backoff doubled && ltb doubled (2 ^ 63) then max_backoff else doubled

-- What the loop returns, with the waits that it made and the answers to waits that are left.
pub record Handled : Type 0 where
  pub attempts : ℕ
  pub error : Option Error
  pub waited : List ℕ
  pub waits : List (Option Error)

abbrev pub first_wait : List (Option Error) → Option Error
first_wait [] = none
first_wait (o ∷ os) = o

abbrev pub other_waits : List (Option Error) → List (Option Error)
other_waits [] = []
other_waits (o ∷ os) = os

abbrev pub after_wait : ℕ → Handled → Handled
after_wait backoff r = record r { waited = backoff ∷ r.waited }

-- The end of one round: return, or wait and go on with `again`, the rest of the loop.
abbrev pub settle {ℓ} :
    {W : Type ℓ}
    → RetryPolicy
    → ℕ
    → ℕ
    → List (Option Error)
    → Handled × W
    → Result (Unit {0})
    → W
    → Handled × W
settle policy attempt backoff waits again (ok done) w =
    (record { attempts = attempt; error = none; waited = []; waits = waits }, w)
settle policy attempt backoff waits again (err e) w =
    if is_permanent e || attempt == policy.max_attempts
    then (record { attempts = attempt; error = some e; waited = []; waits = waits }, w)
    else elim (first_wait waits) [
      | some cause ↦ (
        record { attempts = attempt; error = some cause; waited = []; waits = other_waits waits },
        w,
      )
      | none ↦ (after_wait backoff again.0, again.1)
    ]

module _ {T : Type 0} (handle : World T → Result (Unit {0}) × World T) (policy : RetryPolicy) where
  -- `for attempt := ...`, with the attempts that are left.
  unfoldable pub retry_loop : ℕ → ℕ → ℕ → List (Option Error) → World T → Handled × World T
  unfolding is_permanent next_backoff
  retry_loop zero attempt backoff waits w = (
    record {
      attempts = policy.max_attempts;
      error = some (message "payment event retries exhausted");
      waited = [];
      waits = waits;
    },
    w,
  )
  retry_loop (suc left) attempt backoff waits w =
      let (r, w') = handle w in
      let again =
        retry_loop left (attempt + 1) (next_backoff policy.max_backoff backoff) (other_waits waits)
          w' in
      settle policy attempt backoff waits again r w'

  unfoldable pub handle_with_retry : List (Option Error) → World T → Handled × World T
  unfolding retry_loop
  handle_with_retry = retry_loop policy.max_attempts 1 policy.initial_backoff
